-- ===== src/Wangle/Codec.antt =====
-- `Message` and `MessageCodec` of wangle/message.h, with the memory behind a message. `none` is an
-- access past the end of an allocation.
pub mod Bounds
use thrift_bench.Prelude.{
  ℕ, ◌+◌, ◌<◌, ◌≤◌, Bool, true, false, Option, none, some, List, [], ◌∷◌, ◌++◌, leb, if◌then◌else◌,
  ◌>>=◌, ◌>>◌, assert, length, take, drop,
}
use thrift_bench.Prelude.Bytes.{le_bytes, le_value}

-- The four fields, each of eight bytes, and the bytes of the allocation behind them.
pub record Message : Type 0 where
  pub req_id : ℕ
  pub extra_len : ℕ
  pub client_send : ℕ
  pub client_resp : ℕ
  pub room : List ℕ

abbrev pub sizeof_message : ℕ
sizeof_message = 32

-- The object and what is allocated behind it, as bytes.
abbrev pub bytes_of : Message → List ℕ
bytes_of m =
    le_bytes 8 m.req_id
    ++ (le_bytes 8 m.extra_len
        ++ (le_bytes 8 m.client_send ++ (le_bytes 8 m.client_resp ++ m.room)))

-- `new (extra) Message(extra)`, in a block whose bytes are not cleared: the constructor sets
-- `extraLen`, the times are those of the epoch.
unfoldable pub new_message : (extra stale_id : ℕ) (stale : List ℕ) → Message
new_message extra stale_id stale = record {
  req_id = stale_id;
  extra_len = extra;
  client_send = 0;
  client_resp = 0;
  room = take extra stale;
}

-- `new (0) Message(*msg)`: the fields of another message, in a block of their own size.
unfoldable pub copy_message : Message → Message
copy_message m = record m { room = [] }

-- `(Message *)buf->data()`, which is read in full.
unfoldable pub overlay : List ℕ → Option Message
overlay buf = do
  assert (leb sizeof_message (length buf))
  some (record {
    req_id = le_value (take 8 buf);
    extra_len = le_value (take 8 (drop 8 buf));
    client_send = le_value (take 8 (drop 16 buf));
    client_resp = le_value (take 8 (drop 24 buf));
    room = drop sizeof_message buf;
  })

-- `read`: the messages that it passes on.
unfoldable pub read : Option (List ℕ) → Option (List Message)
unfolding overlay copy_message
read none = some []
read (some buf) = overlay buf >>= λ msg. some (copy_message msg ∷ [])

-- `write`: the buffer that it passes on, copied from the message and as many bytes behind it as the
-- message says.
pub write : Message → Option (List ℕ)
write msg = do
  assert (leb (sizeof_message + msg.extra_len) (length (bytes_of msg)))
  some (take (sizeof_message + msg.extra_len) (bytes_of msg))

write_all : List Message → Option (List (List ℕ))
unfolding write
write_all [] = some []
write_all (m ∷ ms) = do b ← write m; bs ← write_all ms; some (b ∷ bs)

-- The server's pipeline: what is read goes to `MsgService`, which returns it, and is written.
pub serve : Option (List ℕ) → Option (List (List ℕ))
unfolding read write_all
serve buf = read buf >>= λ ms. write_all ms
