-- ===== src/AsyncIo/Request.antt =====
-- AsyncIO/request.h: the fixed-size request, the buffer and the read callback that cuts the byte
-- stream of a socket into requests. A failed assertion is `none`.
pub mod Chunks
pub mod Framing
pub mod Codec
use thrift_bench.Prelude.{
  ℕ, zero, suc, ◌+◌, ◌-◌, ◌%◌, ◌/◌, ◌^◌, ◌≤◌, ◌<◌, min, ◌≡◌, Bool, true, false, not, ◌||◌, Option,
  none, some, List, [], ◌∷◌, ◌++◌, ltb, leb, ◌==◌, if◌then◌else◌, ◌>>=◌, ◌>>◌, assert, length, take,
  drop, add64, sub64, replicate,
}

-- `sizeof(struct request)`: eight bytes of `requestid` and 4096 - 8 bytes of `buf`.
abbrev pub request_size : ℕ
request_size = 4096

-- The callback holds a buffer (null, or the bytes that it points to) and how much of it is filled.
-- `registered` is `cbp_` not null, and `terminated` is what `basep_` has been told.
pub record ReadCallback : Type 0 where
  pub req_size : ℕ
  pub raw_bufp : Option (List ℕ)
  pub bytes_read : ℕ
  pub registered : Bool
  pub terminated : Bool

-- The arguments with which `cbp_` is called.
pub record Delivery : Type 0 where
  pub buffer : Option (List ℕ)
  pub size : ℕ

-- The constructor of `Buffer` asserts its length.
pub new_buffer : ℕ → Option ℕ
new_buffer l = do assert (l == request_size); some l

unfoldable pub new_callback : ℕ → Option ReadCallback
unfolding new_buffer
new_callback req_size = do
  l ← new_buffer req_size
  some (record {
    req_size = req_size;
    raw_bufp = none;
    bytes_read = 0;
    registered = false;
    terminated = false;
  })

unfoldable pub register_read_callback : ReadCallback → ReadCallback
register_read_callback rc = record rc { registered = true }

unfoldable pub read_eof : ReadCallback → ReadCallback
read_eof rc = record rc { terminated = true }

pub read_err : ReadCallback → ReadCallback
read_err rc = record rc { terminated = true }

abbrev is_null {ℓ} : {A : Type ℓ} → Option A → Bool
is_null none = true
is_null (some a) = false

-- The branch of `readDataAvailable` for a full buffer: it is handed to `cbp_`, and forgotten.
deliver : ℕ → ReadCallback → Option (ReadCallback × List Delivery)
deliver n rc = do
  assert (n == rc.req_size)
  some (
    record rc { raw_bufp = none; bytes_read = 0 },
    record { buffer = rc.raw_bufp; size = rc.req_size } ∷ [],
  )

-- `readDataAvailable(len)`, with the calls that it makes of `cbp_`.
pub read_data_available : ℕ → ReadCallback → Option (ReadCallback × List Delivery)
unfolding deliver
read_data_available len rc = do
  let n = add64 rc.bytes_read len
  assert rc.registered
  assert (leb n rc.req_size)
  if leb rc.req_size n then deliver n rc else some (record rc { bytes_read = n }, [])

-- `malloc` is the C library's: it gives the bytes of a fresh block, whatever they hold, or fails.
module _ (malloc : ℕ → Option (List ℕ)) where
  -- `Buffer::allocate`, with the size that it reports.
  pub allocate : ℕ → Option (List ℕ × ℕ)
  allocate l = do bufp ← malloc l; some (bufp, l)

  -- The branch of `getReadBuffer` that takes a fresh block.
  renew : ReadCallback → Option (ℕ × ℕ × ReadCallback)
  unfolding allocate
  renew rc = do
    (bufp, size) ← allocate rc.req_size
    assert (size == rc.req_size)
    some (0, rc.req_size, record rc { raw_bufp = some bufp; bytes_read = 0 })

  -- `getReadBuffer`: the offset into the block, and the room from there.
  pub get_read_buffer : ReadCallback → Option (ℕ × ℕ × ReadCallback)
  unfolding renew
  get_read_buffer rc =
      if leb rc.req_size rc.bytes_read || is_null rc.raw_bufp
      then renew rc
      else some (rc.bytes_read, sub64 rc.req_size rc.bytes_read, rc)
