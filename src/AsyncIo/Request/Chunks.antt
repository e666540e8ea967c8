-- ===== src/AsyncIo/Request/Chunks.antt =====
-- The buffer of the read callback, and what one chunk of bytes does to it.
use thrift_bench.Prelude.{
  ℕ, ◌+◌, ◌-◌, ◌^◌, ◌≤◌, ◌<◌, min, ◌≡◌, sym, ap, ◌∙◌, true, Option, none, some, List, [], ◌∷◌, ◌++◌,
  map, append-nil, append_assoc, ◌==◌, if◌then◌else◌, ◌>>=◌, length, take, drop, concat, All,
  length-append, length-take, length-drop, take-append, arith,
}
use thrift_bench.AsyncIo.Request.{ReadCallback, Delivery, read_data_available, get_read_buffer}

-- The socket's `recv` into the block at an offset.
abbrev pub write_at : List ℕ → ℕ → List ℕ → List ℕ
write_at xs off chunk = take off xs ++ (chunk ++ drop (off + length chunk) xs)

abbrev pub fill : Option (List ℕ) → ℕ → List ℕ → Option (List ℕ)
fill none off chunk = none
fill (some xs) off chunk = some (write_at xs off chunk)

-- What is in the buffer and has not been delivered.
abbrev pub pending_of : Option (List ℕ) → ℕ → List ℕ
pending_of none n = []
pending_of (some xs) n = take n xs

abbrev pub pending : ReadCallback → List ℕ
pending rc = pending_of rc.raw_bufp rc.bytes_read

abbrev pub BufferFits : ℕ → Option (List ℕ) → ℕ → Type 0
BufferFits size none n = n ≡ 0
BufferFits size (some xs) n = length xs ≡ size

-- What holds between two calls of the socket.
pub record IsReady (rc : ReadCallback) : Type 0 where
  pub connected : rc.registered ≡ true
  pub room : rc.bytes_read < rc.req_size
  pub small : rc.req_size < 2 ^ 32
  pub block : BufferFits rc.req_size rc.raw_bufp rc.bytes_read

abbrev pub whole : ℕ → List ℕ → Delivery
whole size xs = record { buffer = some xs; size = size }

module _ (malloc : ℕ → Option (List ℕ)) where
  -- One readable event: the socket asks for a buffer, receives at most `k` bytes, and no more than
  -- the room that it was given, and reports them.
  unfoldable pub on_readable :
      ℕ → List ℕ → ReadCallback → Option (ReadCallback × List Delivery × List ℕ)
  on_readable k stream rc = do
    (off, size, rc1) ← get_read_buffer malloc rc
    let chunk = take (min k size) stream
    (rc2, out) ←
        read_data_available (length chunk) (record rc1 { raw_bufp = fill rc1.raw_bufp off chunk })
    some (rc2, out, drop (min k size) stream)

  unfoldable pub receive :
      List ℕ → List ℕ → ReadCallback → Option (ReadCallback × List Delivery × List ℕ)
  receive [] stream rc = some (rc, [], stream)
  receive (k ∷ ks) stream rc = do
    (rc1, out, stream1) ← on_readable k stream rc
    (rc2, more, stream2) ← receive ks stream1 rc1
    some (rc2, out ++ more, stream2)

pub take-append_of_eq : (n : ℕ) (xs ys : List ℕ) → n ≡ length xs → take n (xs ++ ys) ≡ xs
take-append_of_eq n xs ys e = rw (e, take-append xs ys)

pub take-all : (n : ℕ) (xs : List ℕ) → n ≡ length xs → take n xs ≡ xs
take-all n xs e = ap (take n) (sym (append-nil xs)) ∙ take-append_of_eq n xs [] e

-- The bytes before the end of what was written are those there were, and the new ones.
pub take-write_at :
    (xs chunk : List ℕ) (n : ℕ)
    → n ≤ length xs
    → take (n + length chunk) (write_at xs n chunk) ≡ take n xs ++ chunk
take-write_at xs chunk n h =
    ap (take (n + length chunk)) (sym (append_assoc (take n xs) chunk _))
    ∙ take-append_of_eq (n + length chunk) (take n xs ++ chunk) _
        (omega (arith, length-append (take n xs) chunk, length-take n xs))

pub length-write_at :
    (xs chunk : List ℕ) (n : ℕ)
    → n + length chunk ≤ length xs
    → length (write_at xs n chunk) ≡ length xs
length-write_at xs chunk n h = omega (
  arith,
  length-append (take n xs) (chunk ++ drop (n + length chunk) xs),
  length-append chunk (drop (n + length chunk) xs),
  length-take n xs,
  length-drop (n + length chunk) xs,
)

-- `malloc` has memory: every block that is asked for has the size that was asked for.
abbrev pub Allocates : (ℕ → Option (List ℕ)) → Type 0
Allocates malloc = (n : ℕ) → (xs : List ℕ) × (malloc n ≡ some xs) × (length xs ≡ n)

-- A run of the callback ended without a failed assertion: it delivered `frames`, each a whole
-- request, and with what is still pending and still to be received they are the stream.
pub record Framed (rc : ReadCallback) (stream : List ℕ)
    (r : Option (ReadCallback × List Delivery × List ℕ)) : Type 0 where
  pub after : ReadCallback
  pub rest : List ℕ
  pub frames : List (List ℕ)
  pub returns : r ≡ some (after, map (whole rc.req_size) frames, rest)
  pub ready : IsReady after
  pub same_size : after.req_size ≡ rc.req_size
  pub whole_size : All (λ f. length f ≡ rc.req_size) frames
  pub in_order : concat frames ++ (pending after ++ rest) ≡ pending rc ++ stream

module _ (malloc : ℕ → Option (List ℕ)) (allocates : Allocates malloc) where
  pub get_read_buffer_lem :
      (rc : ReadCallback) (b : Option (List ℕ))
      → rc.raw_bufp ≡ b
      → IsReady rc
      → (off : ℕ) × (xs : List ℕ) × (get_read_buffer malloc rc
          ≡ some (off, rc.req_size - off, record rc { raw_bufp = some xs; bytes_read = off }))
        × (length xs ≡ rc.req_size)
        × (off < rc.req_size)
        × (take off xs ≡ pending rc)
  unfolding get_read_buffer
  get_read_buffer_lem rc none e v =
      let (xs, m, l) = allocates rc.req_size in (0, xs, ground arith, l, ground arith, ground arith)
  get_read_buffer_lem rc (some xs) e v =
      (rc.bytes_read, xs, ground arith, ground arith, ground arith, ground arith)

pub read_data_available_lem :
    (rc : ReadCallback) (xs : List ℕ) (off len : ℕ)
    → IsReady rc
    → off < rc.req_size
    → len ≤ rc.req_size - off
    → read_data_available len (record rc { raw_bufp = some xs; bytes_read = off }) ≡ (
        if off + len == rc.req_size
        then some (record rc { raw_bufp = none; bytes_read = 0 }, whole rc.req_size xs ∷ [])
        else some (record rc { raw_bufp = some xs; bytes_read = off + len }, []))
unfolding read_data_available
read_data_available_lem rc xs off len v h k = ground arith

-- A chunk that reaches the end of the block leaves nothing of what stood there.
pub write_at_full :
    (xs chunk : List ℕ) (off : ℕ)
    → off + length chunk ≡ length xs
    → write_at xs off chunk ≡ take off xs ++ chunk
write_at_full xs chunk off e =
    sym (
      take-all (off + length chunk) (write_at xs off chunk)
        (omega (arith, length-write_at xs chunk off)))
    ∙ take-write_at xs chunk off (omega arith)

pub regroup : (ps cs rs stream : List ℕ) → cs ++ rs ≡ stream → (ps ++ cs) ++ rs ≡ ps ++ stream
regroup ps cs rs stream e = append_assoc ps cs rs ∙ ap (◌++◌ ps) e
