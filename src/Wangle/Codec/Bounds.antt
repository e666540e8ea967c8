-- ===== src/Wangle/Codec/Bounds.antt =====
-- What the codec reads and writes, and where it goes past the end of a message.
use thrift_bench.Prelude.{
  ℕ, ◌+◌, ◌^◌, ◌<◌, ◌≡◌, refl, sym, ap, ◌∙◌, true, false, none, some, List, [], ◌∷◌, leb,
  if◌then◌else◌, length, arith, take_whole, ◌==◌, Bool-cases, inl, inr,
}
use thrift_bench.Prelude.Bytes.{le_bytes, le_value}
use thrift_bench.Wangle.Codec.{
  Message, sizeof_message, bytes_of, copy_message, overlay, read, write, write_all, serve,
}

-- The fields fit eight bytes, and the block is as long as the message says.
pub record IsWhole (m : Message) : Type 0 where
  pub id_fits : m.req_id < 2 ^ 64
  pub extra_fits : m.extra_len < 2 ^ 63
  pub send_fits : m.client_send < 2 ^ 64
  pub resp_fits : m.client_resp < 2 ^ 64
  pub allocated : length m.room ≡ m.extra_len

value-bytes : (x : ℕ) → x < 2 ^ 64 → le_value (le_bytes 8 x) ≡ x
value-bytes x h = omega arith

length-bytes_of : (m : Message) → length (bytes_of m) ≡ sizeof_message + length m.room
length-bytes_of m = omega arith

-- As much as the message says is there: the whole of it is written.
write-IsWhole : (m : Message) → IsWhole m → write m ≡ some (bytes_of m)
unfolding write
write-IsWhole m w =
    let n : sizeof_message + m.extra_len ≡ length (bytes_of m) =
      omega (arith, length-bytes_of m, w.allocated) in
    let there : leb (sizeof_message + m.extra_len) (length (bytes_of m)) ≡ true =
      ground (arith, n) in
    rw there (ap some (take_whole (sizeof_message + m.extra_len) (bytes_of m) n))

overlay-bytes_of : (m : Message) → IsWhole m → overlay (bytes_of m) ≡ some m
unfolding overlay
overlay-bytes_of m w =
    let there : leb sizeof_message (length (bytes_of m)) ≡ true =
      ground (arith, length-bytes_of m) in
    let id = value-bytes m.req_id w.id_fits in
    let extra = value-bytes m.extra_len (omega (arith, w.extra_fits)) in
    let send = value-bytes m.client_send w.send_fits in
    let resp = value-bytes m.client_resp w.resp_fits in
    rw there (λ i. some (record {
      req_id = id i;
      extra_len = extra i;
      client_send = send i;
      client_resp = resp i;
      room = m.room;
    }))

nil_of-length : (xs : List ℕ) → length xs ≡ 0 → [] ≡ xs
nil_of-length [] e = refl
nil_of-length (x ∷ xs) e = absurd (omega arith)

-- A copy has no room, so that only a message without extra bytes can be written from it.
write-copy :
    (m : Message)
    → IsWhole m
    → write (copy_message m) ≡ (if m.extra_len == 0 then some (bytes_of m) else none)
unfolding copy_message write
write-copy m w = elim (Bool-cases (m.extra_len == 0)) [
  | inl e ↦
      let none_extra : m.extra_len ≡ 0 = ground (arith, e) in
      let whole : IsWhole (copy_message m) = record {
        id_fits = w.id_fits;
        extra_fits = w.extra_fits;
        send_fits = w.send_fits;
        resp_fits = w.resp_fits;
        allocated = sym none_extra;
      } in
      let empty = nil_of-length m.room (w.allocated ∙ none_extra) in
      rw e (
        write-IsWhole (copy_message m) whole
        ∙ ap (λ room. some (bytes_of (record m { room = room }))) empty)
  | inr e ↦ rw e (past_end e)
]
  where
    past_end : m.extra_len == 0 ≡ false → write (copy_message m) ≡ none
    past_end e =
        let copy = copy_message m in
        let short : leb (sizeof_message + m.extra_len) (length (bytes_of copy)) ≡ false =
          ground (arith, length-bytes_of copy, e) in
        rw (short, write) refl

-- A message whose block is as long as it says, as the client makes them, is written in full, and
-- read back with its fields, but into a block without room for its extra bytes. So the server, which
-- writes what it has read, sends the message back if it has no extra bytes, and otherwise reads past
-- the end of its copy.
pub serve-write :
    (m : Message)
    → IsWhole m
    → (buf : List ℕ) × (write m ≡ some buf)
      × (length buf ≡ sizeof_message + m.extra_len)
      × (read (some buf) ≡ some (copy_message m ∷ []))
      × (serve (some buf) ≡ (if m.extra_len == 0 then some (buf ∷ []) else none))
unfolding read serve write_all
serve-write m w =
    let got = overlay-bytes_of m w in
    (
      bytes_of m,
      write-IsWhole m w,
      omega (arith, length-bytes_of m, w.allocated),
      rw got refl,
      rw got (
          rw (write-copy m w)
            (elim (Bool-cases (m.extra_len == 0)) [ inl e ↦ rw e refl | inr e ↦ rw e refl ])),
    )
