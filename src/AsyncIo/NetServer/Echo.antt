-- ===== src/AsyncIo/NetServer/Echo.antt =====
-- Client, read callback and server together: the server answers the requests of a client with the
-- same bytes, in the order in which they were sent.
use thrift_bench.Prelude.{
  ℕ, zero, suc, ◌+◌, ◌<◌, ◌≡◌, refl, sym, ap, ◌∙◌, Option, some, List, [], ◌∷◌, ◌++◌, map,
  append-nil, append_assoc, length, take, concat, All, length-append, take-append, append-injective,
  All-append, ap₂, arith,
}
use thrift_bench.AsyncIo.Request.{
  ReadCallback, Delivery, request_size, new_callback, register_read_callback,
}
use thrift_bench.AsyncIo.Request.Framing.{new_callback-Framed}
use thrift_bench.AsyncIo.Request.Chunks.{Allocates, Framed, receive, whole, pending}
use thrift_bench.AsyncIo.Request.Codec.{request_bytes, length-request_bytes}
use thrift_bench.AsyncIo.NetClient.Sends.{requests_upto}
use thrift_bench.AsyncIo.NetServer.{Connection, fresh, read_data_available, echo}

take-length : (n : ℕ) (xs : List ℕ) → length xs ≡ n → take n xs ≡ xs
take-length n xs e = rw (← e) (ap (take (length xs)) (sym (append-nil xs)) ∙ take-append xs [])

-- The server writes back each request that it is handed, in order.
pub echo_lem :
    (fs : List (List ℕ)) (c : Connection)
    → All (λ f. length f ≡ request_size) fs
    → (c' : Connection) × (echo (map (whole request_size) fs) c ≡ some c')
      × (c'.wire ≡ c.wire ++ fs)
      × (length c'.live ≡ length c.live + length fs)
unfolding echo read_data_available
echo_lem [] c h = (c, refl, sym (append-nil c.wire), omega arith)
echo_lem (f ∷ fs) c h =
    let c1 : Connection = record c {
      live = record { name = c.next; mbufp = f } ∷ c.live;
      next = c.next + 1;
      wire = c.wire ++ f ∷ [];
    } in
    let (c2, e, w, l) = echo_lem fs c1 h.1 in
    (c2, rw (take-length request_size f h.0) e, w ∙ append_assoc c.wire (f ∷ []) fs, omega arith)

-- Blocks of one size that make up the start of a stream of such blocks are its first blocks.
pub blocks-prefix :
    (n : ℕ) (fs gs : List (List ℕ)) (rest : List ℕ)
    → 0 < n
    → All (λ f. length f ≡ n) fs
    → All (λ g. length g ≡ n) gs
    → concat fs ++ rest ≡ concat gs
    → (hs : List (List ℕ)) × (gs ≡ fs ++ hs) × (rest ≡ concat hs)
blocks-prefix n [] gs rest pos hf hg e = (gs, refl, e)
blocks-prefix n (f ∷ fs) [] rest pos hf hg e = absurd (
    omega
      (arith, hf.0, ap length e, length-append (f ++ concat fs) rest, length-append f (concat fs)))
blocks-prefix n (f ∷ fs) (g ∷ gs) rest pos hf hg e =
    let (same, tails) =
      append-injective f g (hf.0 ∙ sym hg.0) (sym (append_assoc f (concat fs) rest) ∙ e) in
    let (hs, p, q) = blocks-prefix n fs gs rest pos hf.1 hg.1 tails in (hs, ap₂ ◌∷◌ (sym same) p, q)

pub requests_upto-All : (n : ℕ) → All (λ g. length g ≡ request_size) (requests_upto n)
requests_upto-All zero = tt
requests_upto-All (suc n) =
    All-append _ (requests_upto n) (request_bytes (suc n) ∷ []) (requests_upto-All n)
      (length-request_bytes (suc n), tt)

echo-Framed :
    (n : ℕ) (rc : ReadCallback) {r : Option (ReadCallback × List Delivery × List ℕ)}
    → Framed rc (concat (requests_upto n)) r
    → rc.req_size ≡ request_size
    → pending rc ≡ []
    → (rc' : ReadCallback) × (ds : List Delivery) × (rest : List ℕ) × (c : Connection)
      × (unanswered : List (List ℕ)) × (r ≡ some (rc', ds, rest))
      × (echo ds fresh ≡ some c)
      × (requests_upto n ≡ c.wire ++ unanswered)
      × (pending rc' ++ rest ≡ concat unanswered)
      × (length c.live ≡ length c.wire)
unfolding fresh
echo-Framed n rc f sz none_pending =
    let all : All (λ g. length g ≡ request_size) f.frames = rw sz at f.whole_size in
    let (c, e, w, l) = echo_lem f.frames fresh all in
    let (hs, p, q) =
      blocks-prefix request_size f.frames (requests_upto n) (pending f.after ++ f.rest)
        (omega arith) all (requests_upto-All n)
        (f.in_order ∙ ap (λ xs. xs ++ concat (requests_upto n)) none_pending) in
    (
      f.after,
      map (whole request_size) f.frames,
      f.rest,
      c,
      hs,
      f.returns ∙ rw sz refl,
      e,
      p ∙ ap (λ xs. xs ++ hs) (sym w),
      q,
      omega (arith, l, ap length w),
    )

-- A server connection receives the n requests of a client in pieces of any sizes: no assertion
-- fails on the way, the calls of `socket->write` are the first of these requests, in order and with
-- the same bytes, and the requests that are not answered are those whose bytes are still pending
-- or not yet received. Each answer has a write callback of its own. `malloc` is taken to have
-- memory.
pub echo-receive :
    (malloc : ℕ → Option (List ℕ))
    → Allocates malloc
    → (ks : List ℕ) (n size : ℕ) (rc : ReadCallback) → new_callback size ≡ some rc
    → (rc' : ReadCallback) × (ds : List Delivery) × (rest : List ℕ) × (c : Connection)
      × (unanswered : List (List ℕ)) × (receive malloc ks
            (concat (requests_upto n))
            (register_read_callback rc)
          ≡ some (rc', ds, rest))
      × (echo ds fresh ≡ some c)
      × (requests_upto n ≡ c.wire ++ unanswered)
      × (pending rc' ++ rest ≡ concat unanswered)
      × (length c.live ≡ length c.wire)
echo-receive malloc al ks n size rc e =
    let (f, sz, p) = new_callback-Framed malloc al ks (concat (requests_upto n)) size rc e in
    echo-Framed n (register_read_callback rc) f sz p
