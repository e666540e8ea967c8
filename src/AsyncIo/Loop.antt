-- ===== src/AsyncIo/Loop.antt =====
-- The client of AsyncIO/net-client.cpp against the server of AsyncIO/net-server.cpp, with two sockets
-- between them that hand out the bytes in pieces of any sizes.
use thrift_bench.Prelude.{
  ℕ, zero, suc, ◌+◌, ◌-◌, ◌*◌, ◌^◌, ◌≤◌, ◌<◌, ◌≡◌, min, refl, sym, ap, ap₂, ◌∙◌, Option, some, List,
  [], ◌∷◌, ◌++◌, map, append_assoc, ◌==◌, ◌>>=◌, if◌then◌else◌, length, concat, All, length-append,
  concat-append, arith,
}
use mathlib.Core.List.{map-append}
use thrift_bench.AsyncIo.Request.{
  ReadCallback, Delivery, request_size, new_callback, register_read_callback,
}
use thrift_bench.AsyncIo.Request.Framing.{new_callback-Framed}
use thrift_bench.AsyncIo.Request.Chunks.{Allocates, Framed, receive, whole, pending}
use thrift_bench.AsyncIo.Request.Codec.{request_bytes, request_id_of-request_bytes}
use thrift_bench.AsyncIo.NetClient.{
  Benchmark, new_benchmark, start_benchmark, serve, serve_read, request_read, request_received,
  max_requests_default,
}
use thrift_bench.AsyncIo.NetClient.Sends.{requests_upto}
use thrift_bench.AsyncIo.NetClient.Counts.{serve_lem}
use thrift_bench.AsyncIo.NetClient.Runs.Ends.{in_order, in_order-Answers, length-in_order}
use thrift_bench.AsyncIo.NetServer.{fresh, echo}
use thrift_bench.AsyncIo.NetServer.Echo.{echo-receive, blocks-prefix, requests_upto-All}

-- The requests with identifiers behind `k`.
abbrev requests_in : (k n : ℕ) → List (List ℕ)
requests_in k n = map request_bytes (in_order k n)

in_order-snoc : (k n : ℕ) → in_order k (suc n) ≡ in_order k n ++ suc (k + n) ∷ []
unfolding in_order
in_order-snoc k zero = ap (λ i. suc i ∷ []) (omega arith)
in_order-snoc k (suc n) =
    ap (λ l. suc k ∷ l)
      (in_order-snoc (suc k) n ∙ ap (λ i. in_order (suc k) n ++ suc i ∷ []) (omega arith))

requests_upto-in_order : (n : ℕ) → requests_upto n ≡ requests_in 0 n
unfolding in_order
requests_upto-in_order zero = refl
requests_upto-in_order (suc n) =
    ap (λ l. l ++ request_bytes (suc n) ∷ []) (requests_upto-in_order n)
    ∙ sym (map-append request_bytes (in_order 0 n) (suc n ∷ []))
    ∙ ap (map request_bytes)
        (ap (λ i. in_order 0 n ++ suc i ∷ []) (omega arith) ∙ sym (in_order-snoc 0 n))

length-requests_in : (k n : ℕ) → length (requests_in k n) ≡ n
unfolding in_order
length-requests_in k zero = refl
length-requests_in k (suc n) = ap suc (length-requests_in (suc k) n)

-- The first of them are the first of them.
requests_in-prefix :
    (k n : ℕ) (fs hs : List (List ℕ)) → requests_in k n ≡ fs ++ hs → fs ≡ requests_in k (length fs)
unfolding in_order
requests_in-prefix k n [] hs e = refl
requests_in-prefix k zero (f ∷ fs) hs e = absurd (omega (arith, ap length e))
requests_in-prefix k (suc n) (f ∷ fs) hs e =
    let head : request_bytes (suc k) ≡ f = cc in
    let tail : requests_in (suc k) n ≡ fs ++ hs = cc in
    ap₂ ◌∷◌ (sym head) (requests_in-prefix (suc k) n fs hs tail)

-- The client reads from a delivery the identifier that was sent.
request_read-whole :
    (clock : ℕ → ℕ) (id : ℕ) (b : Benchmark)
    → id < 2 ^ 64
    → request_read clock (whole request_size (request_bytes id)) b ≡ request_received clock id b
unfolding request_read
request_read-whole clock id b h =
    ap (λ i. request_received clock i b) (request_id_of-request_bytes id h)

serve_read-in_order :
    (clock : ℕ → ℕ) (k m : ℕ) (b : Benchmark)
    → k + m < 2 ^ 64
    → serve_read clock (map (whole request_size) (requests_in k m)) b ≡ serve clock (in_order k m) b
unfolding serve_read serve in_order
serve_read-in_order clock k zero b h = refl
serve_read-in_order clock k (suc m) b h =
    let read = request_read-whole clock (suc k) b (omega arith) in
    λ i.
      if b.stopped
      then some b
      else (read i >>= λ c. serve_read-in_order clock (suc k) m c (omega arith) i)

-- How long a list of requests is.
length-requests :
    (fs : List (List ℕ))
    → All (λ f. length f ≡ request_size) fs
    → length (concat fs) ≡ request_size * length fs
length-requests [] h = omega arith
length-requests (f ∷ fs) h = omega (arith, h.0, length-requests fs h.1, length-append f (concat fs))

-- What the client receives of the first requests, `wire`, where the others are not answered.
record Received (wire : List (List ℕ)) (r : Option (ReadCallback × List Delivery × List ℕ))
    : Type 0 where
  after : ReadCallback
  rest : List ℕ
  number : ℕ
  returns : r ≡ some (after, map (whole request_size) (requests_in 0 number), rest)
  bytes : request_size * number + length (pending after ++ rest) ≡ length (concat wire)

regroup : (xs bs cs ds es : List ℕ) → xs ++ (bs ++ cs) ≡ es → xs ++ ((bs ++ cs) ++ ds) ≡ es ++ ds
regroup xs bs cs ds es e = sym (append_assoc xs (bs ++ cs) ds) ∙ ap (λ ys. ys ++ ds) e

receive-Received :
    (n : ℕ) (wire unanswered : List (List ℕ)) (rc : ReadCallback)
    {r : Option (ReadCallback × List Delivery × List ℕ)}
    → requests_upto n ≡ wire ++ unanswered
    → Framed rc (concat wire) r
    → rc.req_size ≡ request_size
    → pending rc ≡ []
    → Received wire r
receive-Received n wire unanswered rc e f sz nothing =
    let all : All (λ g. length g ≡ request_size) f.frames = rw sz at f.whole_size in
    let stream : concat f.frames ++ (pending f.after ++ f.rest) ≡ concat wire =
      f.in_order ∙ ap (λ xs. xs ++ concat wire) nothing in
    let longer : concat f.frames ++ ((pending f.after ++ f.rest) ++ concat unanswered)
        ≡ concat (requests_upto n) =
      regroup (concat f.frames) (pending f.after) f.rest (concat unanswered) (concat wire) stream
      ∙ sym (concat-append wire unanswered)
      ∙ ap concat (sym e) in
    let (hs, p, q) =
      blocks-prefix request_size f.frames (requests_upto n)
        ((pending f.after ++ f.rest) ++ concat unanswered) (omega arith) all (requests_upto-All n)
        longer in
    let first = requests_in-prefix 0 n f.frames hs (sym (requests_upto-in_order n) ∙ p) in
    record {
      after = f.after;
      rest = f.rest;
      number = length f.frames;
      returns = f.returns ∙ rw sz (λ i. some (f.after, map (whole request_size) (first i), f.rest));
      bytes = omega (
        arith,
        ap length stream,
        length-append (concat f.frames) (pending f.after ++ f.rest),
        length-requests f.frames all,
      );
    }

-- The first `n` requests of a client go to the server in pieces `ks`, and its answers back in pieces
-- `ks'` to the client, which has started with the queue depth `q`: the bytes that are still on their
-- way, and the client.
pub exchange :
    (malloc malloc' : ℕ → Option (List ℕ)) (ks ks' : List ℕ) (server client : ReadCallback)
    (clock : ℕ → ℕ) (q n : ℕ)
    → Option (ℕ × Benchmark)
exchange malloc malloc' ks ks' server client clock q n = do
  (server', ds, rest) ← receive malloc ks (concat (requests_upto n)) (register_read_callback server)
  c ← echo ds fresh
  (client', ds', rest') ← receive malloc' ks' (concat c.wire) (register_read_callback client)
  b ← serve_read clock ds' (start_benchmark clock (new_benchmark q))
  some (length (pending server' ++ rest) + length (pending client' ++ rest'), b)

module _ (malloc malloc' : ℕ → Option (List ℕ)) (allocates : Allocates malloc)
    (allocates' : Allocates malloc') where
  -- The client, with a queue depth from 1 to 2^30, against the server, over sockets that hand out the
  -- bytes in pieces of any sizes, and where `malloc` has memory. For as many of the client's requests as
  -- a run sends, no assertion fails on the server or the client, and no byte is lost: the client counts
  -- as many replies as there are requests without those whose bytes are on their way, has sent that
  -- many and the queue depth more, up to 1000000 + qdepth - 1, and has stopped just if it has counted
  -- that bound.
  pub exchange-serves :
      (ks ks' : List ℕ) (size size' : ℕ) (server client : ReadCallback) (clock : ℕ → ℕ) (q n : ℕ)
      → new_callback size ≡ some server
      → new_callback size' ≡ some client
      → 1 ≤ q
      → q < 2 ^ 30
      → n ≤ max_requests_default + q - 1
      → (way : ℕ) × (m : ℕ) × (b : Benchmark) × (exchange malloc malloc' ks ks' server client clock
            q n
          ≡ some (way, b))
        × (request_size * m + way ≡ request_size * n)
        × (b.req_completed ≡ m)
        × (b.req_sent ≡ min (m + q) (max_requests_default + q - 1))
        × (b.wire ≡ requests_upto b.req_sent)
        × (b.stopped ≡ (m == max_requests_default + q - 1))
  unfolding exchange
  exchange-serves ks ks' size size' server client clock q n made made' lo hi few =
      let (server', ds, rest, c, unanswered, gets, echoes, split, left, live) =
        echo-receive malloc allocates ks n size server made in
      let (f, sz, nothing) =
        new_callback-Framed malloc' allocates' ks' (concat c.wire) size' client made' in
      let got =
        receive-Received n c.wire unanswered (register_read_callback client) split f sz nothing in
      let m = got.number in
      let all : length (concat (requests_upto n)) ≡ request_size * n =
        length-requests (requests_upto n) (requests_upto-All n)
        ∙ ap (λ k. request_size * k)
            (ap length (requests_upto-in_order n) ∙ length-requests_in 0 n) in
      let parts : length (concat c.wire) + length (concat unanswered) ≡ request_size * n =
        sym (length-append (concat c.wire) (concat unanswered))
        ∙ ap length (sym (concat-append c.wire unanswered) ∙ ap concat (sym split))
        ∙ all in
      let within : m ≤ n = omega (arith, got.bytes, parts) in
      let answers = in_order-Answers max_requests_default q 0 m lo (omega (arith, within, few)) in
      let (b, serves, completed, sent, wire, stopped, max) =
        serve_lem clock q (in_order 0 m) lo hi answers in
      let number = length-in_order 0 m in
      let counted : b.req_completed ≡ m = omega (arith, completed, number, within, few) in
      (
        length (pending server' ++ rest) + length (pending got.after ++ got.rest),
        m,
        b,
        rw (gets, echoes, got.returns)
            (rw
              (serve_read-in_order clock 0 m (start_benchmark clock (new_benchmark q))
                  (omega (arith, within, few, hi))
                ∙ serves)
              refl),
        omega (arith, got.bytes, parts, ap length left),
        counted,
        omega (arith, sent, counted),
        wire,
        stopped ∙ ap (λ k. k == max_requests_default + q - 1) counted,
      )
