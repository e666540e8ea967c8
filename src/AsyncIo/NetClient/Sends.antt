-- ===== src/AsyncIo/NetClient/Sends.antt =====
-- What sending requests changes.
use thrift_bench.Prelude.{
  ℕ, zero, suc, ◌+◌, ◌-◌, ◌^◌, ◌≤◌, ◌<◌, min, ◌≡◌, refl, ◌∙◌, inl, inr, some, List, [], ◌∷◌, ◌++◌,
  ◌==◌, add64, add32, lookup, lookup-insert, arith, Bool-cases,
}
use thrift_bench.AsyncIo.Request.Codec.{request_bytes}
use thrift_bench.AsyncIo.NetClient.{Benchmark, send_one, requests_send}

-- The requests with the identifiers 1 to n, in that order.
abbrev pub requests_upto : ℕ → List (List ℕ)
requests_upto zero = []
requests_upto (suc n) = requests_upto n ++ request_bytes (suc n) ∷ []

-- Every identifier that was given out has its time.
abbrev pub IsTimed : Benchmark → Type 0
IsTimed b = (id : ℕ) → 1 ≤ id → id ≤ b.request_id → (t : ℕ) × (lookup id b.req_time ≡ some t)

pub record Inv (b : Benchmark) : Type 0 where
  pub counted : b.req_completed + b.req_outstanding ≡ b.req_sent
  pub named : b.request_id ≡ b.req_sent
  pub timed : IsTimed b
  pub written : b.wire ≡ requests_upto b.req_sent

-- What sending `n` requests changes.
pub record Sends (n : ℕ) (b c : Benchmark) : Type 0 where
  pub inv : Inv c
  pub more : c.req_sent ≡ b.req_sent + n
  pub done : c.req_completed ≡ b.req_completed
  pub depth : c.qdepth ≡ b.qdepth
  pub limit : c.max_requests ≡ b.max_requests
  pub stop : c.stopped ≡ b.stopped

-- What holds between two replies of a run that has started.
pub record Running (b : Benchmark) : Type 0 where
  pub inv : Inv b
  pub fits : b.max_requests + b.qdepth < 2 ^ 31
  pub deep : 1 ≤ b.qdepth
  pub asked : 1 ≤ b.max_requests
  pub quota : b.req_sent ≡ min (b.req_completed + b.qdepth) (b.max_requests + b.qdepth - 1)
  pub stop : b.stopped ≡ (b.req_outstanding == 0)

-- The k-th reply and those behind it answer requests that have been sent by then.
abbrev pub Answers : ℕ → ℕ → ℕ → List ℕ → Type 0
Answers max q k [] = Unit
Answers max q k (id ∷ ids) = (1 ≤ id) × (id ≤ min (k + q) (max + q - 1)) × Answers max q (suc k) ids

module _ (clock : ℕ → ℕ) where
  pub send_one-IsTimed :
      (b : Benchmark) → b.request_id + 1 < 2 ^ 32 → IsTimed b → IsTimed (send_one clock b)
  unfolding send_one
  send_one-IsTimed b h known id lo hi = elim (Bool-cases (add64 b.request_id 1 == id)) [
    | inl e ↦ (
      clock b.readings,
      rw (lookup-insert (add64 b.request_id 1) id (clock b.readings) b.req_time, e) refl,
    )
    | inr ne ↦
        let (t, e) = known id lo (ground arith) in
        (t, rw (lookup-insert (add64 b.request_id 1) id (clock b.readings) b.req_time, ne) e)
  ]

  pub send_one-Inv :
      (b : Benchmark) → b.req_sent + 1 < 2 ^ 32 → Inv b → Sends 1 b (send_one clock b)
  unfolding send_one
  send_one-Inv b h v = record {
    inv = record {
      counted = omega (arith, v);
      named = omega arith;
      timed = send_one-IsTimed b (omega arith) v.timed;
      written =
          let e : add32 b.req_sent 1 ≡ suc b.req_sent = omega arith in
          let i : add64 b.request_id 1 ≡ suc b.req_sent = omega arith in rw (e, i, v.written) refl;
    };
    more = omega arith;
    done = refl;
    depth = refl;
    limit = refl;
    stop = refl;
  }

  pub requests_send-Inv :
      (n : ℕ) (b : Benchmark)
      → b.req_sent + n < 2 ^ 32
      → Inv b
      → Sends n b (requests_send clock n b)
  unfolding requests_send
  requests_send-Inv zero b h v = record {
    inv = v;
    more = omega arith;
    done = refl;
    depth = refl;
    limit = refl;
    stop = refl;
  }
  requests_send-Inv (suc n) b h v =
      let one = send_one-Inv b (omega arith) v in
      let rest = requests_send-Inv n (send_one clock b) (omega arith) one.inv in
      record {
        inv = rest.inv;
        more = omega arith;
        done = rest.done ∙ one.done;
        depth = rest.depth ∙ one.depth;
        limit = rest.limit ∙ one.limit;
        stop = rest.stop ∙ one.stop;
      }
