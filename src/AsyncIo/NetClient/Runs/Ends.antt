-- ===== src/AsyncIo/NetClient/Runs/Ends.antt =====
-- A run ends, with the row that it prints.
use thrift_bench.Prelude.{
  ℕ, zero, suc, ◌+◌, ◌-◌, ◌/◌, ◌^◌, ◌≤◌, ◌<◌, ◌≡◌, refl, ap, ◌∙◌, length, true, some, List, [], ◌∷◌,
  arith,
}
use thrift_bench.AsyncIo.NetClient.{
  Benchmark, new_benchmark, get_benchmark_data, max_requests_default,
}
use thrift_bench.AsyncIo.NetClient.Sends.{requests_upto, Answers}
use thrift_bench.AsyncIo.NetClient.Counts.{serve_lem}
use thrift_bench.AsyncIo.NetClient.Runs.{Row, connected, row_of, run}

-- What a server that answers in order replies.
unfoldable pub in_order : (k n : ℕ) → List ℕ
in_order k zero = []
in_order k (suc n) = suc k ∷ in_order (suc k) n

pub in_order-Answers :
    (max q k n : ℕ) → 1 ≤ q → k + n ≤ max + q - 1 → Answers max q k (in_order k n)
unfolding in_order
in_order-Answers max q k zero lo hi = tt
in_order-Answers max q k (suc n) lo hi =
    (omega arith, omega arith, in_order-Answers max q (suc k) n lo (omega arith))

pub length-in_order : (k n : ℕ) → length (in_order k n) ≡ n
unfolding in_order
length-in_order k zero = refl
length-in_order k (suc n) = ap suc (length-in_order (suc k) n)

pub in_order-enough : (n : ℕ) → n ≤ length (in_order 0 n)
in_order-enough n = omega (arith, length-in_order 0 n)

-- A run that connects, with a queue depth from 1 to 2^30, whose replies answer requests sent before,
-- in any order, and are 1000000 + qdepth - 1 or more. No assertion fails, the loop is stopped, and
-- `run` prints a row, after exactly that many requests and replies; but the averages of the row are
-- its times divided by 1000000.
pub run-ends :
    (clock : ℕ → ℕ) (q : ℕ) (ids : List ℕ)
    → 1 ≤ q
    → q < 2 ^ 30
    → Answers max_requests_default q 0 ids
    → max_requests_default + q - 1 ≤ length ids
    → (row : Row) × (b : Benchmark) × (run clock true ids (new_benchmark q) ≡ some (row, b))
      × (b.req_completed ≡ max_requests_default + q - 1)
      × (b.wire ≡ requests_upto (max_requests_default + q - 1))
      × (row.latency ≡ row.time / max_requests_default)
      × (row.request_latency ≡ row.request_time / max_requests_default)
unfolding run connected row_of get_benchmark_data
run-ends clock q ids lo hi answers enough =
    let (b, returns, completed, sent, wire, stopped, max) = serve_lem clock q ids lo hi answers in
    let all : b.req_completed ≡ max_requests_default + q - 1 = omega (arith, completed, enough) in
    let ends : b.stopped ≡ true = stopped ∙ ground (arith, all) in
    let made : b.req_sent ≡ max_requests_default + q - 1 = omega (arith, sent, all, lo) in
    (
      row_of clock b,
      b,
      rw returns (rw ends refl),
      all,
      wire ∙ ap requests_upto made,
      ap (λ m. (row_of clock b).time / m) max,
      ap (λ m. b.tot_req_latency / m) max,
    )
