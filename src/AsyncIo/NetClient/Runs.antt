-- ===== src/AsyncIo/NetClient/Runs.antt =====
-- AsyncIO/net-client.cpp: `run`, which connects, turns the event loop and prints a row, and `main`.
pub mod Ends
use thrift_bench.Prelude.{
  ℕ, ◌/◌, ◌>>=◌, ◌>>◌, assert, Option, none, some, List, [], ◌∷◌, ◌++◌, not, ◌==◌, sub64, Bool,
  true, false, ◌+◌,
}
use thrift_bench.AsyncIo.NetClient.{
  Benchmark, new_benchmark, start_benchmark, serve, get_benchmark_data,
}

-- What a row says, but for the bandwidth, which is a floating-point number.
pub record Row : Type 0 where
  pub qdepth : ℕ
  pub max_requests : ℕ
  pub time : ℕ
  pub latency : ℕ
  pub request_time : ℕ
  pub request_latency : ℕ

module _ (clock : ℕ → ℕ) where
  -- `connectSuccess` and `connectErr`, whose assertion fails.
  pub connected : (success : Bool) → Benchmark → Option Benchmark
  connected true b = some (start_benchmark clock b)
  connected false b = none

  -- What is printed after the loop.
  pub row_of : Benchmark → Row
  row_of b =
      let d = sub64 (clock b.readings) b.start_time in
      record {
        qdepth = b.qdepth;
        max_requests = b.max_requests;
        time = d;
        latency = d / b.max_requests;
        request_time = b.tot_req_latency;
        request_latency = b.tot_req_latency / b.max_requests;
      }

  -- `run`, with the identifiers of the replies; `loopForever` returns only where it is stopped.
  pub run : (success : Bool) → List ℕ → Benchmark → Option (Row × Benchmark)
  unfolding connected row_of
  run success ids b = do
    b1 ← connected success b
    b2 ← serve clock ids b1
    assert b2.stopped
    some (row_of b2, b2)

  -- The loop of `main`, with what each run is given.
  main : List (ℕ × Bool × List ℕ) → Option (List Row)
  unfolding run
  main [] = some []
  main ((d, success, ids) ∷ more) = do
    r ← run success ids (new_benchmark d)
    rows ← main more
    some (r.0 ∷ rows)

abbrev qdepths : List ℕ
qdepths = 1 ∷ 2 ∷ 8 ∷ 16 ∷ 32 ∷ 64 ∷ 128 ∷ 256 ∷ 512 ∷ 1024 ∷ []
