-- ===== src/Clients/Thrift.antt =====
-- The clients of thrift/exp2/client.cpp and thrift/exp1/client.cpp, over any server of puts.
pub mod Served
use thrift_bench.Prelude.{
  ℕ, zero, suc, ◌+◌, ◌*◌, ◌/◌, ◌%◌, ◌^◌, Bool, true, false, Option, none, some, List, [], ◌∷◌, ◌++◌,
  ◌==◌, if◌then◌else◌, replicate, length,
}
use thrift_bench.Prelude.Text.{Text, codes}
use thrift_bench.KeyServer.{BenchmarkData}
use thrift_bench.KeyServer.Ganesha.{new_data}

-- How a client ends; `caught` is a `TException`, `aborted` its assertion.
pub data End : Type 0 where
  finished caught aborted : End

-- What the client puts.
pub bench_of : (req_size : ℕ) → BenchmarkData
bench_of req_size = record new_data { data_size = req_size; contents = replicate req_size b'A' }

-- `key_put` of the generated client is a parameter: the connection gives a reply or throws.
module _ {S : Type 0} (key_put : Text → BenchmarkData → S → Option BenchmarkData × S) where
  check_reply : (S → End × S) → Option BenchmarkData × S → End × S
  check_reply more (none, s) = (caught, s)
  check_reply more (some bd, s) = if length bd.contents == 0 then more s else (aborted, s)

  -- The loop.
  pub puts : (nrequests req_size : ℕ) → S → End × S
  unfolding check_reply bench_of
  puts zero req_size s = (finished, s)
  puts (suc n) req_size s =
      check_reply (puts n req_size) (key_put (codes "1") (bench_of req_size) s)

  -- One thread of thrift/exp2; `opens` says whether `transport->open()` does not throw.
  pub start_benchmark : (opens : Bool) → (nrequests req_size : ℕ) → S → End × S
  unfolding puts
  start_benchmark opens nrequests req_size s =
      if opens then puts nrequests req_size s else (caught, s)

  -- `main` of thrift/exp1, with what it prints: requests, time and average latency.
  exp1_main : (opens : Bool) → (d : ℕ) → S → (End × S) × List (ℕ × ℕ × ℕ)
  unfolding puts
  exp1_main opens d s =
      let r = if opens then puts 100000 4096 s else (caught, s) in (r, printed r.0)
    where
      printed : End → List (ℕ × ℕ × ℕ)
      printed finished = (100000, d, d / 100000) ∷ []
      printed caught = []
      printed aborted = []

-- A row of what `main` of thrift/exp2 prints; `span` is what the clock measures of it.
record Row : Type 0 where
  pub nt : ℕ
  pub rs : ℕ
  pub requests : ℕ
  pub latency : ℕ
  pub total : ℕ
  pub total_latency : ℕ

row_of : (span : ℕ → ℕ → ℕ) → (nt rs : ℕ) → Row
row_of span nt rs = record {
  nt = nt;
  rs = rs;
  requests = 10000;
  latency = span nt rs / 10000;
  total = 10000 * nt % 2 ^ 32;
  total_latency = span nt rs / (10000 * nt % 2 ^ 32);
}

row_sizes : (span : ℕ → ℕ → ℕ) → ℕ → List ℕ → List Row
unfolding row_of
row_sizes span nt [] = []
row_sizes span nt (rs ∷ sizes) = row_of span nt rs ∷ row_sizes span nt sizes

rows : (span : ℕ → ℕ → ℕ) → (nthreads req_size : List ℕ) → List Row
unfolding row_sizes
rows span [] req_size = []
rows span (nt ∷ nts) req_size = row_sizes span nt req_size ++ rows span nts req_size

abbrev nthreads : List ℕ
nthreads = 1 ∷ 10 ∷ 100 ∷ 1000 ∷ 10000 ∷ 100000 ∷ []

abbrev req_size : List ℕ
req_size = 1 ∷ 128 ∷ 512 ∷ 1024 ∷ 4096 ∷ 8192 ∷ 32 * 1024 ∷ 64 * 1024 ∷ 128 * 1024 ∷ []

exp2_main : (span : ℕ → ℕ → ℕ) → List Row
unfolding rows
exp2_main span = rows span nthreads req_size
