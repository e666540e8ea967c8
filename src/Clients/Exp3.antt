-- ===== src/Clients/Exp3.antt =====
-- The client of fbthrift/exp3/DB/client.cpp: it writes files, reads them, and prints averages.
pub mod Files
use thrift_bench.Prelude.{
  ℕ, zero, suc, ◌+◌, ◌-◌, ◌*◌, ◌/◌, ◌%◌, ◌^◌, ◌≤◌, ◌<◌, ◌≡◌, refl, sym, ap, ◌∙◌, inl, inr, Bool,
  true, false, Option, none, some, List, [], ◌∷◌, ◌++◌, map, ◌==◌, ltb, add64, sub64, arith, ◌>>=◌,
  length, All, Bool-cases, next_int,
}
use thrift_bench.Clients.Pipeline.{Protocol, Loop, run_loop}

pub record ThreadBenchmark : Type 0 where
  pub db_latency : ℕ
  pub leaf_latency : ℕ
  pub io_latency : ℕ
  pub cpu_consumed : ℕ

-- What the server fills in.
pub record Answer : Type 0 where
  pub leaf_latency : ℕ
  pub io_latency : ℕ
  pub cpu_consumed : ℕ
  pub data_size : ℕ

pub record DbBenchmarkData : Type 0 where
  pub request_id : ℕ
  pub answer : Answer

-- Read replies with all of a file.
unfoldable pub protocol : ℕ → Protocol Answer DbBenchmarkData ThreadBenchmark
protocol req_size = record {
  reply = λ id a. record { request_id = id; answer = a };
  id_of = λ r. r.request_id;
  accepts = λ r. r.answer.data_size == req_size;
  account = λ cl r t. record t {
    db_latency = add64 t.db_latency cl;
    leaf_latency = add64 t.leaf_latency r.answer.leaf_latency;
    io_latency = add64 t.io_latency r.answer.io_latency;
    cpu_consumed = add64 t.cpu_consumed r.answer.cpu_consumed;
  };
}

-- The files written before the run, by number: from `i` on, `n` of them.
pub files_from : ℕ → ℕ → Option (List ℕ)
unfolding next_int
files_from i zero = some []
files_from i (suc n) = do i' ← next_int i; files ← files_from i' n; some (i ∷ files)

pub laydown_files : ℕ → Option (List ℕ)
unfolding files_from
laydown_files nfiles = files_from 0 nfiles

-- One thread: the files that it wrote, its totals, and its loop, whose calls each read the file
-- that the counter of the `for` loop names.
unfoldable pub start_benchmark :
    (clock : ℕ → ℕ) (req_size queue_depth nrequests : ℕ)
    → ThreadBenchmark
    → List (List (ℕ × Answer))
    → Option (List ℕ × Loop ThreadBenchmark)
unfolding run_loop protocol laydown_files
start_benchmark clock req_size queue_depth nrequests result ts = do
  files ← laydown_files nrequests
  l ← run_loop clock (protocol req_size) queue_depth nrequests result ts
  some (files, l)

-- `memset` of the results, and their sums over the threads.
unfoldable pub zeroed : ThreadBenchmark
zeroed = record { db_latency = 0; leaf_latency = 0; io_latency = 0; cpu_consumed = 0 }

pub sums : List ThreadBenchmark → ThreadBenchmark
unfolding zeroed
sums [] = zeroed
sums (b ∷ bs) =
    let s = sums bs in
    record {
      db_latency = add64 b.db_latency s.db_latency;
      leaf_latency = add64 b.leaf_latency s.leaf_latency;
      io_latency = add64 b.io_latency s.io_latency;
      cpu_consumed = add64 b.cpu_consumed s.cpu_consumed;
    }

-- The last seven columns of the table.
pub record Row : Type 0 where
  pub requests : ℕ
  pub averages : ThreadBenchmark
  pub db_less_leaf : ℕ
  pub leaf_less_rest : ℕ

pub max_requests : ℕ
max_requests = 2048

pub row : ThreadBenchmark → ℕ → Row
row t nr = record {
  requests = nr;
  averages = record {
    db_latency = t.db_latency / nr;
    leaf_latency = t.leaf_latency / nr;
    io_latency = t.io_latency / nr;
    cpu_consumed = t.cpu_consumed / nr;
  };
  db_less_leaf = sub64 (t.db_latency / nr) (t.leaf_latency / nr);
  leaf_less_rest = sub64 (sub64 (t.leaf_latency / nr) (t.io_latency / nr)) (t.cpu_consumed / nr);
}

pub report : List ThreadBenchmark → Row
unfolding sums row max_requests
report bench = row (sums bench) (max_requests * length bench % 2 ^ 64)
