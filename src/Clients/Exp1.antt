-- ===== src/Clients/Exp1.antt =====
-- The client of fbthrift/exp1/client.cpp: gets of a key, and a result for each thread.
pub mod Table
use thrift_bench.Prelude.{ℕ, true, Option, some, List, [], ◌∷◌, ◌++◌, add64, ◌>>=◌}
use thrift_bench.Clients.Pipeline.{Protocol, run_loop}

pub record Benchmark : Type 0 where
  pub run_time : ℕ
  pub nrequests : ℕ
  pub req_size : ℕ
  pub qdepth : ℕ
  pub client_latency : ℕ
  pub db_latency : ℕ
  pub dict_latency : ℕ
  pub leaf_latency : ℕ
  pub io_latency : ℕ

-- What the server fills in.
pub record Answer : Type 0 where
  pub db_latency : ℕ
  pub dict_latency : ℕ
  pub leaf_latency : ℕ
  pub io_latency : ℕ
  pub data_size : ℕ

pub record BenchmarkData : Type 0 where
  pub request_id : ℕ
  pub answer : Answer

-- The assertion on the size of the data is commented out in the code.
pub protocol : Protocol Answer BenchmarkData Benchmark
protocol = record {
  reply = λ id a. record { request_id = id; answer = a };
  id_of = λ r. r.request_id;
  accepts = λ r. true;
  account = λ cl r t. record t {
    client_latency = add64 t.client_latency cl;
    db_latency = add64 t.db_latency r.answer.db_latency;
    dict_latency = add64 t.dict_latency r.answer.dict_latency;
    leaf_latency = add64 t.leaf_latency r.answer.leaf_latency;
    io_latency = add64 t.io_latency r.answer.io_latency;
  };
}

abbrev blank : Benchmark
blank = record {
  run_time = 0;
  nrequests = 0;
  req_size = 0;
  qdepth = 0;
  client_latency = 0;
  db_latency = 0;
  dict_latency = 0;
  leaf_latency = 0;
  io_latency = 0;
}

-- One thread, with the shared vector of results before and after it: `span` is what the clock
-- measures of the loop.
pub start_benchmark :
    (clock : ℕ → ℕ) (span req_size queue_depth nrequests : ℕ)
    → List (List (ℕ × Answer))
    → List Benchmark
    → Option (List Benchmark)
unfolding run_loop protocol
start_benchmark clock span req_size queue_depth nrequests ts bench_result = do
  l ← run_loop clock protocol queue_depth nrequests blank ts
  some (
      bench_result
      ++ (record l.totals {
        run_time = span;
        nrequests = nrequests;
        req_size = req_size;
        qdepth = queue_depth;
      })
        ∷ [])
