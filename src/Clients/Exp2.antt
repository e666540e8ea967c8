-- ===== src/Clients/Exp2.antt =====
-- The client of fbthrift/exp2/DB/client.cpp: puts of a key, and the table of averages.
use thrift_bench.Prelude.{
  ℕ, ◌*◌, ◌/◌, ◌%◌, ◌^◌, Option, some, List, [], ◌∷◌, ◌==◌, add64, sub64, ◌>>=◌, length,
}
use thrift_bench.Clients.Pipeline.{Protocol, Loop, run_loop}

pub record ThreadBenchmark : Type 0 where
  pub run_time : ℕ
  pub client_latency : ℕ
  pub db_latency : ℕ
  pub leaf_latency : ℕ
  pub io_latency : ℕ
  pub cpu_consumed : ℕ

-- What the server fills in.
pub record Answer : Type 0 where
  pub db_latency : ℕ
  pub leaf_latency : ℕ
  pub io_latency : ℕ
  pub cpu_consumed : ℕ
  pub data_size : ℕ

pub record DbBenchmarkData : Type 0 where
  pub request_id : ℕ
  pub answer : Answer

-- The reply to a put has no data.
unfoldable pub protocol : Protocol Answer DbBenchmarkData ThreadBenchmark
protocol = record {
  reply = λ id a. record { request_id = id; answer = a };
  id_of = λ r. r.request_id;
  accepts = λ r. r.answer.data_size == 0;
  account = λ cl r t. record t {
    client_latency = add64 t.client_latency cl;
    db_latency = add64 t.db_latency r.answer.db_latency;
    leaf_latency = add64 t.leaf_latency r.answer.leaf_latency;
    io_latency = add64 t.io_latency r.answer.io_latency;
    cpu_consumed = add64 t.cpu_consumed r.answer.cpu_consumed;
  };
}

-- One thread: `span` is what the clock measures of the loop.
unfoldable pub start_benchmark :
    (clock : ℕ → ℕ) (span queue_depth nrequests : ℕ)
    → ThreadBenchmark
    → List (List (ℕ × Answer))
    → Option (ThreadBenchmark × Loop ThreadBenchmark)
unfolding run_loop protocol
start_benchmark clock span queue_depth nrequests result ts = do
  l ← run_loop clock protocol queue_depth nrequests result ts
  some (record l.totals { run_time = span }, l)

-- `memset` of the results, and their sums over the threads.
unfoldable pub zeroed : ThreadBenchmark
zeroed = record {
  run_time = 0;
  client_latency = 0;
  db_latency = 0;
  leaf_latency = 0;
  io_latency = 0;
  cpu_consumed = 0;
}

pub sums : List ThreadBenchmark → ThreadBenchmark
unfolding zeroed
sums [] = zeroed
sums (b ∷ bs) =
    let s = sums bs in
    record {
      run_time = add64 b.run_time s.run_time;
      client_latency = add64 b.client_latency s.client_latency;
      db_latency = add64 b.db_latency s.db_latency;
      leaf_latency = add64 b.leaf_latency s.leaf_latency;
      io_latency = add64 b.io_latency s.io_latency;
      cpu_consumed = add64 b.cpu_consumed s.cpu_consumed;
    }

-- The last nine columns of the table.
pub record Row : Type 0 where
  pub requests : ℕ
  pub averages : ThreadBenchmark
  pub client_less_db : ℕ
  pub db_less_leaf : ℕ
  pub leaf_less_rest : ℕ

pub max_requests : ℕ
max_requests = 1000

pub row : ThreadBenchmark → ℕ → Row
row t nr = record {
  requests = nr;
  averages = record t {
    client_latency = t.client_latency / nr;
    db_latency = t.db_latency / nr;
    leaf_latency = t.leaf_latency / nr;
    io_latency = t.io_latency / nr;
    cpu_consumed = t.cpu_consumed / nr;
  };
  client_less_db = sub64 (t.client_latency / nr) (t.db_latency / nr);
  db_less_leaf = sub64 (t.db_latency / nr) (t.leaf_latency / nr);
  leaf_less_rest = sub64 (sub64 (t.leaf_latency / nr) (t.io_latency / nr)) (t.cpu_consumed / nr);
}

pub report : List ThreadBenchmark → Row
unfolding sums row max_requests
report bench = row (sums bench) (max_requests * length bench % 2 ^ 64)
