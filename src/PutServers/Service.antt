-- ===== src/PutServers/Service.antt =====
-- What the DB server relies on of a leaf: the structure that they exchange, and the interface.
use thrift_bench.Prelude.{ℕ, ◌≡◌, List}

-- `LeafBenchmarkData`, without the two flags that no code reads.
pub record LeafBenchmarkData : Type 0 where
  pub request_id : ℕ
  pub leaf_latency : ℕ
  pub io_latency : ℕ
  pub cpu_consumed : ℕ
  pub contents : List ℕ
  pub data_size : ℕ

-- A leaf answers a put, in its own time, with the identifier of the request.
pub record LeafService : Type 1 where
  pub Timing : Type 0
  pub answer : Timing → LeafBenchmarkData → LeafBenchmarkData
  pub same_id : (t : Timing) (ldb : LeafBenchmarkData) → (answer t ldb).request_id ≡ ldb.request_id
