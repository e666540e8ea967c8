-- ===== src/AsyncIo/NetClient.antt =====
-- AsyncIO/net-client.cpp: the `Benchmark` class. The clock is read through `clock`, the n-th reading
-- of `high_resolution_clock::now()`; what is written to the socket is collected in `wire`.
pub mod Sends
pub mod Counts
pub mod Writes
pub mod Runs
use thrift_bench.Prelude.{
  ℕ, zero, suc, ◌+◌, ◌-◌, ◌%◌, ◌^◌, ◌≤◌, ◌<◌, ◌≡◌, Bool, true, false, not, Option, none, some, List,
  [], ◌∷◌, ◌++◌, ltb, leb, ◌==◌, if◌then◌else◌, ◌>>=◌, ◌>>◌, assert, add64, sub64, add32, sub32,
  lookup, insert,
}
use thrift_bench.AsyncIo.Request.{request_size, Delivery}
use thrift_bench.AsyncIo.Request.Codec.{request_bytes, request_id_of}

-- `base_`, `socket_` and the server's address are left out: `stopped` is `terminateLoopSoon()`.
pub record Benchmark : Type 0 where
  pub qdepth : ℕ  -- int32_t
  pub req_sent : ℕ  -- atomic<uint32_t>
  pub req_outstanding : ℕ  -- atomic<uint32_t>
  pub req_completed : ℕ  -- atomic<uint32_t>
  pub max_requests : ℕ
  pub start_time : ℕ
  pub request_id : ℕ  -- atomic<uint64_t>
  pub req_time : List (ℕ × ℕ)
  pub tot_req_latency : ℕ  -- uint64_t
  pub stopped : Bool
  pub wire : List (List ℕ)
  pub readings : ℕ

-- `max_requests` is the member's initialiser.
abbrev pub max_requests_default : ℕ
max_requests_default = 1000000

pub new_benchmark : ℕ → Benchmark
new_benchmark qdepth = record {
  qdepth = qdepth;
  req_sent = 0;
  req_outstanding = 0;
  req_completed = 0;
  max_requests = max_requests_default;
  start_time = 0;
  request_id = 0;
  req_time = [];
  tot_req_latency = 0;
  stopped = false;
  wire = [];
  readings = 0;
}

pub stop_benchmark : Benchmark → Benchmark
stop_benchmark b = record b { stopped = true }

module _ (clock : ℕ → ℕ) where
  -- The body of the loop of `requests_send`.
  pub send_one : Benchmark → Benchmark
  send_one b =
      let id = add64 b.request_id 1 in
      record b {
        request_id = id;
        req_time = insert id (clock b.readings) b.req_time;
        readings = b.readings + 1;
        wire = b.wire ++ request_bytes id ∷ [];
        req_sent = add32 b.req_sent 1;
        req_outstanding = add32 b.req_outstanding 1;
      }

  pub requests_send : ℕ → Benchmark → Benchmark
  requests_send zero b = b
  requests_send (suc n) b = requests_send n (send_one b)

  pub start_benchmark : Benchmark → Benchmark
  start_benchmark b =
      requests_send b.qdepth (record b { start_time = clock b.readings; readings = b.readings + 1 })

  -- The tail of `request_received`: what to do after a reply has been counted.
  proceed : Benchmark → Benchmark
  unfolding stop_benchmark
  proceed b =
      if ltb b.req_completed b.max_requests
      then requests_send 1 b
      else if not (b.req_outstanding == 0)
      then b
      else stop_benchmark b

  -- `request_received(struct request *)`
  pub request_received : ℕ → Benchmark → Option Benchmark
  unfolding proceed
  request_received id b = do
    s ← lookup id b.req_time
    some (
        proceed (record b {
          tot_req_latency = add64 b.tot_req_latency (sub64 (clock b.readings) s);
          readings = b.readings + 1;
          req_completed = add32 b.req_completed 1;
          req_outstanding = sub32 b.req_outstanding 1;
        }))

  -- `requestRead` and `request_received(ManagedBuffer)`. A null buffer would be read through.
  unfoldable pub request_read : Delivery → Benchmark → Option Benchmark
  unfolding request_received
  request_read d b = do
    assert (d.size == request_size)
    buf ← d.buffer
    request_received (request_id_of buf) b

  -- The event loop, with the identifiers of the replies in the order in which they are read.
  unfoldable pub serve : List ℕ → Benchmark → Option Benchmark
  serve [] b = some b
  serve (id ∷ ids) b = if b.stopped then some b else (request_received id b >>= λ c. serve ids c)

  -- The event loop, with what the read callback delivers.
  unfoldable pub serve_read : List Delivery → Benchmark → Option Benchmark
  unfolding request_read
  serve_read [] b = some b
  serve_read (d ∷ ds) b = if b.stopped then some b else (request_read d b >>= λ c. serve_read ds c)

-- `get_benchmark_data`: the divisor and the latency that a caller is given.
pub get_benchmark_data : Benchmark → ℕ × ℕ
get_benchmark_data b = (b.max_requests, b.tot_req_latency)
