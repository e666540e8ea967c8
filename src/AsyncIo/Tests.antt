-- ===== src/AsyncIo/Tests.antt =====
-- Tests of the models of AsyncIO/, and instances of their theorems.
use thrift_bench.Prelude.{
  ℕ, ◌+◌, ◌-◌, ◌≡◌, refl, false, Option, none, some, List, [], ◌∷◌, ◌++◌, length, replicate, concat,
  length-replicate, arith, min, ◌==◌,
}
use thrift_bench.AsyncIo.Request.{
  ReadCallback, Delivery, request_size, new_callback, register_read_callback,
}
use thrift_bench.AsyncIo.Request.Framing.{new_callback-Framed}
use thrift_bench.AsyncIo.Request.Chunks.{Allocates, Framed, receive, pending}
use thrift_bench.AsyncIo.NetClient.{
  Benchmark, max_requests_default, new_benchmark, start_benchmark, serve, get_benchmark_data,
}
use thrift_bench.AsyncIo.NetClient.Counts.{serve_lem}
use thrift_bench.AsyncIo.NetClient.Sends.{requests_upto}
use thrift_bench.AsyncIo.NetServer.{Connection, fresh, echo}
use thrift_bench.AsyncIo.NetServer.Echo.{echo-receive}
use thrift_bench.Prelude.{lookup}
use thrift_bench.AsyncIo.NetServer.Threads as Server
use thrift_bench.AsyncIo.NetServer.Threads.Streams.{Fits, received}
use thrift_bench.AsyncIo.NetServer.Threads.Runs.{handle_all-streams}
use thrift_bench.AsyncIo.Loop.{exchange, exchange-serves}
use thrift_bench.AsyncIo.NetClient.Writes
use thrift_bench.AsyncIo.NetClient.Writes.Late.{requests_of, allocated, handle_all-allocated}
use thrift_bench.Prelude.{true}
use thrift_bench.Prelude.{◌/◌, ◌*◌}
use thrift_bench.AsyncIo.NetClient.Runs.{Row, run}
use thrift_bench.AsyncIo.NetClient.Runs.Ends.{in_order, in_order-Answers, in_order-enough, run-ends}

-- A `malloc` that clears its blocks.
abbrev calloc : ℕ → Option (List ℕ)
calloc n = some (replicate n 0)

calloc-Allocates : Allocates calloc
calloc-Allocates n = (replicate n 0, refl, length-replicate n (zero_byte))
  where
    zero_byte : ℕ
    zero_byte = 0

abbrev connected : ReadCallback
connected = record {
  req_size = 4096;
  raw_bufp = none;
  bytes_read = 0;
  registered = false;
  terminated = false;
}

new_callback-connected : new_callback 4096 ≡ some connected
unfolding new_callback
new_callback-connected = refl

new_callback-small : new_callback 4095 ≡ none
unfolding new_callback
new_callback-small = refl

-- 9000 bytes, received in pieces of at most 3000, 10, 4000 and 4000 bytes.
new_callback-Framed_example :
    Framed (register_read_callback connected) (replicate 9000 7) (
      receive calloc
        (3000 ∷ 10 ∷ 4000 ∷ 4000 ∷ [])
        (replicate 9000 7)
        (register_read_callback connected))
    × ((register_read_callback connected).req_size ≡ request_size)
    × (pending (register_read_callback connected) ≡ [])
new_callback-Framed_example =
    new_callback-Framed calloc calloc-Allocates (3000 ∷ 10 ∷ 4000 ∷ 4000 ∷ []) (replicate 9000 7)
      4096 connected new_callback-connected

echo-receive_example :
    (rc' : ReadCallback) × (ds : List Delivery) × (rest : List ℕ) × (c : Connection)
    × (unanswered : List (List ℕ)) × (receive calloc
          (5000 ∷ 5000 ∷ 5000 ∷ [])
          (concat (requests_upto 3))
          (register_read_callback connected)
        ≡ some (rc', ds, rest))
    × (echo ds fresh ≡ some c)
    × (requests_upto 3 ≡ c.wire ++ unanswered)
    × (pending rc' ++ rest ≡ concat unanswered)
    × (length c.live ≡ length c.wire)
echo-receive_example =
    echo-receive calloc calloc-Allocates (5000 ∷ 5000 ∷ 5000 ∷ []) 3 4096 connected
      new_callback-connected

-- Two requests outstanding; the replies to 2, 1 and 3 come in.
serve_lem_example :
    (b : Benchmark) × (serve (λ n. n) (2 ∷ 1 ∷ 3 ∷ []) (start_benchmark (λ n. n) (new_benchmark 2))
      ≡ some b)
    × (b.req_completed ≡ min 3 (max_requests_default + 2 - 1))
    × (b.req_sent ≡ min (b.req_completed + 2) (max_requests_default + 2 - 1))
    × (b.wire ≡ requests_upto b.req_sent)
    × (b.stopped ≡ (b.req_completed == max_requests_default + 2 - 1))
    × ((get_benchmark_data b).0 ≡ max_requests_default)
serve_lem_example = serve_lem (λ n. n) 2 (2 ∷ 1 ∷ 3 ∷ []) (omega arith) (omega arith) (omega arith)

-- Two requests written at once and one kept, which is written when its callback has ended.
abbrev one_kept : List Writes.Event
one_kept = Writes.sends true ∷ Writes.sends false ∷ Writes.sends true ∷ []

handle_all-allocated_example :
    requests_of (Writes.handle_all one_kept Writes.new_writes) ≡ allocated 0 [] one_kept
handle_all-allocated_example = handle_all-allocated one_kept

one_left : allocated 0 [] one_kept ≡ some (2 ∷ [])
one_left = refl

dangling : allocated 0 [] (one_kept ++ Writes.writes ∷ []) ≡ none
dangling = refl

-- An echo server answers in order.
run-ends_example :
    (row : Row) × (b : Benchmark) × (run (λ n. n) true (in_order 0 1000001) (new_benchmark 2)
      ≡ some (row, b))
    × (b.req_completed ≡ 1000000 + 2 - 1)
    × (b.wire ≡ requests_upto (1000000 + 2 - 1))
    × (row.latency ≡ row.time / 1000000)
    × (row.request_latency ≡ row.request_time / 1000000)
run-ends_example =
    run-ends (λ n. n) 2 (in_order 0 1000001) (omega arith) (omega arith)
      (in_order-Answers 1000000 2 0 1000001 (omega arith) (omega arith)) (in_order-enough 1000001)

-- Three requests of a client that keeps two outstanding, in pieces of several sizes both ways.
exchange-serves_example :
    (way : ℕ) × (m : ℕ) × (b : Benchmark) × (exchange calloc calloc
        (5000 ∷ 100 ∷ 9000 ∷ [])
        (9000 ∷ 10 ∷ [])
        connected
        connected
        (λ n. n)
        2
        3
      ≡ some (way, b))
    × (request_size * m + way ≡ request_size * 3)
    × (b.req_completed ≡ m)
    × (b.req_sent ≡ min (m + 2) (max_requests_default + 2 - 1))
    × (b.wire ≡ requests_upto b.req_sent)
    × (b.stopped ≡ (m == max_requests_default + 2 - 1))
exchange-serves_example =
    exchange-serves calloc calloc calloc-Allocates calloc-Allocates (5000 ∷ 100 ∷ 9000 ∷ [])
      (9000 ∷ 10 ∷ []) 4096 4096 connected connected (λ n. n) 2 3 new_callback-connected
      new_callback-connected (omega arith) (omega arith) (omega arith)

-- Two connections at a time, of which the first has sent one request and a piece of another.
abbrev two_connections : List Server.Event
two_connections =
    Server.accepts 8
    ∷ Server.accepts 9
    ∷ Server.arrives 8 (replicate 3000 1)
    ∷ Server.arrives 9 (replicate 10 2)
    ∷ Server.reads 8 4096
    ∷ Server.arrives 8 (replicate 3000 1)
    ∷ Server.reads 8 4096
    ∷ Server.reads 9 4096
    ∷ Server.ends 9
    ∷ []

handle_all-streams_example :
    (threads : List (ℕ × Server.Thread)) × (Server.handle_all calloc (λ fd. true) two_connections []
      ≡ some threads)
    × ((fd : ℕ) → Fits (lookup fd threads) (received fd two_connections none))
handle_all-streams_example =
    handle_all-streams calloc (λ fd. true) calloc-Allocates (λ fd. refl) two_connections
