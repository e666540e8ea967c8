-- ===== src/Clients/Tests.antt =====
-- Tests of the models of the clients, and instances of their theorems.
use thrift_bench.Prelude.{
  Option, none, insert, lookup, erase, ℕ, ◌+◌, ◌≤◌, ◌<◌, ◌≡◌, refl, some, List, [], ◌∷◌, length,
  arith, All,
}
use thrift_bench.Clients.Pipeline.{Loop, run_loop}
use thrift_bench.Clients.Pipeline.Ends.{run_loop-ends}
use thrift_bench.Clients.Exp2
use thrift_bench.Clients.Exp3.{ThreadBenchmark, Answer, protocol, start_benchmark, laydown_files}
use thrift_bench.Clients.Exp3.Files.{IsAmong, start_benchmark-files}

abbrev page : Answer
page = record { leaf_latency = 3; io_latency = 2; cpu_consumed = 1; data_size = 4 }

abbrev turns : List (List (ℕ × Answer))
turns = ((0, page) ∷ []) ∷ ((0, page) ∷ []) ∷ []

abbrev nothing : ThreadBenchmark
nothing = record { db_latency = 0; leaf_latency = 0; io_latency = 0; cpu_consumed = 0 }

run_loop-ends_example :
    (l : Loop ThreadBenchmark) × (run_loop (λ i. i) (protocol 4) 2 2 nothing turns ≡ some l)
    × (2 ≤ l.req_complete)
    × (l.req_complete + l.req_out ≡ l.req_sched)
    × (l.req_sched ≤ 4)
    × (l.req_out ≤ 2)
    × (length l.calls ≡ l.req_sched)
    × All (λ c. c.0 < 2) l.calls
unfolding protocol
run_loop-ends_example =
    run_loop-ends (λ i. i) (protocol 4) 2 2 (omega arith) (omega arith) (omega arith) nothing turns
      (λ id a. refl) (((λ id. refl, tt), omega arith), (((λ id. refl, tt), omega arith), tt))
      (omega arith)

start_benchmark-files_example :
    (files : List ℕ) × (l : Loop ThreadBenchmark) × (laydown_files 2 ≡ some files)
    × (start_benchmark (λ i. i) 4 2 2 nothing turns ≡ some (files, l))
    × (2 ≤ l.req_complete)
    × (length l.calls ≡ l.req_complete + l.req_out)
    × (l.req_out ≤ 2)
    × All (λ c. IsAmong c.0 files) l.calls
start_benchmark-files_example =
    start_benchmark-files (λ i. i) 4 2 2 nothing turns (omega arith) (omega arith) (omega arith)
      (((refl, tt), omega arith), (((refl, tt), omega arith), tt)) (omega arith)

-- With a queue depth of two, two requests wanted and one answered first, three are answered: the
-- averages divide by two.
abbrev put : Exp2.Answer
put = record { db_latency = 4; leaf_latency = 3; io_latency = 2; cpu_consumed = 1; data_size = 0 }

abbrev outcome : Option (Exp2.ThreadBenchmark × Loop Exp2.ThreadBenchmark) → ℕ × ℕ
outcome none = (0, 0)
outcome (some r) = (r.1.req_complete, r.0.io_latency)

extra_reply :
    outcome (
      Exp2.start_benchmark
        (λ i. i)
        9
        2
        2
        Exp2.zeroed
        (((0, put) ∷ []) ∷ ((0, put) ∷ (0, put) ∷ []) ∷ []))
    ≡ (3, 6)
unfolding Exp2.start_benchmark Exp2.zeroed insert lookup erase
extra_reply = refl
