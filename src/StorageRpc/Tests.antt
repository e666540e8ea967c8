-- ===== src/StorageRpc/Tests.antt =====
-- Tests of the models of StorageRpc/, and instances of their theorems.
use thrift_bench.Prelude.{
  ℕ, ◌+◌, ◌≤◌, ◌≡◌, refl, Bool, false, some, List, [], ◌∷◌, arith, lookup, insert,
}
use thrift_bench.Prelude.Text.{Text, codes}
use thrift_bench.StorageRpc.Stats.{Stats, Collector}
use thrift_bench.StorageRpc.Stats.History.{adds, updates, calls, stats_of, calls-lookup}
use thrift_bench.StorageRpc.Echo.{Config, Loop, Turn, benchmark_echo, going}
use thrift_bench.StorageRpc.Echo.Counts.{HasClient}
use thrift_bench.StorageRpc.Echo.Ends.{benchmark_echo-ends}
use thrift_bench.StorageRpc.Server.Echoed.{served, benchmark_echo-served}
use thrift_bench.StorageRpc.Send.{send, send_no_data, benchmark_send, benchmark_send_no_data}
use thrift_bench.StorageRpc.Send.Ends.{Ended, benchmark_send-Ended}
use thrift_bench.StorageRpc.Commands.{split}
use thrift_bench.StorageRpc.Commands.Fields.{split-fields}

abbrev blank : Stats
blank = record {
  start = 5;
  current_queue_depth = 0;
  current_iops = 0;
  total_ios = 0;
  total_updates = 0;
}

abbrev busy : Stats
busy = record {
  start = 5;
  current_queue_depth = 4;
  current_iops = 100;
  total_ios = 100;
  total_updates = 1;
}

calls-lookup_example :
    lookup 1 ((1, busy) ∷ []) ≡ stats_of 1 (adds 5 1 ∷ updates 1 4 100 100 ∷ []) (lookup 1 [])
unfolding calls lookup insert
calls-lookup_example = calls-lookup (adds 5 1 ∷ updates 1 4 100 100 ∷ []) 1 [] ((1, busy) ∷ []) refl

abbrev settings : Bool → Config
settings unlimited = record {
  queue_depth = 8;
  block_size = 4096;
  requests = 2;
  unlimited = unlimited;
  iops_rate_limit = 1024;
}

abbrev replies_at : ℕ → Turn
replies_at now = record { replies = 4096 ∷ []; now = now }

benchmark_echo-ends_example :
    (stats' : Collector) × (l : Loop) × (benchmark_echo
        (settings false)
        1
        0
        (replies_at 10 ∷ replies_at 2000000000 ∷ [])
        []
      ≡ some (stats', l))
    × (going (settings false) l ≡ false)
    × (2 ≤ l.req_complete)
    × (l.req_complete + l.req_out ≡ l.req_sent)
    × (l.req_sent ≤ 2 + 8)
    × HasClient 1 stats'
unfolding lookup
benchmark_echo-ends_example =
    benchmark_echo-ends (settings false) 1 0 (replies_at 10 ∷ replies_at 2000000000 ∷ []) []
      (omega arith) refl (omega arith) refl (omega arith) (omega arith)

benchmark_echo-served_example :
    (stats' : Collector) × (l : Loop) × (benchmark_echo
        (settings false)
        1
        0
        (served (settings false) ((1 ∷ [], 10) ∷ (2 ∷ [], 2000000000) ∷ []))
        []
      ≡ some (stats', l))
    × (going (settings false) l ≡ false)
    × (2 ≤ l.req_complete)
unfolding lookup
benchmark_echo-served_example =
    benchmark_echo-served (settings false) 1 0 ((1 ∷ [], 10) ∷ (2 ∷ [], 2000000000) ∷ []) []
      (omega arith) refl (omega arith) refl (omega arith, (omega arith, tt)) (omega arith)

benchmark_send-Ended_example :
    Ended (λ id. send id 512) 2 3 (benchmark_send 2 512 3 (1 ∷ 2 ∷ 1 ∷ []))
    × Ended send_no_data 2 3 (benchmark_send_no_data 2 3 (1 ∷ 2 ∷ 1 ∷ []))
benchmark_send-Ended_example =
    benchmark_send-Ended 2 512 3 (1 ∷ 2 ∷ 1 ∷ []) (omega arith) (omega arith) (omega arith)
      (omega arith) (omega arith)

split-fields_example : split (codes " ab  c ") b' ' ≡ some (codes "ab" ∷ codes "c" ∷ [] ∷ [])
split-fields_example = split-fields (codes " ab  c ") b' ' (omega arith)

-- An empty line has one field, which is empty: `tokens.size() == 0` is never the case.
split_empty : split [] b' ' ≡ some ([] ∷ [])
unfolding split
split_empty = refl

abbrev session : List Text
session = codes "client_add now" ∷ [] ∷ codes "client_add" ∷ codes "quit" ∷ codes "client_add" ∷ []
