-- ===== src/DomainSocket/Tests.antt =====
-- Tests of the models of fbthrift/domain-socket, and instances of their theorems.
use thrift_bench.Prelude.{
  ℕ, ◌*◌, ◌≤◌, ◌≡◌, refl, Bool, false, some, List, [], ◌∷◌, length, arith, ◌==◌, if◌then◌else◌, min,
  sub64, lookup, leb,
}
use thrift_bench.StorageRpc.Stats.{Stats, Collector}
use thrift_bench.StorageRpc.Echo.{Config}
use thrift_bench.DomainSocket.Benchmark.{Loop, Turn, benchmark, future_send_no_data}
use thrift_bench.DomainSocket.Benchmark.Drift.{benchmark-drift}
use thrift_bench.Prelude.{none, ◌<◌, true}
use thrift_bench.Prelude.Text.{codes}
use thrift_bench.DomainSocket.Session
use thrift_bench.DomainSocket.Session.Threads.{is_started}
use thrift_bench.DomainSocket.Session.Runs.{handle_all-threads}
use thrift_bench.DomainSocket.Benchmark.Updates.{is_known}
use thrift_bench.DomainSocket.Socket.{create_unix_domain_socket}

abbrev settings : Config
settings = record {
  queue_depth = 8;
  block_size = 4096;
  requests = 2;
  unlimited = false;
  iops_rate_limit = 1024;
}

abbrev blank : Stats
blank = record {
  start = 5;
  current_queue_depth = 0;
  current_iops = 0;
  total_ios = 0;
  total_updates = 0;
}

abbrev turns : List Turn
turns = record { replies = 1; now = 6 } ∷ record { replies = 1; now = 7 } ∷ []

benchmark-drift_example :
    (stats' : Collector) × (l : Loop) × (benchmark settings future_send_no_data 1 5 turns
        ((1, blank) ∷ [])
      ≡ some (stats', l))
    × (min 2 (length turns) ≤ l.req_complete)
    × (length l.calls ≡ l.req_id)
    × (l.req_complete ≤ l.req_id)
    × (l.req_sent ≡ 0)
    × (l.req_out ≡ sub64 0 l.req_complete)
    × (l.to_send ≡ (if l.req_complete == 0 then l.current_depth else 1))
unfolding lookup
benchmark-drift_example =
    benchmark-drift settings future_send_no_data 1 5 turns ((1, blank) ∷ []) (omega arith)
      (omega arith) (omega arith) (blank, refl) (omega arith, (omega arith, tt))

-- An answer of `setsockopt`: no more than a megabyte.
abbrev megabyte : ℕ → Bool
megabyte n = leb n (1024 * 1024)

-- Where `bind` fails, the descriptor stays open.
leaked : (create_unix_domain_socket (some 3) false megabyte).open_ ≡ 3 ∷ []
unfolding create_unix_domain_socket
leaked = refl

-- Two clients, of which the second begins first.
abbrev two_clients : List Session.Event
two_clients =
    Session.types (codes "client_add")
    ∷ Session.types (codes "client_add")
    ∷ Session.begins 2 (some 3) (λ s. true) 5 6
    ∷ Session.turns 2 (record { replies = 1; now = 7 })
    ∷ Session.begins 1 (some 4) (λ s. false) 8 9
    ∷ Session.turns 1 (record { replies = 0; now = 10 })
    ∷ []

handle_all-threads_example :
    (p : Session.Program) × (Session.handle_all settings two_clients Session.start ≡ some p)
    × ((id : ℕ) → is_started (lookup id p.clients) ≡ is_known p.stats id)
    × ((id : ℕ) → p.client_id < id → lookup id p.clients ≡ none)
    × (p.client_id ≤ length two_clients)
handle_all-threads_example =
    handle_all-threads settings two_clients (omega arith, (omega arith, (tt, (tt, (tt, (tt, tt))))))
      (omega arith)
