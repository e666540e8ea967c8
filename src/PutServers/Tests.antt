-- ===== src/PutServers/Tests.antt =====
-- Tests of the models of the servers of fbthrift/exp2, and instances of their theorems.
use thrift_bench.Prelude.{ℕ, ◌≡◌, refl, some, List, [], ◌∷◌, arith}
use thrift_bench.Prelude.Bags.{bag}
use thrift_bench.Prelude.Text.{Text, codes}
use thrift_bench.DbServer.Handler.Rounds.{leafs_of}
use thrift_bench.PutServers.Service.{LeafBenchmarkData}
use thrift_bench.PutServers.Leaf
use thrift_bench.PutServers.Leaf.{leaf_service}
use thrift_bench.PutServers.Leaf.Bags.{in_hand, asked, in_hand-asked}
use thrift_bench.PutServers.Db
use thrift_bench.PutServers.Db.{PutHandler}
use thrift_bench.PutServers.Db.Puts
use thrift_bench.PutServers.Db.Steps
use thrift_bench.PutServers.Db.Puts.{handle_all-asked}

abbrev lbd : ℕ → LeafBenchmarkData
lbd id = record {
  request_id = id;
  leaf_latency = 0;
  io_latency = 0;
  cpu_consumed = 0;
  contents = [];
  data_size = 0;
}

-- The second put overtakes the first.
abbrev leaf_events : List Leaf.Event
leaf_events =
    Leaf.put 10 1 (lbd 5) ∷ Leaf.put 11 2 (lbd 6) ∷ Leaf.work 1 12 14 ∷ Leaf.loop_once 15 ∷ []

abbrev bench : ℕ → Db.DbBenchmarkData
bench id = record {
  request_id = id;
  db_latency = 0;
  leaf_latency = 0;
  io_latency = 0;
  cpu_consumed = 0;
  contents = [];
  data_size = 3;
}

-- The statement as it seems to be meant.
abbrev set_data_size : ℕ → LeafBenchmarkData → LeafBenchmarkData
set_data_size size lbd = record lbd { data_size = size }

abbrev hosts : List (Text × ℕ)
hosts = (codes "a", 5) ∷ (codes "b", 6) ∷ []

-- Two puts, one on each leaf. The channel of the second leaf closes, and the other put is answered.
abbrev db_events : List (Db.Event leaf_service)
unfolding leaf_service
db_events =
    Db.put 10 1 (bench 5)
    ∷ Db.put 11 2 (bench 6)
    ∷ Db.loop_once
    ∷ Db.loop_once
    ∷ Db.closed 1
    ∷ Db.answered 0 30 (1, 2, 3, 4)
    ∷ []

handle_all-asked_example :
    (h : PutHandler) × (Db.handle_all leaf_service set_data_size db_events
        (Db.new_handler (leafs_of hosts))
      ≡ some h)
    × (bag (Db.Steps.in_hand h) ≡ bag (Db.Puts.asked leaf_service db_events))
handle_all-asked_example =
    handle_all-asked leaf_service set_data_size hosts db_events (λ size lbd. refl) (omega arith)

in_hand-asked_example :
    bag (in_hand (Leaf.handle_all leaf_events Leaf.new_handler)) ≡ bag (asked leaf_events)
in_hand-asked_example = in_hand-asked leaf_events
