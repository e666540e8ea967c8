-- ===== src/DbServer/Tests.antt =====
-- Tests of the models of the DB server, and instances of their theorems.
use thrift_bench.Prelude.{
  ℕ, ◌+◌, ◌-◌, ◌%◌, ◌≡◌, refl, Option, none, some, List, [], ◌∷◌, ◌++◌, length, arith, All,
}
use thrift_bench.Prelude.Text.{Text, codes}
use thrift_bench.DbServer.Handler.{
  Db, start_db, Event, read, write, run, closed, collected, handle_all, async_tm_read, read_task,
}
use thrift_bench.DbServer.Handler.{Leaf, get_leaf}
use thrift_bench.Prelude.{false, get_elem?, replicate, ◌≢◌}
use thrift_bench.DbServer.Handler.{Task, write_task}
use thrift_bench.DbServer.Handler.Bases
use thrift_bench.DbServer.Handler.Bases.Foreign.{lambdas, foreign, handle_all-foreign}
use thrift_bench.DbServer.Handler.Threads
use thrift_bench.DbServer.Handler.Threads.Races.{two, run-gets, run-twice}
use thrift_bench.DbServer.Handler.Safety.{reads}
use thrift_bench.DbServer.Handler.Leafs.{IsConsistent}
use thrift_bench.DbServer.Handler.Rounds.{leafs_of, handle_all-rounds}
use thrift_bench.DbServer.Addresses.{split, start_leafs, serves}
use thrift_bench.DbServer.Addresses.Fields.{fields_from, split-fields_from}
use thrift_bench.DbServer.Addresses.Roundtrip.{show_leafs, IsPlain, start_leafs-show}

abbrev hosts : List (Text × ℕ)
hosts = (codes "a", 5) ∷ (codes "b", 6) ∷ []

abbrev history : List Event
history =
    write 1 (codes "0") (codes "x")
    ∷ run
    ∷ read 3 2 9 (codes "0") 1
    ∷ closed 1
    ∷ run
    ∷ collected 1
    ∷ read 4 3 10 (codes "0") 1
    ∷ []

handle_all-rounds_example :
    (db : Db) × (handle_all history (start_db (leafs_of hosts)) ≡ some db)
    × All IsConsistent db.leafs
    × (length db.leafs ≡ length hosts)
    × (async_tm_read 7 4 11 (codes "0") 1 db
        ≡ some (record db {
          cur_leaf = (reads history 0 + 1) % length hosts;
          queue =
              db.queue
              ++ read_task 4 11 (codes "0") 1 ((reads history 0 + 1) % length hosts) 7 ∷ [];
        }))
handle_all-rounds_example =
    handle_all-rounds hosts history 7 4 11 (codes "0") 1 (omega arith) (omega arith)

split-fields_from_example : split 6 (codes "a,,b") b',' ≡ fields_from b',' [] (codes "a,,b")
split-fields_from_example = split-fields_from 6 (codes "a,,b") b',' (omega arith) (omega arith)

-- An empty field makes the loop spin.
split_spins : split 100 (codes "a,,b") b',' ≡ none
unfolding split
split_spins = refl

abbrev one_digit : ℕ → Text
one_digit p = (48 + p) ∷ []

abbrev read_digit : Text → Option ℕ
read_digit [] = none
read_digit (c ∷ cs) = some (c - 48)

host_a-IsPlain : IsPlain read_digit one_digit (codes "a", 5)
host_a-IsPlain = record {
  colon = refl;
  comma = refl;
  digits = refl;
  port = omega arith;
  reads = refl;
}

host_b-IsPlain : IsPlain read_digit one_digit (codes "b", 6)
host_b-IsPlain = record {
  colon = refl;
  comma = refl;
  digits = refl;
  port = omega arith;
  reads = refl;
}

start_leafs-show_example :
    start_leafs read_digit 8 (show_leafs read_digit one_digit hosts) ≡ serves hosts
start_leafs-show_example =
    start_leafs-show read_digit one_digit 8 (codes "a", 5) ((codes "b", 6) ∷ [])
      (host_a-IsPlain, (host_b-IsPlain, tt)) (omega arith) (omega arith)

abbrev two_leafs : List Leaf
two_leafs =
    record { ip = codes "a"; port = 5; connected = false; client = none }
    ∷ record { ip = codes "b"; port = 6; connected = false; client = none }
    ∷ []

-- Three threads; the second is done after its turns.
run-gets_example :
    (i : ℕ) × (l : Leaf) × (get_elem?
        (Threads.run
          (length two_leafs)
          (0 ∷ 1 ∷ 2 ∷ 1 ∷ 0 ∷ 1 ∷ [])
          (replicate 3 Threads.loads)
          0).0
        1
      ≡ some (Threads.got i))
    × (get_elem? two_leafs i ≡ some l)
run-gets_example =
    run-gets two_leafs 3 1 0 (0 ∷ 1 ∷ 2 ∷ 1 ∷ 0 ∷ 1 ∷ []) (omega arith) (omega arith) (omega arith)

run-twice_example :
    (i : ℕ) × (j : ℕ) × (db1 : Db) × (db2 : Db) × (schedule : List ℕ) × (get_leaf
        (start_db two_leafs)
      ≡ some (i, db1))
    × (get_leaf db1 ≡ some (j, db2))
    × (j ≢ i)
    × (Threads.run 2 (0 ∷ 0 ∷ 0 ∷ 1 ∷ 1 ∷ 1 ∷ []) two 0
        ≡ (Threads.got i ∷ Threads.got j ∷ [], db2.cur_leaf))
    × (Threads.run 2 schedule two 0 ≡ (Threads.got i ∷ Threads.got i ∷ [], db1.cur_leaf))
unfolding start_db
run-twice_example = run-twice (start_db two_leafs) (omega arith) (omega arith) (omega arith)

-- A read on the event base 6 after a write on 4.
abbrev away : List (ℕ × Task)
away = (6, read_task 2 9 (codes "0") 1 1 0) ∷ []

handle_all-foreign_example :
    (s : Bases.Shared) × (Bases.handle_all
        (Bases.runs_on 4 (write_task 1 (codes "0") (codes "x")) ∷ lambdas away)
        (Bases.start_shared (leafs_of hosts))
      ≡ some s)
    × (s.made ≡ replicate (length hosts) (4, 4) ++ foreign 4 (length hosts) away)
handle_all-foreign_example =
    handle_all-foreign hosts 4 1 (codes "0") (codes "x") away (omega arith, tt)

one_foreign : foreign 4 2 away ≡ (6, 4) ∷ []
one_foreign = refl
