-- ===== src/DbServer/Handler/Bases.antt =====
-- `DBHandler` of fbthrift/exp3/DB/DBServer.cpp on several event bases: the server has one for each of
-- its threads, a request's lambda runs on that of its connection, and `connect` makes a leaf's client
-- on the one where it runs. The lambdas of two threads are taken to run one after the other.
pub mod Clients
pub mod Runs
pub mod Owners
pub mod Foreign
use thrift_bench.Prelude.{
  ℕ, ◌+◌, ◌-◌, Option, none, some, List, [], ◌∷◌, ◌++◌, ◌>>=◌, length, get_elem?, drop, replicate,
  map,
}
use thrift_bench.DbServer.Handler.{
  Leaf, Task, Call, future_write, future_read, Db, start_db, run_task, disconnect_at,
}

abbrev pub clientp_of : Call → ℕ
clientp_of (future_write clientp cb filename data_) = clientp
clientp_of (future_read clientp cb request_id filename size s) = clientp

-- `bases` has the event base of each connection by its number; `made` has of each call the base on
-- which it was made and that of its client.
pub record Shared : Type 0 where
  pub db : Db
  pub bases : List ℕ
  pub made : List (ℕ × ℕ)

unfoldable pub start_shared : List Leaf → Shared
unfolding start_db
start_shared leafs = record { db = start_db leafs; bases = []; made = [] }

-- The bases of some clients.
pub bases_of : List ℕ → List ℕ → Option (List ℕ)
bases_of bases [] = some []
bases_of bases (c ∷ cs) = do b ← get_elem? bases c; bs ← bases_of bases cs; some (b ∷ bs)

-- A lambda on an event base: the connections that it opens are of that base.
pub run_on : (base : ℕ) → Task → Shared → Option Shared
unfolding run_task bases_of
run_on base t s = do
  db ← run_task t s.db
  let bases = s.bases ++ replicate (db.sockets - s.db.sockets) base
  bs ← bases_of bases (map clientp_of (drop (length s.db.calls) db.calls))
  some (record { db = db; bases = bases; made = s.made ++ map (λ b. (base, b)) bs })

pub data Event : Type 0 where
  runs_on : (base : ℕ) → Task → Event
  closes : (leaf : ℕ) → Event

pub handle : Event → Shared → Option Shared
unfolding run_on
handle (runs_on base t) s = run_on base t s
handle (closes leaf) s =
    some (record s { db = record s.db { leafs = disconnect_at leaf s.db.leafs } })

pub handle_all : List Event → Shared → Option Shared
unfolding handle
handle_all [] s = some s
handle_all (e ∷ es) s = handle e s >>= λ s'. handle_all es s'
