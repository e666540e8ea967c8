-- ===== src/Leaf/Server/Invariant.antt =====
-- What every event keeps: which descriptors are open, and where the callbacks are.
use thrift_bench.Prelude.{refl, List, [], ◌∷◌, ◌++◌, arith}
use thrift_bench.Prelude.Bags.{Pair, occurs-append}
use thrift_bench.Leaf.Server.{Os, LeafHandler}
use thrift_bench.Leaf.Server.Steps.{
  pick_at, Event, asks_write, asks_read, completes, works, runs, handle, handle_all,
}
use thrift_bench.Leaf.Server.Places.{pick_at-Picks}
use thrift_bench.Leaf.Server.Requests.{
  Inv, pair, Keeps, IsAble, async_tm_write-Keeps, async_tm_read-Keeps,
}
use thrift_bench.Leaf.Server.Completions.{complete-Keeps, work-Keeps, run_task-Keeps}

-- The callbacks that the events bring.
abbrev pub asked_by : Event → List Pair
asked_by (asks_write address cb filename contents) = pair cb ∷ []
asked_by (asks_read address ios stale cb filename size) = pair cb ∷ []
asked_by (completes k ioe bytes) = []
asked_by (works k cs ce) = []
asked_by (runs k) = []

abbrev pub asked : List Event → List Pair
asked [] = []
asked (e ∷ es) = asked_by e ++ asked es

pub handle-Keeps :
    (os : Os) (able : IsAble os) (e : Event) (h : LeafHandler)
    → Inv h
    → Keeps (asked_by e) h (handle os e h)
unfolding handle
handle-Keeps os able (asks_write address cb filename contents) h v =
    async_tm_write-Keeps os able address cb filename contents h v
handle-Keeps os able (asks_read address ios stale cb filename size) h v =
    async_tm_read-Keeps os able address ios stale cb filename size h v
handle-Keeps os able (completes k ioe bytes) h v =
    complete-Keeps ioe bytes (pick_at k h.running) h (pick_at-Picks k h.running) v
handle-Keeps os able (works k cs ce) h v =
    work-Keeps cs ce (pick_at k h.pool) h (pick_at-Picks k h.pool) v
handle-Keeps os able (runs k) h v = run_task-Keeps (pick_at k h.queue) h (pick_at-Picks k h.queue) v

pub handle_all-Keeps :
    (os : Os) (able : IsAble os) (es : List Event) (h : LeafHandler)
    → Inv h
    → Keeps (asked es) h (handle_all os es h)
unfolding handle_all
handle_all-Keeps os able [] h v = record {
  after = h;
  returns = refl;
  inv = v;
  moves = λ k. omega arith;
}
handle_all-Keeps os able (e ∷ es) h v =
    let one = handle-Keeps os able e h v in
    let r = handle_all-Keeps os able es one.after one.inv in
    record {
      after = r.after;
      returns = rw one.returns r.returns;
      inv = r.inv;
      moves = λ k. omega (arith, r.moves k, one.moves k, occurs-append k (asked_by e) (asked es));
    }
