-- ===== src/PutServers/Db/Steps.antt =====
-- What a put and a turn of the event base keep: the puts are each in one place.
use native.Mathlib.Nat.{mod-lt}
use thrift_bench.Prelude.{
  ℕ, ◌+◌, ◌%◌, ◌≤◌, ◌<◌, ◌≡◌, refl, ap, ◌∙◌, false, Option, some, List, [], ◌∷◌, ◌++◌, ◌==◌, length,
  set, get_elem?, ◌>>=◌, none, Bool-cases, inl, inr, add32, arith, All, All-append, map,
}
use mathlib.Core.Path.{subst}
use thrift_bench.Prelude.Bags.{Pair, occurs, occurs-append, occurs-map_append}
use thrift_bench.DbServer.Handler.Leafs.{
  IsConsistent, connection-Connected, get_elem?-Some, set-Consistent,
}
use thrift_bench.PutServers.Service.{LeafBenchmarkData}
use thrift_bench.DbServer.Handler.Leafs.{disconnect_at-Consistent}
use thrift_bench.PutServers.Db.{
  split_calls, channel_closed, DbBenchmarkData, Task, Call, PutHandler, get_leaf, async_tm_key_put,
  lbd_of, run_task, run_next,
}

-- The identifier that a call carries is that of its put.
abbrev pub IsMatched : Call → Type 0
IsMatched c = c.lbd.request_id ≡ c.bench.request_id

-- The statement on the undeclared variable leaves the identifier.
abbrev pub KeepsId : (ℕ → LeafBenchmarkData → LeafBenchmarkData) → Type 0
KeepsId ldb = (size : ℕ) (lbd : LeafBenchmarkData) → (ldb size lbd).request_id ≡ lbd.request_id

pub record Inv (n : ℕ) (h : PutHandler) : Type 0 where
  pub consistent : All IsConsistent h.leafs
  pub size : length h.leafs ≡ n
  pub tasks : All (λ (t : Task). t.leaf < n) h.queue
  pub calls : All IsMatched h.calls

-- Callback and identifier of what waits in the queue, at a leaf, of what is answered and what failed.
abbrev pub task_pair : Task → Pair
task_pair t = (t.cb, t.bench.request_id)

abbrev pub call_pair : Call → Pair
call_pair c = (c.cb, c.bench.request_id)

abbrev pub result_pair : ℕ × DbBenchmarkData → Pair
result_pair r = (r.0, r.1.request_id)

abbrev pub in_hand : PutHandler → List Pair
in_hand h =
    map task_pair h.queue
    ++ (map call_pair h.calls ++ (map result_pair h.results ++ map call_pair h.failed))

abbrev pub total : Pair → PutHandler → ℕ
total p h =
    occurs p (map task_pair h.queue)
    + (occurs p (map call_pair h.calls)
        + (occurs p (map result_pair h.results) + occurs p (map call_pair h.failed)))

pub occurs-in_hand : (p : Pair) (h : PutHandler) → occurs p (in_hand h) ≡ total p h
occurs-in_hand p h = omega (
  arith,
  occurs-append p (map task_pair h.queue)
      (map call_pair h.calls ++ (map result_pair h.results ++ map call_pair h.failed)),
  occurs-append p (map call_pair h.calls) (map result_pair h.results ++ map call_pair h.failed),
  occurs-append p (map result_pair h.results) (map call_pair h.failed),
)

-- A step that succeeds and takes in these puts.
pub record Takes (n : ℕ) (new : List Pair) (h : PutHandler) (o : Option PutHandler) : Type 0 where
  pub after : PutHandler
  pub returns : o ≡ some after
  pub inv : Inv n after
  pub moves : (p : Pair) → total p after ≡ total p h + occurs p new

pub async_tm_key_put-Takes :
    (n s cb : ℕ) (bench : DbBenchmarkData) (h : PutHandler)
    → 1 ≤ n
    → Inv n h
    → Takes n ((cb, bench.request_id) ∷ []) h (async_tm_key_put s cb bench h)
unfolding async_tm_key_put get_leaf
async_tm_key_put-Takes n s cb bench h pos v =
    let some_leaf : length h.leafs == 0 ≡ false = ground (arith, v.size) in
    let cur = add32 h.cur_leaf 1 % length h.leafs in
    let below = mod-lt (add32 h.cur_leaf 1) {m = length h.leafs} (omega (arith, v.size)) in
    let t : Task = record { cb = cb; bench = bench; leaf = cur; s = s } in
    record {
      after = record h { cur_leaf = cur; queue = h.queue ++ t ∷ [] };
      returns = rw some_leaf refl;
      inv = record {
        consistent = v.consistent;
        size = v.size;
        tasks = All-append _ h.queue (t ∷ []) v.tasks (omega (arith, below, v.size), tt);
        calls = v.calls;
      };
      moves = λ p. omega (arith, occurs-map_append p task_pair h.queue (t ∷ []));
    }

pub run_next-Takes :
    (ldb : ℕ → LeafBenchmarkData → LeafBenchmarkData) (n : ℕ) (ts : List Task) (h : PutHandler)
    → KeepsId ldb
    → h.queue ≡ ts
    → Inv n h
    → Takes n [] h (run_next ldb ts h)
unfolding run_next run_task lbd_of
run_next-Takes ldb n [] h keeps e v = record {
  after = h;
  returns = refl;
  inv = v;
  moves = λ p. omega arith;
}
run_next-Takes ldb n (t ∷ ts) h keeps e v =
    let tasks = subst (All (λ (t : Task). t.leaf < n)) e v.tasks in
    let (l, found, holds) =
      get_elem?-Some t.leaf h.leafs (omega (arith, tasks.0, v.size)) v.consistent in
    let c = connection-Connected h.sockets l holds in
    let w = set-Consistent t.leaf c.leaf h.leafs c.holds v.consistent in
    let call : Call = record {
      clientp = c.clientp;
      cb = t.cb;
      lbd = lbd_of ldb t.bench;
      bench = t.bench;
      s = t.s;
    } in
    record {
      after = record h {
        leafs = set h.leafs t.leaf c.leaf;
        sockets = c.sockets';
        queue = ts;
        calls = h.calls ++ call ∷ [];
      };
      returns = rw found (rw c.returns refl);
      inv = record {
        consistent = w.0;
        size = w.1 ∙ v.size;
        tasks = tasks.1;
        calls = All-append _ h.calls (call ∷ []) v.calls (keeps t.bench.data_size _, tt);
      };
      moves = λ p. omega (
        arith,
        ap (λ (q : List Task). occurs p (map task_pair q)) e,
        occurs-map_append p call_pair h.calls (call ∷ []),
      );
    }

-- What stays and what fails are the calls there were.
record Splits (cs : List Call) (r : List Call × List Call) : Type 0 where
  stay : All IsMatched r.0
  moves :
      (p : Pair)
      → occurs p (map call_pair r.0) + occurs p (map call_pair r.1) ≡ occurs p (map call_pair cs)

split_calls-Splits :
    (client : Option ℕ) (cs : List Call) → All IsMatched cs → Splits cs (split_calls client cs)
unfolding split_calls
split_calls-Splits none cs m = record { stay = m; moves = λ p. omega arith }
split_calls-Splits (some clientp) [] m = record { stay = tt; moves = λ p. refl }
split_calls-Splits (some clientp) (c ∷ cs) m =
    let r = split_calls-Splits (some clientp) cs m.1 in
    elim (Bool-cases (c.clientp == clientp)) [
      | inl own ↦ rw own (record { stay = r.stay; moves = λ p. omega (arith, r.moves p) })
      | inr other ↦
          rw other (record { stay = (m.0, r.stay); moves = λ p. omega (arith, r.moves p) })
    ]

pub channel_closed-Takes :
    (n leaf : ℕ) (h : PutHandler) → Inv n h → Takes n [] h (some (channel_closed leaf h))
unfolding channel_closed
channel_closed-Takes n leaf h v =
    let client = get_elem? h.leafs leaf >>= λ l. l.client in
    let d = disconnect_at-Consistent leaf h.leafs v.consistent in
    let r = split_calls-Splits client h.calls v.calls in
    record {
      after = channel_closed leaf h;
      returns = refl;
      inv = record { consistent = d.0; size = d.1 ∙ v.size; tasks = v.tasks; calls = r.stay };
      moves = λ p.
          omega (
            arith,
            r.moves p,
            occurs-map_append p call_pair h.failed (split_calls client h.calls).1,
          );
    }
