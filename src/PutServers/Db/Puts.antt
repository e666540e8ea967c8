-- ===== src/PutServers/Db/Puts.antt =====
-- What any events keep at the DB server: where the puts are.
use thrift_bench.Prelude.{
  map, ℕ, zero, suc, ◌+◌, ◌≤◌, ◌≡◌, refl, ap, ◌∙◌, true, Option, some, List, [], ◌∷◌, ◌++◌, ◌==◌,
  length, sub64, arith, All,
}
use thrift_bench.Prelude.Bags.{hit, occurs-map_append, Pair, occurs, occurs-append, bag, bag-eq}
use thrift_bench.PutServers.Service.{LeafService, LeafBenchmarkData}
use thrift_bench.Prelude.Text.{Text}
use thrift_bench.DbServer.Handler.Rounds.{leafs_of, leafs_of-Consistent}
use thrift_bench.PutServers.Db.{
  DbBenchmarkData, Call, PutHandler, new_handler, reply, answer_at, Event, put, loop_once, answered,
  closed, handle, handle_all,
}
use thrift_bench.PutServers.Db.Steps.{
  IsMatched, Inv, call_pair, result_pair, in_hand, occurs-in_hand, Takes, async_tm_key_put-Takes,
  run_next-Takes, KeepsId, channel_closed-Takes,
}

module _ (service : LeafService) where
  -- A leaf's answer moves one call to the results.
  record AnswersOne (cs : List Call) (o : Option (List Call × List (ℕ × DbBenchmarkData)))
      : Type 0 where
    calls : List Call
    results : List (ℕ × DbBenchmarkData)
    returns : o ≡ some (calls, results)
    matched : All IsMatched calls
    moves :
        (p : Pair)
        → occurs p (map call_pair calls) + occurs p (map result_pair results)
          ≡ occurs p (map call_pair cs)

  answer_at-AnswersOne :
      (k e : ℕ) (t : service.Timing) (cs : List Call)
      → All IsMatched cs
      → AnswersOne cs (answer_at service k e t cs)
  unfolding answer_at reply
  answer_at-AnswersOne k e t [] h = record {
    calls = [];
    results = [];
    returns = refl;
    matched = tt;
    moves = λ p. refl;
  }
  answer_at-AnswersOne zero e t (c ∷ cs) h =
      let result = service.answer t c.lbd in
      let same : result.request_id ≡ c.bench.request_id = service.same_id t c.lbd ∙ h.0 in
      let passes : result.request_id == c.bench.request_id ≡ true = ground (arith, same) in
      let r : DbBenchmarkData = record {
        request_id = result.request_id;
        db_latency = sub64 e c.s;
        leaf_latency = result.leaf_latency;
        io_latency = result.io_latency;
        cpu_consumed = result.cpu_consumed;
        contents = [];
        data_size = 0;
      } in
      record {
        calls = cs;
        results = (c.cb, r) ∷ [];
        returns = simp passes refl;
        matched = h.1;
        moves = λ p. omega (arith, ap (λ (id : ℕ). hit p (c.cb, id)) same);
      }
  answer_at-AnswersOne (suc k) e t (c ∷ cs) h =
      let a = answer_at-AnswersOne k e t cs h.1 in
      record {
        calls = c ∷ a.calls;
        results = a.results;
        returns = rw a.returns refl;
        matched = (h.0, a.matched);
        moves = λ p. omega (arith, a.moves p);
      }

  -- What the events ask for.
  abbrev asked_by : Event service → List Pair
  asked_by (put s cb bench) = (cb, bench.request_id) ∷ []
  asked_by loop_once = []
  asked_by (answered k e t) = []
  asked_by (closed leaf) = []

  abbrev pub asked : List (Event service) → List Pair
  asked [] = []
  asked (e ∷ es) = asked_by e ++ asked es

  handle-Takes :
      (ldb : ℕ → LeafBenchmarkData → LeafBenchmarkData) (n : ℕ) (e : Event service) (h : PutHandler)
      → KeepsId ldb
      → 1 ≤ n
      → Inv n h
      → Takes n (asked_by e) h (handle service ldb e h)
  unfolding handle
  handle-Takes ldb n (put s cb bench) h keeps pos v = async_tm_key_put-Takes n s cb bench h pos v
  handle-Takes ldb n loop_once h keeps pos v = run_next-Takes ldb n h.queue h keeps refl v
  handle-Takes ldb n (answered k e t) h keeps pos v =
      let a = answer_at-AnswersOne k e t h.calls v.calls in
      record {
        after = record h { calls = a.calls; results = h.results ++ a.results };
        returns = rw a.returns refl;
        inv = record {
          consistent = v.consistent;
          size = v.size;
          tasks = v.tasks;
          calls = a.matched;
        };
        moves = λ p. omega (arith, a.moves p, occurs-map_append p result_pair h.results a.results);
      }
  handle-Takes ldb n (closed leaf) h keeps pos v = channel_closed-Takes n leaf h v

  handle_all-Takes :
      (ldb : ℕ → LeafBenchmarkData → LeafBenchmarkData) (n : ℕ) (es : List (Event service))
      (h : PutHandler)
      → KeepsId ldb
      → 1 ≤ n
      → Inv n h
      → Takes n (asked es) h (handle_all service ldb es h)
  unfolding handle_all
  handle_all-Takes ldb n [] h keeps pos v = record {
    after = h;
    returns = refl;
    inv = v;
    moves = λ p. omega arith;
  }
  handle_all-Takes ldb n (e ∷ es) h keeps pos v =
      let one = handle-Takes ldb n e h keeps pos v in
      let r = handle_all-Takes ldb n es one.after keeps pos one.inv in
      record {
        after = r.after;
        returns = rw one.returns r.returns;
        inv = r.inv;
        moves = λ p. omega (arith, r.moves p, one.moves p, occurs-append p (asked_by e) (asked es));
      }

  -- A server with at least one leaf, over leafs that answer with the identifier they were given,
  -- where the statement on the undeclared variable leaves the identifier. After any puts, turns of
  -- the event base, answers in any order and closed channels, no assertion has failed, and the puts
  -- by callback and identifier, in whatever order, are those in the queue, those at a leaf, those
  -- answered and those whose leaf's channel closed before its answer, each as often as it was asked
  -- for.
  pub handle_all-asked :
      (ldb : ℕ → LeafBenchmarkData → LeafBenchmarkData) (as_ : List (Text × ℕ))
      (es : List (Event service))
      → KeepsId ldb
      → 1 ≤ length as_
      → (h : PutHandler) × (handle_all service ldb es (new_handler (leafs_of as_)) ≡ some h)
        × (bag (in_hand h) ≡ bag (asked es))
  unfolding new_handler
  handle_all-asked ldb as_ es keeps pos =
      let (consistent, size) = leafs_of-Consistent as_ in
      let r =
        handle_all-Takes ldb (length as_) es (new_handler (leafs_of as_)) keeps pos
          (record { consistent = consistent; size = size; tasks = tt; calls = tt }) in
      (
        r.after,
        r.returns,
        bag-eq (in_hand r.after) (asked es)
            (λ p. omega (arith, occurs-in_hand p r.after, r.moves p)),
      )
