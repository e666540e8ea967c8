-- ===== src/PutServers/Leaf/Bags.antt =====
-- Where the puts are: in the pool, in the queue, or answered.
use thrift_bench.Prelude.{ℕ, zero, suc, ◌+◌, ◌≡◌, refl, ap, ◌∙◌, List, map, [], ◌∷◌, ◌++◌, arith}
use thrift_bench.Prelude.Bags.{Pair, occurs, occurs-append, occurs-map_append, bag, bag-eq}
use thrift_bench.PutServers.Service.{LeafBenchmarkData}
use thrift_bench.PutServers.Leaf.{
  Job, Task, LeafHandler, new_handler, async_tm_key_put, burn, reply, work_at, deliver, Event, put,
  work, loop_once, handle, handle_all,
}

-- Callback and identifier of what is in the pool, in the queue and in the results.
abbrev job_pair : Job → Pair
job_pair j = (j.cb, j.reqid)

abbrev pub task_pair : Task → Pair
task_pair t = (t.cb, t.reqid)

abbrev pub result_pair : ℕ × LeafBenchmarkData → Pair
result_pair r = (r.0, r.1.request_id)

abbrev pub in_hand : LeafHandler → List Pair
in_hand h = map job_pair h.pool ++ (map task_pair h.queue ++ map result_pair h.results)

-- What was asked for.
abbrev pub asked : List Event → List Pair
asked [] = []
asked (put s cb ldb ∷ es) = (cb, ldb.request_id) ∷ asked es
asked (work k cs ce ∷ es) = asked es
asked (loop_once e ∷ es) = asked es

-- How often a pair is in hand, place by place.
abbrev total : Pair → LeafHandler → ℕ
total p h =
    occurs p (map job_pair h.pool)
    + (occurs p (map task_pair h.queue) + occurs p (map result_pair h.results))

occurs-in_hand : (p : Pair) (h : LeafHandler) → occurs p (in_hand h) ≡ total p h
occurs-in_hand p h =
    occurs-append p (map job_pair h.pool) (map task_pair h.queue ++ map result_pair h.results)
    ∙ ap (λ n. occurs p (map job_pair h.pool) + n)
        (occurs-append p (map task_pair h.queue) (map result_pair h.results))

-- A job that a thread takes moves from the pool to the queue.
work_at-occurs :
    (p : Pair) (k cs ce : ℕ) (js : List Job) (ts : List Task)
    → let r = work_at k cs ce js ts in
      occurs p (map job_pair r.0) + occurs p (map task_pair r.1)
      ≡ occurs p (map job_pair js) + occurs p (map task_pair ts)
unfolding work_at burn
work_at-occurs p k cs ce [] ts = refl
work_at-occurs p zero cs ce (j ∷ js) ts =
    omega (arith, occurs-map_append p task_pair ts (burn cs ce j ∷ []))
work_at-occurs p (suc k) cs ce (j ∷ js) ts = omega (arith, work_at-occurs p k cs ce js ts)

deliver-total :
    (p : Pair) (e : ℕ) (ts : List Task) (h : LeafHandler)
    → h.queue ≡ ts
    → total p (deliver e ts h) ≡ total p h
unfolding deliver reply
deliver-total p e [] h q = refl
deliver-total p e (t ∷ ts) h q =
    let place = ap (λ (l : List Task). occurs p (map task_pair l)) q in
    omega (arith, place, occurs-map_append p result_pair h.results ((t.cb, reply e t) ∷ []))

handle_all-total :
    (p : Pair) (es : List Event) (h : LeafHandler)
    → total p (handle_all es h) ≡ total p h + occurs p (asked es)
unfolding handle_all handle async_tm_key_put
handle_all-total p [] h = omega arith
handle_all-total p (put s cb ldb ∷ es) h =
    let j : Job = record { cb = cb; reqid = ldb.request_id; s = s } in
    omega (
      arith,
      handle_all-total p es (async_tm_key_put s cb ldb h),
      occurs-map_append p job_pair h.pool (j ∷ []),
    )
handle_all-total p (work k cs ce ∷ es) h =
    let r = work_at k cs ce h.pool h.queue in
    omega (
      arith,
      handle_all-total p es (record h { pool = r.0; queue = r.1 }),
      work_at-occurs p k cs ce h.pool h.queue,
    )
handle_all-total p (loop_once e ∷ es) h =
    omega (arith, handle_all-total p es (deliver e h.queue h), deliver-total p e h.queue h refl)

-- After any puts, jobs taken by threads and turns of the event base: the puts by callback and
-- identifier, in whatever order, are those in the pool, those in the queue and those answered, each
-- as often as it was asked for.
pub in_hand-asked : (es : List Event) → bag (in_hand (handle_all es new_handler)) ≡ bag (asked es)
unfolding new_handler
in_hand-asked es = bag-eq (in_hand (handle_all es new_handler)) (asked es) λ p.
    omega (arith, occurs-in_hand p (handle_all es new_handler), handle_all-total p es new_handler)
