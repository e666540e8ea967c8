-- ===== src/Leaf/Server/Drain.antt =====
-- When no more requests come: what is left to do is done, and ends.
use mathlib.Core.Option.{some-injective, none-ne-some}
use mathlib.Core.Path.{subst}
use thrift_bench.Prelude.{
  ℕ, zero, suc, ◌+◌, ◌*◌, ◌≤◌, ◌≡◌, ◌⊎◌, refl, sym, ap, ◌∙◌, inl, inr, Option, none, some, List, [],
  ◌∷◌, ◌++◌, ◌>>=◌, length, length-append, arith,
}
use thrift_bench.Prelude.Bags.{Pair, hit, occurs, occurs-append, bag, bag-eq}
use thrift_bench.Leaf.Server.{
  Os, Callback, Continuation, after_write, after_read, Pending, Reply, Job, Task, LeafHandler,
  new_handler, close_fd,
}
use thrift_bench.Leaf.Server.Steps.{
  pick_at, continue, complete, work, run_task, Event, completes, works, runs, handle, handle_all,
}
use thrift_bench.Leaf.Server.Requests.{Inv, IsAble, total, pair, pair_of, task_pair}
use thrift_bench.Leaf.Server.Places.{weigh, occurs-map}
use thrift_bench.Leaf.Server.Invariant.{asked, asked_by, handle-Keeps, handle_all-Keeps}
use thrift_bench.Leaf.Server.Descriptors.{new_handler-Inv, answered, waiting}

List-cases {ℓ} : {A : Type ℓ} (xs : List A) → (xs ≡ []) ⊎ ((x : A) × (ys : List A) × (xs ≡ x ∷ ys))
List-cases [] = inl refl
List-cases (x ∷ xs) = inr (x, xs, refl)

-- The steps that are left.
abbrev left : LeafHandler → ℕ
left h = 3 * length h.running + 2 * length h.pool + length h.queue

abbrev Less : LeafHandler → LeafHandler → Type 0
Less h a = (left a + 1 ≤ left h) × (a.refused ≡ h.refused)

of-bind :
    (P : LeafHandler → Type 0) (c : Option (List ℕ)) (g : List ℕ → LeafHandler) (a : LeafHandler)
    → (c >>= λ fds. some (g fds)) ≡ some a
    → ((fds : List ℕ) → P (g fds))
    → P a
of-bind P none g a e k = absurd (none-ne-some a e)
of-bind P (some fds) g a e k = subst P (some-injective (g fds) a e) (k fds)

continue-Less :
    (p : Pending) (ps : List Pending) (fds : List ℕ) (k : Continuation) (h : LeafHandler)
    → h.running ≡ p ∷ ps
    → Less h (continue 0 [] p.buffer k (record h { running = ps; fds = fds }))
unfolding continue
continue-Less p ps fds (after_write cb) h e =
    (omega (arith, ap length e, length-append h.queue (Task.done cb ∷ [])), refl)
continue-Less p ps fds (after_read cb size ios) h e =
    (omega (arith, ap length e, length-append h.pool (_ ∷ [])), refl)

complete-Less :
    (p : Pending) (ps : List Pending) (h a : LeafHandler)
    → h.running ≡ p ∷ ps
    → complete 0 [] (some (p, ps)) h ≡ some a
    → Less h a
unfolding complete
complete-Less p ps h a e returns =
    of-bind (Less h) (close_fd p.fd h.fds)
      (λ fds. continue 0 [] p.buffer p.continuation (record h { running = ps; fds = fds })) a
      returns (λ fds. continue-Less p ps fds p.continuation h e)

work-Less :
    (j : Job) (js : List Job) (h : LeafHandler)
    → h.pool ≡ j ∷ js
    → Less h (work 0 0 (some (j, js)) h)
unfolding work
work-Less j js h e = (omega (arith, ap length e, length-append h.queue (_ ∷ [])), refl)

run_task-Less :
    (t : Task) (ts : List Task) (h : LeafHandler)
    → h.queue ≡ t ∷ ts
    → Less h (run_task (some (t, ts)) h)
unfolding run_task
run_task-Less t ts h e = (omega (arith, ap length e), refl)

-- An event that is no request and takes a step, or nothing is left.
record HasStep (os : Os) (h : LeafHandler) : Type 0 where
  event : Event
  no_request : asked_by event ≡ []
  less : (a : LeafHandler) → handle os event h ≡ some a → Less h a

Idle : LeafHandler → Type 0
Idle h = (h.running ≡ []) × (h.pool ≡ []) × (h.queue ≡ [])

next_step : (os : Os) (h : LeafHandler) → Idle h ⊎ HasStep os h
unfolding handle pick_at Idle
next_step os h = elim (List-cases h.running) [
  | inr (p, ps, e) ↦ inr (record {
    event = completes 0 0 [];
    no_request = refl;
    less = λ a returns.
        complete-Less p ps h a e (ap (λ l. complete 0 [] (pick_at 0 l) h) (sym e) ∙ returns);
  })
  | inl no_running ↦ elim (List-cases h.pool) [
    | inr (j, js, e) ↦ inr (record {
      event = works 0 0 0;
      no_request = refl;
      less = λ a returns.
          subst (Less h)
            (some-injective (work 0 0 (some (j, js)) h) a
              (ap (λ l. some (work 0 0 (pick_at 0 l) h)) (sym e) ∙ returns))
            (work-Less j js h e);
    })
    | inl no_pool ↦ elim (List-cases h.queue) [
      | inr (t, ts, e) ↦ inr (record {
        event = runs 0;
        no_request = refl;
        less = λ a returns.
            subst (Less h)
              (some-injective (run_task (some (t, ts)) h) a
                (ap (λ l. some (run_task (pick_at 0 l) h)) (sym e) ∙ returns))
              (run_task-Less t ts h e);
      })
      | inl no_queue ↦ inl (no_running, no_pool, no_queue)
    ]
  ]
]

record Drained (os : Os) (h : LeafHandler) : Type 0 where
  events : List Event
  after : LeafHandler
  returns : handle_all os events h ≡ some after
  no_requests : asked events ≡ []
  idle : Idle after
  same_refused : after.refused ≡ h.refused
  moves : (q : Pair) → total q after ≡ total q h

Idle-Drained : (os : Os) (h : LeafHandler) → Idle h → Drained os h
unfolding handle_all
Idle-Drained os h idle = record {
  events = [];
  after = h;
  returns = refl;
  no_requests = refl;
  idle = idle;
  same_refused = refl;
  moves = λ q. refl;
}

drain : (os : Os) (able : IsAble os) (n : ℕ) (h : LeafHandler) → Inv h → left h ≤ n → Drained os h
unfolding handle_all
drain os able zero h v le = elim (next_step os h) [
  | inl idle ↦ Idle-Drained os h idle
  | inr s ↦
      let k = handle-Keeps os able s.event h v in
      absurd (omega (arith, (s.less k.after k.returns).0, le))
]
drain os able (suc n) h v le = elim (next_step os h) [
  | inl idle ↦ Idle-Drained os h idle
  | inr s ↦
      let k = handle-Keeps os able s.event h v in
      let less = s.less k.after k.returns in
      let r = drain os able n k.after k.inv (omega (arith, less.0, le)) in
      record {
        events = s.event ∷ r.events;
        after = r.after;
        returns = rw k.returns r.returns;
        no_requests = ap (λ l. l ++ asked r.events) s.no_request ∙ r.no_requests;
        idle = r.idle;
        same_refused = r.same_refused ∙ less.1;
        moves = λ q. omega (arith, r.moves q, k.moves q, ap (occurs q) s.no_request);
      }
]

-- With nothing left, the callbacks are those answered and those refused.
Idle-total :
    (q : Pair) (h : LeafHandler)
    → Idle h
    → occurs q (answered h.results ++ waiting h.refused) ≡ total q h
unfolding Idle
Idle-total q h idle = omega (
  arith,
  occurs-append q (answered h.results) (waiting h.refused),
  occurs-map q (λ (r : Callback × Reply). pair r.0) h.results,
  occurs-map q (λ (i : Pending). pair_of i.continuation) h.refused,
  ap (weigh (λ (i : Pending). hit q (pair_of i.continuation))) idle.0,
  ap (weigh (λ (j : Job). hit q (pair j.cb))) idle.1,
  ap (weigh (λ (t : Task). hit q (task_pair t))) idle.2,
)

-- A system with memory that can open any file for writing. After any events there are some that are
-- no requests, I/Os that complete, jobs and tasks, after which no I/O runs, no job and no task is
-- left, and the callbacks that the requests brought, in whatever order and each as often as it was
-- brought, are those answered and those of the I/Os that `io_submit` had refused before.
pub handle_all-drains :
    (os : Os) (able : IsAble os) (path : List ℕ) (es : List Event)
    → (more : List Event) × (h : LeafHandler) × (h' : LeafHandler) × (handle_all os es
          (new_handler path)
        ≡ some h)
      × (handle_all os more h ≡ some h')
      × (asked more ≡ [])
      × (h'.running ≡ [])
      × (h'.pool ≡ [])
      × (h'.queue ≡ [])
      × (h'.refused ≡ h.refused)
      × (bag (answered h'.results ++ waiting h.refused) ≡ bag (asked es))
unfolding Idle new_handler
handle_all-drains os able path es =
    let k = handle_all-Keeps os able es (new_handler path) (new_handler-Inv path) in
    let d = drain os able (left k.after) k.after k.inv (omega arith) in
    (
      d.events,
      k.after,
      d.after,
      k.returns,
      d.returns,
      d.no_requests,
      d.idle.0,
      d.idle.1,
      d.idle.2,
      d.same_refused,
      bag-eq (answered d.after.results ++ waiting k.after.refused) (asked es) (λ q.
          ap (λ l. occurs q (answered d.after.results ++ waiting l)) (sym d.same_refused)
          ∙ Idle-total q d.after d.idle
          ∙ d.moves q
          ∙ omega (arith, k.moves q)),
    )
