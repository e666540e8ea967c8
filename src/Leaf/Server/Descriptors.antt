-- ===== src/Leaf/Server/Descriptors.antt =====
-- Which files are open, and which callbacks are answered.
use thrift_bench.Prelude.{ℕ, ◌+◌, ◌≤◌, ◌≡◌, refl, Option, some, List, [], ◌∷◌, ◌++◌, map, arith}
use thrift_bench.Prelude.Bags.{Pair, occurs, occurs-append, bag, bag-eq}
use thrift_bench.Leaf.Aio.Inflight.{count}
use thrift_bench.Leaf.Server.{Os, Callback, Pending, Job, Reply, LeafHandler, new_handler}
use thrift_bench.Leaf.Server.Steps.{Event, handle_all}
use thrift_bench.Leaf.Server.Places.{weigh, occurs-map, has}
use thrift_bench.Leaf.Server.Invariant.{asked, handle_all-Keeps}
use thrift_bench.Leaf.Server.Requests.{Inv, IsAble, pair, pair_of, task_pair, total}

-- The descriptors of I/Os.
abbrev pub fds_of : List Pending → List (Option ℕ)
fds_of [] = []
fds_of (p ∷ ps) = p.fd ∷ fds_of ps

abbrev pub count_some : ℕ → List (Option ℕ) → ℕ
count_some q [] = 0
count_some q (fd ∷ fds) = has q fd + count_some q fds

-- The callbacks of I/Os, and those that are answered.
abbrev pub waiting : List Pending → List Pair
waiting ps = map (λ (p : Pending). pair_of p.continuation) ps

abbrev pub answered : List (Callback × Reply) → List Pair
answered rs = map (λ (r : Callback × Reply). pair r.0) rs

pub new_handler-Inv : (path : List ℕ) → Inv (new_handler path)
unfolding new_handler
new_handler-Inv path = record { held = λ q. refl; once = λ q. omega arith; valid = tt }

count_some-fds_of :
    (q : ℕ) (ps : List Pending) → count_some q (fds_of ps) ≡ weigh (λ p. has q p.fd) ps
count_some-fds_of q [] = refl
count_some-fds_of q (p ∷ ps) = omega (arith, count_some-fds_of q ps)

-- A system with memory that can open any file for writing. After any requests, completed I/Os, jobs
-- and tasks of the event bases, in any order, no assertion has failed and no descriptor has been
-- closed that was not open. The descriptors that are open, each once, are those of the I/Os that
-- run, and those of the I/Os that `io_submit` refused, which nothing closes.
pub handle_all-fds :
    (os : Os) (able : IsAble os) (path : List ℕ) (es : List Event)
    → (h : LeafHandler) × (handle_all os es (new_handler path) ≡ some h)
      × ((q : ℕ)
          → (count q h.fds ≡ count_some q (fds_of h.running) + count_some q (fds_of h.refused))
            × (count q h.fds ≤ 1))
handle_all-fds os able path es =
    let k = handle_all-Keeps os able es (new_handler path) (new_handler-Inv path) in
    let h = k.after in
    (
      h,
      k.returns,
      λ q. (
        omega (arith, k.inv.held q, count_some-fds_of q h.running, count_some-fds_of q h.refused),
        k.inv.once q,
      ),
    )

-- The callbacks, by place.
abbrev pub in_hand : LeafHandler → List Pair
in_hand h =
    answered h.results
    ++ (waiting h.refused
        ++ (waiting h.running ++ (map (λ (j : Job). pair j.cb) h.pool ++ map task_pair h.queue)))

pub occurs-in_hand : (p : Pair) (h : LeafHandler) → occurs p (in_hand h) ≡ total p h
occurs-in_hand p h =
    let jobs = map (λ (j : Job). pair j.cb) h.pool in
    let tasks = map task_pair h.queue in
    omega (
      arith,
      occurs-append p (answered h.results)
          (waiting h.refused ++ (waiting h.running ++ (jobs ++ tasks))),
      occurs-append p (waiting h.refused) (waiting h.running ++ (jobs ++ tasks)),
      occurs-append p (waiting h.running) (jobs ++ tasks),
      occurs-append p jobs tasks,
      occurs-map p (λ (r : Callback × Reply). pair r.0) h.results,
      occurs-map p (λ (i : Pending). pair_of i.continuation) h.refused,
      occurs-map p (λ (i : Pending). pair_of i.continuation) h.running,
      occurs-map p (λ (j : Job). pair j.cb) h.pool,
      occurs-map p task_pair h.queue,
    )

-- A system with memory that can open any file for writing. After any events, the callbacks that the
-- requests brought, in whatever order and each as often as it was brought, are those answered, those
-- of the I/Os that run, those of a job or a task, and those of the I/Os that `io_submit` refused,
-- which no event answers.
pub handle_all-callbacks :
    (os : Os) (able : IsAble os) (path : List ℕ) (es : List Event)
    → (h : LeafHandler) × (handle_all os es (new_handler path) ≡ some h)
      × (bag (in_hand h) ≡ bag (asked es))
unfolding new_handler
handle_all-callbacks os able path es =
    let k = handle_all-Keeps os able es (new_handler path) (new_handler-Inv path) in
    (
      k.after,
      k.returns,
      bag-eq (in_hand k.after) (asked es) λ p. omega (arith, occurs-in_hand p k.after, k.moves p),
    )
