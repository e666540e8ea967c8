-- ===== src/Leaf/Server/Completions.antt =====
-- What follows a request keeps: completed I/Os, jobs and tasks.
use thrift_bench.Prelude.{
  ℕ, ◌+◌, ◌≡◌, refl, ap, Option, none, some, List, [], ◌∷◌, ◌++◌, length, drop, arith, sub64,
}
use thrift_bench.Prelude.Bags.{hit, Pair}
use thrift_bench.Leaf.Aio.Inflight.{is}
use thrift_bench.Leaf.Server.{
  Callback, Continuation, after_write, after_read, Pending, Job, Task, done, result, Reply,
  LeafHandler,
}
use thrift_bench.Leaf.Server.Steps.{continue, complete, work, reply, run_task}
use thrift_bench.Leaf.Server.Places.{weigh-append, Picks, has, close_fd-count}
use thrift_bench.Leaf.Server.Requests.{HasFd, Inv, pair, pair_of, task_pair, total, Keeps}

-- What follows a completed I/O leaves the descriptors alone, and has its callback.
continue-Inv :
    (ioe : ℕ) (bytes buffer : List ℕ) (c : Continuation) (h : LeafHandler)
    → Inv h
    → Inv (continue ioe bytes buffer c h)
unfolding continue
continue-Inv ioe bytes buffer (after_write cb) h v = record {
  held = v.held;
  once = v.once;
  valid = v.valid;
}
continue-Inv ioe bytes buffer (after_read cb size ios) h v = record {
  held = v.held;
  once = v.once;
  valid = v.valid;
}

continue-total :
    (k : Pair) (ioe : ℕ) (bytes buffer : List ℕ) (c : Continuation) (h : LeafHandler)
    → total k (continue ioe bytes buffer c h) ≡ total k h + hit k (pair_of c)
unfolding continue
continue-total k ioe bytes buffer (after_write cb) h =
    omega (arith, weigh-append (λ t. hit k (task_pair t)) h.queue (done cb ∷ []))
continue-total k ioe bytes buffer (after_read cb size ios) h =
    let j : Job = record {
      cb = cb;
      buffer = bytes ++ drop (length bytes) buffer;
      size = size;
      iol = sub64 ioe ios;
    } in
    omega (arith, weigh-append (λ (j : Job). hit k (pair j.cb)) h.pool (j ∷ []))

-- An I/O that completes: its file is closed, and its callback goes on.
pub complete-Keeps :
    (ioe : ℕ) (bytes : List ℕ) (o : Option (Pending × List Pending)) (h : LeafHandler)
    → Picks h.running o
    → Inv h
    → Keeps [] h (complete ioe bytes o h)
unfolding complete Picks
complete-Keeps ioe bytes none h picks v = record {
  after = h;
  returns = refl;
  inv = v;
  moves = λ k. omega arith;
}
complete-Keeps ioe bytes (some (p, running)) h picks v =
    let ((fd, e), valid) = picks.1 HasFd v.valid in
    let mine = λ (q : ℕ). ap (has q) e in
    let self : is fd fd ≡ 1 = ground arith in
    let (fds, closes, counts) =
      close_fd-count fd h.fds
        (omega (arith, v.held fd, mine fd, self, picks.0 (λ p. has fd p.fd))) in
    let h' : LeafHandler = record h { running = running; fds = fds } in
    let v' : Inv h' = record {
      held = λ q. omega (arith, v.held q, mine q, counts q, picks.0 (λ p. has q p.fd));
      once = λ q. omega (arith, v.once q, counts q);
      valid = valid;
    } in
    record {
      after = continue ioe bytes p.buffer p.continuation h';
      returns = rw (e, closes) refl;
      inv = continue-Inv ioe bytes p.buffer p.continuation h' v';
      moves = λ k. omega (
        arith,
        continue-total k ioe bytes p.buffer p.continuation h',
        picks.0 (λ i. hit k (pair_of i.continuation)),
      );
    }

pub work-Keeps :
    (cs ce : ℕ) (o : Option (Job × List Job)) (h : LeafHandler)
    → Picks h.pool o
    → Inv h
    → Keeps [] h (some (work cs ce o h))
unfolding work Picks
work-Keeps cs ce none h picks v = record {
  after = h;
  returns = refl;
  inv = v;
  moves = λ k. omega arith;
}
work-Keeps cs ce (some (j, pool)) h picks v =
    let t = result j.cb j.buffer j.size j.iol (sub64 ce cs) in
    record {
      after = record h { pool = pool; queue = h.queue ++ t ∷ [] };
      returns = refl;
      inv = record { held = v.held; once = v.once; valid = v.valid };
      moves = λ k. omega (
        arith,
        weigh-append (λ t. hit k (task_pair t)) h.queue (t ∷ []),
        picks.0 (λ j. hit k (pair j.cb)),
      );
    }

reply-pair : (t : Task) → pair (reply t).0 ≡ task_pair t
unfolding reply
reply-pair (done cb) = refl
reply-pair (result cb buffer size iol cl) = refl

pub run_task-Keeps :
    (o : Option (Task × List Task)) (h : LeafHandler)
    → Picks h.queue o
    → Inv h
    → Keeps [] h (some (run_task o h))
unfolding run_task Picks
run_task-Keeps none h picks v = record {
  after = h;
  returns = refl;
  inv = v;
  moves = λ k. omega arith;
}
run_task-Keeps (some (t, queue)) h picks v = record {
  after = record h { queue = queue; results = h.results ++ reply t ∷ [] };
  returns = refl;
  inv = record { held = v.held; once = v.once; valid = v.valid };
  moves = λ k. omega (
    arith,
    weigh-append (λ (r : Callback × Reply). hit k (pair r.0)) h.results (reply t ∷ []),
    ap (hit k) (reply-pair t),
    picks.0 (λ t. hit k (task_pair t)),
  );
}
