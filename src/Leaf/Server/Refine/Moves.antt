-- ===== src/Leaf/Server/Refine/Moves.antt =====
-- The leaf server over `AsyncIO`: every event of the server is a few steps of the system of Leaf/Aio.
use thrift_bench.Prelude.{
  ℕ, ◌+◌, ◌≡◌, refl, ap, ◌∙◌, Option, none, some, List, [], ◌∷◌, length, length-append, arith,
  false, ◌++◌, drop, sub64,
}
use thrift_bench.Leaf.Aio.{Io, IoType, Event as AioEvent, new_io}
use thrift_bench.Leaf.Aio.Inflight.{count, is}
use thrift_bench.Leaf.Aio.Invariant.{Reach-Inv}
use thrift_bench.Leaf.Aio.Rounds.{complete-Completed}
use thrift_bench.Leaf.Server.{
  Os, Callback, Continuation, after_write, after_read, Pending, Job, Task, LeafHandler,
  filename_to_path, init_asyncio, int_of, opened, close_fd, write_flags, read_flags, async_tm_write,
  async_tm_read, submit, done, result,
}
use thrift_bench.Leaf.Server.Steps.{
  pick_at, continue, complete, work, run_task, Event, asks_write, asks_read, completes, works, runs,
  handle, reply,
}
use thrift_bench.Leaf.Server.Places.{Picks, pick_at-Picks}
use thrift_bench.Leaf.Server.Refine.{
  at, Block, IsFresh, Then, then-bind, new_io-fields, blocks_other, is_self, Sim, submit-Sim,
  same-Sim, handed, asks, handed-submit, length-weigh,
}

-- What holds of every result.
pub Then-map :
    (P Q : LeafHandler → Type 0) (o : Option LeafHandler)
    → ((h : LeafHandler) → P h → Q h)
    → Then o P
    → Then o Q
Then-map P Q none f t = tt
Then-map P Q (some h) f t = f h t

module _ (eventfd : ℕ) (heap : ℕ → Io) where
  abbrev pub Tied : (pushes : ℕ → ℕ) → LeafHandler → Type 0
  Tied pushes h = Sim eventfd heap pushes (handed h) h

  -- A submission, once the handler has its file.
  submit-Tied :
      (os : Os) (p : Pending) (h h' : LeafHandler) (pushes : ℕ → ℕ) (address : ℕ)
      → (p.io.address ≡ address) × (p.io.fulfilled ≡ false)
      → at address h.running + at address h.refused ≡ 0
      → h'.running ≡ h.running
      → h'.refused ≡ h.refused
      → handed h' ≡ handed h
      → Tied pushes h
      → Tied (λ q. pushes q + is q address) (submit os p h')
  submit-Tied os p h h' pushes address f new r u same m =
      let m' =
        same-Sim eventfd heap h h' pushes pushes (handed h) (handed h') r u (λ q. refl) same m in
      let s =
        submit-Sim eventfd heap os p h' pushes (handed h') address f.1 f.0
          (ap (λ a. at a h'.running + at a h'.refused) f.0
            ∙ (λ i. at address (r i) + at address (u i))
            ∙ new)
          m' in
      same-Sim eventfd heap (submit os p h') (submit os p h') (λ q. pushes q + is q address)
        (λ q. pushes q + is q address) (handed h') (handed (submit os p h')) refl refl (λ q. refl)
        (handed-submit os p h') s

  async_tm_write-Sim :
      (os : Os) (address : ℕ) (cb : Callback) (filename contents : List ℕ) (h : LeafHandler)
      (pushes : ℕ → ℕ)
      → at address h.running + at address h.refused ≡ 0
      → Tied pushes h
      → Then
          (async_tm_write os address cb filename contents h)
          (Tied (λ q. pushes q + is q address))
  unfolding async_tm_write
  async_tm_write-Sim os address cb filename contents h pushes new m =
      then-bind (os.open_at h.fds (filename_to_path h filename) write_flags) _
        (Tied (λ q. pushes q + is q address))
        λ fd opens.
          then-bind (new_io os.memalign address fd (length contents) 0 IoType.write) _
            (Tied (λ q. pushes q + is q address))
            λ io made.
              submit-Tied os
                (record { fd = some fd; io = io; buffer = contents; continuation = after_write cb })
                h (record h { asyncio_base = init_asyncio cb h.asyncio_base; fds = fd ∷ h.fds })
                pushes address
                (new_io-fields os.memalign address fd (length contents) 0 IoType.write io made) new
                refl refl refl m

  async_tm_read-Sim :
      (os : Os) (address ios : ℕ) (stale : List ℕ) (cb : Callback) (filename : List ℕ) (size : ℕ)
      (h : LeafHandler) (pushes : ℕ → ℕ)
      → at address h.running + at address h.refused ≡ 0
      → Tied pushes h
      → Then
          (async_tm_read os address ios stale cb filename size h)
          (Tied (λ q. pushes q + is q address))
  unfolding async_tm_read
  async_tm_read-Sim os address ios stale cb filename size h pushes new m =
      let fd = os.open_at h.fds (filename_to_path h filename) read_flags in
      then-bind (new_io os.memalign address (int_of fd) size 0 IoType.read) _
        (Tied (λ q. pushes q + is q address))
        λ io made.
          submit-Tied os
            (record { fd = fd; io = io; buffer = stale; continuation = after_read cb size ios }) h
            (record h { asyncio_base = init_asyncio cb h.asyncio_base; fds = opened fd h.fds })
            pushes address
            (new_io-fields os.memalign address (int_of fd) size 0 IoType.read io made) new refl refl
            refl m

  -- A completed I/O leaves one more answer.
  continue-fields :
      (ioe : ℕ) (bytes buffer : List ℕ) (k : Continuation) (h : LeafHandler)
      → ((continue ioe bytes buffer k h).running ≡ h.running)
        × ((continue ioe bytes buffer k h).refused ≡ h.refused)
        × (handed (continue ioe bytes buffer k h) ≡ handed h + 1)
  unfolding continue
  continue-fields ioe bytes buffer (after_write cb) h =
      (refl, refl, omega (arith, length-append h.queue (done cb ∷ [])))
  continue-fields ioe bytes buffer (after_read cb size ios) h = (
    refl,
    refl,
    (let j : Job = record {
      cb = cb;
      buffer = bytes ++ drop (length bytes) buffer;
      size = size;
      iol = sub64 ioe ios;
    } in
        omega (arith, length-append h.pool (j ∷ []))),
  )

  complete-Sim :
      (ioe : ℕ) (bytes : List ℕ) (o : Option (Pending × List Pending)) (h : LeafHandler)
      (pushes : ℕ → ℕ)
      → Picks h.running o
      → Tied pushes h
      → Then (complete ioe bytes o h) (Tied pushes)
  unfolding complete Picks
  complete-Sim ioe bytes none h pushes k m = m
  complete-Sim ioe bytes (some (p, ps)) h pushes k m =
      then-bind (close_fd p.fd h.fds) _ (Tied pushes) λ fds closes.
        let a = p.io.address in
        let e : AioEvent = record { user = a; res = length bytes; res2 = 0 } in
        let v = Reach-Inv m.reach in
        let self = is_self a in
        let all = k.1 (Block eventfd m.system) m.blocks in
        let split = k.0 (λ (i : Pending). is a i.io.address) in
        let c =
          complete-Completed eventfd heap e m.system m.reach m.quiet
            (omega (arith, m.running a, split, self)) in
        let h' : LeafHandler = record h { running = ps; fds = fds } in
        let n = continue-fields ioe bytes p.buffer p.continuation h' in
        same-Sim eventfd heap h' (continue ioe bytes p.buffer p.continuation h') pushes pushes
          (handed h + 1) (handed (continue ioe bytes p.buffer p.continuation h')) n.0 n.1
          (λ q. refl) n.2
          (record {
            system = c.after;
            reach = c.reach;
            quiet = c.quiet;
            running = λ q.
                omega (arith, c.running q, m.running q, k.0 (λ (i : Pending). is q i.io.address));
            refused = λ q. ap (count q) c.same_refused ∙ m.refused q;
            blocks =
                blocks_other eventfd a m.system c.after ps
                  (omega (arith, m.running a, split, self, v.owned a, v.once a)) c.others all.1;
            same_eventfd = c.same_eventfd ∙ m.same_eventfd;
            pushed = λ q. ap (count q) c.same_pushed ∙ m.pushed q;
            dones = omega (arith, ap length c.done, m.dones);
          })

  work-Sim :
      (cs ce : ℕ) (o : Option (Job × List Job)) (h : LeafHandler) (pushes : ℕ → ℕ)
      → Picks h.pool o
      → Tied pushes h
      → Tied pushes (work cs ce o h)
  unfolding work Picks
  work-Sim cs ce none h pushes k m = m
  work-Sim cs ce (some (j, js)) h pushes k m =
      let t : Task = result j.cb j.buffer j.size j.iol (sub64 ce cs) in
      same-Sim eventfd heap h _ pushes pushes (handed h) _ refl refl (λ q. refl)
        (omega (
          arith,
          k.0 (λ x. 1),
          length-weigh js,
          length-weigh h.pool,
          length-append h.queue (t ∷ []),
        ))
        m

  run_task-Sim :
      (o : Option (Task × List Task)) (h : LeafHandler) (pushes : ℕ → ℕ)
      → Picks h.queue o
      → Tied pushes h
      → Tied pushes (run_task o h)
  unfolding run_task Picks
  run_task-Sim none h pushes k m = m
  run_task-Sim (some (t, ts)) h pushes k m =
      same-Sim eventfd heap h _ pushes pushes (handed h) _ refl refl (λ q. refl)
        (omega (
          arith,
          k.0 (λ x. 1),
          length-weigh ts,
          length-weigh h.queue,
          length-append h.results (reply t ∷ []),
        ))
        m

  -- A handler whose I/Os are pushed as often, by other words.
  pub retie :
      (pushes pushes' : ℕ → ℕ) (h : LeafHandler)
      → ((q : ℕ) → pushes' q ≡ pushes q)
      → Tied pushes h
      → Tied pushes' h
  retie pushes pushes' h e m =
      same-Sim eventfd heap h h pushes pushes' (handed h) (handed h) refl refl e refl m

  pub handle-Sim :
      (os : Os) (e : Event) (h : LeafHandler) (pushes : ℕ → ℕ)
      → IsFresh e h
      → Tied pushes h
      → Then (handle os e h) (Tied (λ q. pushes q + asks q e))
  unfolding handle
  handle-Sim os (asks_write address cb filename contents) h pushes new m =
      async_tm_write-Sim os address cb filename contents h pushes new m
  handle-Sim os (asks_read address ios stale cb filename size) h pushes new m =
      async_tm_read-Sim os address ios stale cb filename size h pushes new m
  handle-Sim os (completes k ioe bytes) h pushes new m =
      Then-map (Tied pushes) (Tied (λ q. pushes q + 0)) (complete ioe bytes (pick_at k h.running) h)
        (λ h' t. retie pushes (λ q. pushes q + 0) h' (λ q. omega arith) t)
        (complete-Sim ioe bytes (pick_at k h.running) h pushes (pick_at-Picks k h.running) m)
  handle-Sim os (works k cs ce) h pushes new m =
      retie pushes (λ q. pushes q + 0) (work cs ce (pick_at k h.pool) h) (λ q. omega arith)
        (work-Sim cs ce (pick_at k h.pool) h pushes (pick_at-Picks k h.pool) m)
  handle-Sim os (runs k) h pushes new m =
      retie pushes (λ q. pushes q + 0) (run_task (pick_at k h.queue) h) (λ q. omega arith)
        (run_task-Sim (pick_at k h.queue) h pushes (pick_at-Picks k h.queue) m)
