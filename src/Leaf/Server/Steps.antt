-- ===== src/Leaf/Server/Steps.antt =====
-- `LeafHandler` of fbthrift/exp3/LEAF/LeafServer.cpp: what follows a request, in any order.
use thrift_bench.Prelude.{
  ℕ, zero, suc, Option, none, some, List, [], ◌∷◌, ◌++◌, ◌>>=◌, length, take, drop, sub64,
}
use thrift_bench.Leaf.Server.{
  Os, Callback, Continuation, after_write, after_read, Pending, Job, Task, done, result, Reply,
  written, data_read, LeafHandler, close_fd, async_tm_write, async_tm_read,
}

-- The k-th of a list, and the others.
unfoldable pub pick_at {ℓ} : {A : Type ℓ} → ℕ → List A → Option (A × List A)
pick_at k [] = none
pick_at zero (x ∷ xs) = some (x, xs)
pick_at (suc k) (x ∷ xs) = do (y, ys) ← pick_at k xs; some (y, x ∷ ys)

-- The lambda of a completed I/O, at `ioe`: the kernel put these bytes into the buffer of a read.
unfoldable pub continue :
    (ioe : ℕ) → (bytes buffer : List ℕ) → Continuation → LeafHandler → LeafHandler
continue ioe bytes buffer (after_write cb) h = record h { queue = h.queue ++ done cb ∷ [] }
continue ioe bytes buffer (after_read cb size ios) h = record h {
  pool =
      h.pool
      ++ (record {
        cb = cb;
        buffer = bytes ++ drop (length bytes) buffer;
        size = size;
        iol = sub64 ioe ios;
      })
        ∷ [];
}

unfoldable pub complete :
    (ioe : ℕ)
    → (bytes : List ℕ) → Option (Pending × List Pending)
    → LeafHandler
    → Option LeafHandler
unfolding close_fd continue
complete ioe bytes none h = some h
complete ioe bytes (some (p, running)) h = close_fd p.fd h.fds >>= λ fds.
    some (continue ioe bytes p.buffer p.continuation (record h { running = running; fds = fds }))

-- The lambda of the thread manager, between two readings of the clock.
unfoldable pub work : (cs ce : ℕ) → Option (Job × List Job) → LeafHandler → LeafHandler
work cs ce none h = h
work cs ce (some (j, pool)) h = record h {
  pool = pool;
  queue = h.queue ++ result j.cb j.buffer j.size j.iol (sub64 ce cs) ∷ [];
}

-- The lambda of the event base.
unfoldable pub reply : Task → Callback × Reply
reply (done cb) = (cb, written)
reply (result cb buffer size iol cl) =
    (cb, data_read (record { io_latency = iol; contents = take size buffer; cpu_consumed = cl }))

unfoldable pub run_task : Option (Task × List Task) → LeafHandler → LeafHandler
unfolding reply
run_task none h = h
run_task (some (t, queue)) h = record h { queue = queue; results = h.results ++ reply t ∷ [] }

-- What can happen: requests; an I/O that completes, a job that a thread takes and a task that an event
-- base runs, each the k-th of those there are.
pub data Event : Type 0 where
  asks_write : (address : ℕ) → Callback → (filename contents : List ℕ) → Event
  asks_read :
      (address ios : ℕ) → (stale : List ℕ) → Callback → (filename : List ℕ) → (size : ℕ) → Event
  completes : (k ioe : ℕ) → (bytes : List ℕ) → Event
  works : (k cs ce : ℕ) → Event
  runs : (k : ℕ) → Event

unfoldable pub handle : Os → Event → LeafHandler → Option LeafHandler
unfolding async_tm_write async_tm_read pick_at complete work run_task
handle os (asks_write address cb filename contents) h =
    async_tm_write os address cb filename contents h
handle os (asks_read address ios stale cb filename size) h =
    async_tm_read os address ios stale cb filename size h
handle os (completes k ioe bytes) h = complete ioe bytes (pick_at k h.running) h
handle os (works k cs ce) h = some (work cs ce (pick_at k h.pool) h)
handle os (runs k) h = some (run_task (pick_at k h.queue) h)

unfoldable pub handle_all : Os → List Event → LeafHandler → Option LeafHandler
unfolding handle
handle_all os [] h = some h
handle_all os (e ∷ es) h = handle os e h >>= λ h'. handle_all os es h'
