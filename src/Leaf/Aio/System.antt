-- ===== src/Leaf/Aio/System.antt =====
-- `AsyncIO` with its kernel queue, and the steps that its threads and the kernel take in any order:
-- `ioSubmit` in its two halves, the completion of an I/O, and `iosCompleted` on the event loop.
use thrift_bench.Prelude.{
  ℕ, ◌+◌, ◌<◌, ◌≡◌, false, Option, some, List, [], ◌∷◌, ◌++◌, ◌==◌, if◌then◌else◌, ◌>>=◌, length,
}
use thrift_bench.Leaf.Aio.{Io, Event, aim, set_result, complete_promise, io_result, take_out}
use thrift_bench.Leaf.Aio.Inflight.{count, is}

pub record System : Type 0 where
  pub heap : ℕ → Io  -- the `IO` objects by address
  pub eventfd : ℕ
  pub inflight : List ℕ  -- `inflight_`
  pub entered : List ℕ  -- pushed, and not yet given to `io_submit`
  pub running : List ℕ  -- accepted by the kernel
  pub refused : List ℕ  -- not accepted by `io_submit`
  pub events : List Event  -- completed, and not yet fetched
  pub signals : ℕ  -- the counter behind `eventfd_`
  pub wanted : ℕ  -- `nevents`, from `eventfd_read` to `io_getevents`
  pub batch : List Event  -- `events`, as far as the loop has to go
  pub pushed : List ℕ  -- all addresses ever pushed
  pub done : List (ℕ × ℕ)  -- the fulfilled promises: address and result

abbrev pub put : (ℕ → Io) → ℕ → Io → ℕ → Io
put h p io q = if p == q then io else h q

abbrev pub init : ℕ → (ℕ → Io) → System
init eventfd heap = record {
  heap = heap;
  eventfd = eventfd;
  inflight = [];
  entered = [];
  running = [];
  refused = [];
  events = [];
  signals = 0;
  wanted = 0;
  batch = [];
  pushed = [];
  done = [];
}

-- The first half of `ioSubmit`: the I/O goes into `inflight_`, and its control block is aimed.
unfoldable pub push : Io → System → System
push io s = record s {
  heap = put s.heap io.address (aim s.eventfd io);
  inflight = s.inflight ++ io.address ∷ [];
  entered = io.address ∷ s.entered;
  pushed = io.address ∷ s.pushed;
}

-- One round of the inner loop of `iosCompleted`.
unfoldable pub complete_one : Event → List Event → System → Option System
complete_one e rest s = do
  ys ← take_out e.user s.inflight
  io ← set_result (io_result e) (s.heap e.user)
  io' ← complete_promise e.user io
  some (record s {
    heap = put s.heap e.user io';
    inflight = ys;
    batch = rest;
    done = (e.user, io_result e) ∷ s.done;
  })

-- A list without one of its elements, wherever it stood.
abbrev pub Without : ℕ → List ℕ → List ℕ → Type 0
Without p xs rest = (q : ℕ) → count q rest + is q p ≡ count q xs

pub data Step (s : System) : System → Type 0 where
  -- a thread enters an object of its own, whose address no other live object has
  enter : (io : Io) → io.fulfilled ≡ false → count io.address s.inflight ≡ 0 → Step s (push io s)
  -- `io_submit` takes it
  accept :
      (p : ℕ) (rest : List ℕ)
      → Without p s.entered rest
      → Step s (record s { entered = rest; running = p ∷ s.running })
  -- `io_submit` does not take it; its result is not looked at
  refuse :
      (p : ℕ) (rest : List ℕ)
      → Without p s.entered rest
      → Step s (record s { entered = rest; refused = p ∷ s.refused })
  -- the kernel completes one, and signals it
  finish :
      (e : Event) (rest : List ℕ)
      → Without e.user s.running rest
      → Step s (record s { running = rest; events = s.events ++ e ∷ []; signals = s.signals + 1 })
  -- `eventfd_read` at the head of the loop, of a counter that is not 0
  read :
      0 < s.signals
      → s.wanted ≡ 0
      → s.batch ≡ []
      → Step s (record s { wanted = s.signals; signals = 0 })
  -- `io_getevents` for as many events as were read
  fetch :
      (es rest : List Event)
      → 0 < s.wanted
      → length es ≡ s.wanted
      → s.events ≡ es ++ rest
      → Step s (record s { events = rest; wanted = 0; batch = es })
  -- the inner loop
  complete :
      (e : Event) (rest : List Event) {t : System}
      → s.batch ≡ e ∷ rest
      → complete_one e rest s ≡ some t
      → Step s t

pub data Reach (eventfd : ℕ) (heap : ℕ → Io) : System → Type 0 where
  start : Reach eventfd heap (init eventfd heap)
  later : {s t : System} → Reach eventfd heap s → Step s t → Reach eventfd heap t
