-- ===== src/Leaf/Server.antt =====
-- `LeafHandler` of fbthrift/exp3/LEAF/LeafServer.cpp: requests that open a file, submit an I/O, close
-- the file when it completes, and answer from the event base. `none` is a failed assertion, or a
-- descriptor that is closed when it is not open.
pub mod Steps
pub mod Places
pub mod Requests
pub mod Completions
pub mod Invariant
pub mod Descriptors
pub mod Reads
pub mod Refine
pub mod Drain
use thrift_bench.Prelude.{
  ℕ, zero, suc, ◌+◌, ◌-◌, ◌^◌, ◌≡◌, Bool, true, false, Option, none, some, List, [], ◌∷◌, ◌++◌,
  ◌>>=◌, length, take, drop, ◌==◌, if◌then◌else◌, sub64,
}
use thrift_bench.Leaf.Aio.{Io, IoType, new_io}
use thrift_bench.Leaf.Aio.Inflight.{count}

-- The flags of `open`.
pub record Flags : Type 0 where
  pub writes : Bool
  pub truncate : Bool
  pub direct : Bool
  pub create : Bool

-- What the handler needs of the system. `open_at` has the descriptors that are open and the path; a
-- new descriptor is not one of those. `accepts` is `io_submit`, with the number of I/Os that run: it
-- refuses a bad descriptor. `memalign` gives an address or fails.
pub record Os : Type 0 where
  pub open_at : List ℕ → List ℕ → Flags → Option ℕ
  pub open_fresh :
      (fds path : List ℕ) (flags : Flags) (fd : ℕ)
      → open_at fds path flags ≡ some fd
      → count fd fds ≡ 0
  pub accepts : ℕ → Option ℕ → Bool
  pub accepts_valid : (n : ℕ) → accepts n none ≡ false
  pub memalign : ℕ → Option ℕ

-- A callback, by its number, and its event base.
pub record Callback : Type 0 where
  pub id : ℕ
  pub base : ℕ

-- What the lambda given to `then` keeps.
pub data Continuation : Type 0 where
  after_write : Callback → Continuation
  after_read : Callback → (size ios : ℕ) → Continuation

pub record Pending : Type 0 where
  pub fd : Option ℕ
  pub io : Io
  pub buffer : List ℕ
  pub continuation : Continuation

-- `LeafBenchmarkData`, as far as it is set.
pub record LeafBenchmarkData : Type 0 where
  pub io_latency : ℕ
  pub contents : List ℕ
  pub cpu_consumed : ℕ

-- A job for the thread manager, and a task for an event base.
pub record Job : Type 0 where
  pub cb : Callback
  pub buffer : List ℕ
  pub size : ℕ
  pub iol : ℕ

pub data Task : Type 0 where
  done : Callback → Task
  result : Callback → (buffer : List ℕ) → (size iol cl : ℕ) → Task

pub data Reply : Type 0 where
  written : Reply
  data_read : LeafBenchmarkData → Reply

-- `fds` are the open descriptors, `refused` the I/Os that `io_submit` did not take.
pub record LeafHandler : Type 0 where
  pub path : List ℕ
  pub asyncio_base : Option ℕ
  pub fds : List ℕ
  pub running : List Pending
  pub refused : List Pending
  pub pool : List Job
  pub queue : List Task
  pub results : List (Callback × Reply)

unfoldable pub new_handler : List ℕ → LeafHandler
new_handler path = record {
  path = path;
  asyncio_base = none;
  fds = [];
  running = [];
  refused = [];
  pool = [];
  queue = [];
  results = [];
}

unfoldable pub filename_to_path : LeafHandler → List ℕ → List ℕ
filename_to_path h filename = h.path ++ (b'/' ∷ filename)

-- `asyncio_inited_` and `asyncio_.init`: the base of the first request.
pub init_asyncio : Callback → Option ℕ → Option ℕ
init_asyncio cb none = some cb.base
init_asyncio cb (some base) = some base

-- A descriptor as an `int`.
abbrev pub int_of : Option ℕ → ℕ
int_of none = 2 ^ 32 - 1
int_of (some fd) = fd

abbrev pub opened : Option ℕ → List ℕ → List ℕ
opened none fds = fds
opened (some fd) fds = fd ∷ fds

-- `close`
pub close_fd : Option ℕ → List ℕ → Option (List ℕ)
close_fd none fds = none
close_fd (some fd) [] = none
close_fd (some fd) (f ∷ fds) =
    if f == fd then some fds else (close_fd (some fd) fds >>= λ r. some (f ∷ r))

abbrev pub write_flags : Flags
write_flags = record { writes = true; truncate = true; direct = true; create = true }

abbrev pub read_flags : Flags
read_flags = record { writes = false; truncate = true; direct = true; create = false }

-- `ioSubmit`, which does not look at what `io_submit` returns.
pub submit : Os → Pending → LeafHandler → LeafHandler
submit os p h =
    if os.accepts (length h.running) p.fd
    then record h { running = h.running ++ p ∷ [] }
    else record h { refused = h.refused ++ p ∷ [] }

-- `address` is that of the new `IO`.
pub async_tm_write :
    Os → (address : ℕ) → Callback → (filename contents : List ℕ) → LeafHandler → Option LeafHandler
unfolding submit filename_to_path init_asyncio
async_tm_write os address cb filename contents h = do
  fd ← os.open_at h.fds (filename_to_path h filename) write_flags
  write ← new_io os.memalign address fd (length contents) 0 IoType.write
  some (
      submit os
        (record { fd = some fd; io = write; buffer = contents; continuation = after_write cb })
        (record h { asyncio_base = init_asyncio cb h.asyncio_base; fds = fd ∷ h.fds }))

-- `stale` is what the new buffer holds, `ios` the time that is read first.
pub async_tm_read :
    Os
    → (address ios : ℕ) → (stale : List ℕ) → Callback
    → (filename : List ℕ) → (size : ℕ) → LeafHandler
    → Option LeafHandler
unfolding submit filename_to_path init_asyncio
async_tm_read os address ios stale cb filename size h = do
  let fd = os.open_at h.fds (filename_to_path h filename) read_flags
  read ← new_io os.memalign address (int_of fd) size 0 IoType.read
  some (
      submit os
        (record { fd = fd; io = read; buffer = stale; continuation = after_read cb size ios })
        (record h { asyncio_base = init_asyncio cb h.asyncio_base; fds = opened fd h.fds }))
