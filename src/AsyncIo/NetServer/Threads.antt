-- ===== src/AsyncIo/NetServer/Threads.antt =====
-- `main` of AsyncIO/net-server.cpp: each accepted connection has a thread with an event base, a
-- socket and a read callback of its own. The threads share nothing, so that a run is a sequence of
-- their steps.
pub mod Streams
pub mod Runs
use thrift_bench.Prelude.{
  ℕ, Bool, true, Option, none, some, List, [], ◌∷◌, ◌++◌, ◌>>=◌, ◌>>◌, assert, lookup, insert,
  erase, if◌then◌else◌,
}
use thrift_bench.AsyncIo.Request.{
  ReadCallback, request_size, new_callback, register_read_callback, read_eof,
}
use thrift_bench.AsyncIo.Request.Chunks.{on_readable}
use thrift_bench.AsyncIo.NetServer.{Connection, fresh, echo, connection_accepted}

-- `stream` are the bytes that the socket has and the callback has not.
pub record Thread : Type 0 where
  pub stream : List ℕ
  pub callback : ReadCallback
  pub state : Connection

pub data Event : Type 0 where
  accepts : (fd : ℕ) → Event
  arrives : (fd : ℕ) → (bytes : List ℕ) → Event
  reads : (fd k : ℕ) → Event
  ends : (fd : ℕ) → Event

-- `cloexec` tells of which descriptors `fcntl` returns zero.
module _ (malloc : ℕ → Option (List ℕ)) (cloexec : ℕ → Bool) where
  -- The lambda given to the accept callback, and the one that the thread runs.
  pub accept : (fd : ℕ) → List (ℕ × Thread) → Option (List (ℕ × Thread))
  accept fd threads = do
    assert (cloexec fd)
    rcb ← new_callback request_size
    some (
        insert fd (record { stream = []; callback = register_read_callback rcb; state = fresh })
          threads)

  -- The event loop of a thread finds its socket readable.
  pub read_thread : ℕ → Thread → Option Thread
  read_thread k t = do
    (rcb, ds, rest) ← on_readable malloc k t.stream t.callback
    c ← echo ds t.state
    some (record { stream = rest; callback = rcb; state = c })

  pub arrive_at : (fd : ℕ) → List ℕ → Option Thread → List (ℕ × Thread) → List (ℕ × Thread)
  arrive_at fd bytes none threads = threads
  arrive_at fd bytes (some t) threads = insert fd (record t { stream = t.stream ++ bytes }) threads

  pub read_at : (fd k : ℕ) → Option Thread → List (ℕ × Thread) → Option (List (ℕ × Thread))
  unfolding read_thread
  read_at fd k none threads = some threads
  read_at fd k (some t) threads = do t' ← read_thread k t; some (insert fd t' threads)

  -- `readEOF` or `readErr` ends the loop of the thread's event base, and with it the thread.
  pub end_at : (fd : ℕ) → Option Thread → List (ℕ × Thread) → List (ℕ × Thread)
  end_at fd none threads = threads
  end_at fd (some t) threads =
      if (read_eof t.callback).terminated then erase fd threads else threads

  pub handle : Event → List (ℕ × Thread) → Option (List (ℕ × Thread))
  unfolding accept arrive_at read_at end_at
  handle (accepts fd) threads = connection_accepted true fd >>= λ fds. accept fd threads
  handle (arrives fd bytes) threads = some (arrive_at fd bytes (lookup fd threads) threads)
  handle (reads fd k) threads = read_at fd k (lookup fd threads) threads
  handle (ends fd) threads = some (end_at fd (lookup fd threads) threads)

  pub handle_all : List Event → List (ℕ × Thread) → Option (List (ℕ × Thread))
  unfolding handle
  handle_all [] threads = some threads
  handle_all (e ∷ es) threads = handle e threads >>= λ t. handle_all es t
