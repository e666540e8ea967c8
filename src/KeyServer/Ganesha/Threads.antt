-- ===== src/KeyServer/Ganesha/Threads.antt =====
-- `init_data` of fbthrift/exp1/GaneshaDBServer.cpp, statement by statement, on several threads that
-- share the handler: the server has several, and nothing locks it. A statement is taken to be atomic
-- here. C++ promises less, and allows these orders among others, so that what is shown with them is
-- that an order exists, never that all orders are harmless.
pub mod Races
use thrift_bench.Prelude.{ℕ, zero, suc, ◌+◌, List, [], ◌∷◌, ◌==◌, if◌then◌else◌, replicate}
use thrift_bench.Prelude.Text.{Text}
use thrift_bench.KeyServer.{BenchmarkHandler}

-- The statement that comes next, and what `ret_data` is in the end.
pub data Place : Type 0 where
  compares assigns resizes copies : Place
  got : Text → Place

pub record Thread : Type 0 where
  pub size : ℕ
  pub place : Place

-- One statement of a call for a size.
pub statement : (size : ℕ) → Place → BenchmarkHandler → Place × BenchmarkHandler
statement size compares h = (if h.cached_size == size then copies else assigns, h)
statement size assigns h = (resizes, record h { cached = replicate size b'A' })
statement size resizes h = (copies, record h { cached_size = size })
statement size copies h = (got h.cached, h)
statement size (got t) h = (got t, h)

-- A turn of the k-th thread.
pub turn : ℕ → List Thread → BenchmarkHandler → List Thread × BenchmarkHandler
unfolding statement
turn k [] h = ([], h)
turn zero (t ∷ ts) h = let r = statement t.size t.place h in (record t { place = r.0 } ∷ ts, r.1)
turn (suc k) (t ∷ ts) h = let r = turn k ts h in (t ∷ r.0, r.1)

-- The turns of a schedule.
pub run : List ℕ → List Thread → BenchmarkHandler → List Thread × BenchmarkHandler
unfolding turn
run [] ts h = (ts, h)
run (k ∷ ks) ts h = let r = turn k ts h in run ks r.0 r.1
