-- ===== src/KeyServer/Ganesha/Threads/Races.antt =====
-- What threads that share the data get.
use thrift_bench.Prelude.{ℕ, ◌≡◌, ◌≢◌, refl, true, false, List, [], ◌∷◌, ◌==◌, replicate, arith}
use thrift_bench.Prelude.Text.{Text}
use thrift_bench.KeyServer.{BenchmarkHandler}
use thrift_bench.KeyServer.Ganesha.{init_data}
use thrift_bench.KeyServer.Ganesha.Threads.{compares, got, Thread, statement, turn, run}

abbrev pub asks : ℕ → Thread
asks size = record { size = size; place = compares }

abbrev pub has : ℕ → Text → Thread
has size t = record { size = size; place = got t }

-- Two threads ask for two sizes at a time, from a handler that holds neither. There is an order of
-- their statements after which the first has got the data of the second, and so does every later
-- thread that asks for the first size: the handler keeps that size with the data of the other.
pub run-mixed :
    (a b : ℕ) (h : BenchmarkHandler)
    → h.cached_size ≢ a
    → h.cached_size ≢ b
    → (schedule : List ℕ) × (run schedule (asks a ∷ asks b ∷ []) h ≡ (
      has a (replicate b b'A') ∷ has b (replicate b b'A') ∷ [],
      record { cached_size = a; cached = replicate b b'A' },
    ))
      × ((init_data a (run schedule (asks a ∷ asks b ∷ []) h).1).1 ≡ replicate b b'A')
unfolding run turn statement init_data
run-mixed a b h not_a not_b =
    let first : h.cached_size == a ≡ false = ground (arith, not_a) in
    let second : h.cached_size == b ≡ false = ground (arith, not_b) in
    let self : a == a ≡ true = ground arith in
    (0 ∷ 1 ∷ 0 ∷ 1 ∷ 1 ∷ 1 ∷ 0 ∷ 0 ∷ [], rw (first, second) refl, rw (first, second) (rw self refl))
