-- ===== src/Clients/Thrift/Served.antt =====
-- A client with the server of thrift/exp2 behind its connection.
use thrift_bench.Prelude.{
  ℕ, zero, suc, ◌≡◌, ap, sym, ◌∙◌, true, Option, some, List, [], ◌∷◌, ◌++◌, replicate, length,
  append_assoc, append-nil,
}
use thrift_bench.Prelude.Text.{Text, codes}
use thrift_bench.KeyServer.{BenchmarkData, key_put}
use thrift_bench.KeyServer.Ganesha.{new_data}
use thrift_bench.Clients.Thrift.{finished, bench_of, puts, start_benchmark}

-- The requests that have reached the handler.
abbrev Calls : Type 0
Calls = List (Text × BenchmarkData)

-- A connection to the handler, which reads the clock for the n-th request at `clock n`.
unfoldable pub connected :
    (clock : ℕ → ℕ × ℕ) → Text → BenchmarkData → Calls → Option BenchmarkData × Calls
connected clock key bd calls =
    let t = clock (length calls) in (some (key_put t.0 t.1 new_data bd), calls ++ (key, bd) ∷ [])

puts-connected :
    (clock : ℕ → ℕ × ℕ) (n size : ℕ) (calls : Calls)
    → puts (connected clock) n size calls
      ≡ (finished, calls ++ replicate n (codes "1", bench_of size))
unfolding puts connected key_put
puts-connected clock zero size calls = ap (λ c. (finished, c)) (sym (append-nil calls))
puts-connected clock (suc n) size calls =
    puts-connected clock n size (calls ++ (codes "1", bench_of size) ∷ [])
    ∙ ap (λ c. (finished, c))
        (append_assoc calls ((codes "1", bench_of size) ∷ [])
          (replicate n (codes "1", bench_of size)))

-- A client of thrift/exp2 that is connected to the handler of its server ends, whatever the clock:
-- no exception is caught and its assertion on the reply does not fail; and the handler has got just
-- the number of puts that was asked for, each with the key "1" and as many letters as the size says.
pub start_benchmark-connected :
    (clock : ℕ → ℕ × ℕ) (nrequests size : ℕ)
    → start_benchmark (connected clock) true nrequests size []
      ≡ (finished, replicate nrequests (codes "1", bench_of size))
unfolding start_benchmark
start_benchmark-connected clock nrequests size = puts-connected clock nrequests size []
