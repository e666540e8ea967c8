-- ===== src/KeyServer/Ganesha/Chance.antt =====
-- What the handler answers, by what its memory held before.
use thrift_bench.Prelude.{
  ℕ, ◌≡◌, refl, ap, ap₂, ◌∙◌, inl, inr, Bool, true, false, List, [], ◌∷◌, ◌==◌, if◌then◌else◌,
  replicate, sub64, arith, Bool-cases,
}
use thrift_bench.Prelude.Text.{Text}
use thrift_bench.KeyServer.{BenchmarkHandler}
use thrift_bench.KeyServer.Ganesha.{
  new_handler, copy_benchmark_data, init_data, Result, async_tm_key_put, async_tm_key_get, Request,
  put, get, serve,
}

-- The data for a size: none while all sizes so far have been that of the memory.
abbrev data_for : (still : Bool) → (chance size : ℕ) → Text
data_for still chance size =
    if still then (if chance == size then [] else replicate size b'A') else replicate size b'A'

-- The answers, one after another; `still` says that no other size has been asked for.
abbrev pub answers : (still : Bool) → (chance : ℕ) → List Request → List Result
answers still chance [] = []
answers still chance (put s e callback bench ∷ rs) =
    (record {
      callback = callback;
      ret = record bench { contents = []; data_size = 0; db_latency = sub64 e s };
    })
    ∷ answers still chance rs
answers still chance (get s e callback bench ∷ rs) =
    let rest = answers (if still then chance == bench.data_size else false) chance rs in
    (record {
      callback = callback;
      ret = record bench {
        contents = data_for still chance bench.data_size;
        db_latency = sub64 e s;
      };
    })
    ∷ rest

-- The data in the handler, before another size has been asked for and after.
abbrev Holds : (still : Bool) → (chance : ℕ) → BenchmarkHandler → Type 0
Holds true chance h = (h.cached_size ≡ chance) × (h.cached ≡ [])
Holds false chance h = h.cached ≡ replicate h.cached_size b'A'

init_data-Holds :
    (still : Bool) (chance size : ℕ) (h : BenchmarkHandler)
    → Holds still chance h
    → Holds (if still then chance == size else false) chance (init_data size h).0
      × ((init_data size h).1 ≡ data_for still chance size)
unfolding init_data
init_data-Holds true chance size h f = elim (Bool-cases (chance == size)) [
  | inl e ↦
      let same : h.cached_size == size ≡ true = ground (arith, e, f.0) in rw (e, same) (f, f.1)
  | inr e ↦
      let other : h.cached_size == size ≡ false = ground (arith, e, f.0) in
      rw (e, other) (refl, refl)
]
init_data-Holds false chance size h f = elim (Bool-cases (h.cached_size == size)) [
  | inl e ↦
      let same : h.cached_size ≡ size = ground (arith, e) in
      rw e (f, f ∙ ap (λ n. replicate n b'A') same)
  | inr e ↦ rw e (refl, refl)
]

serve-Holds :
    (rs : List Request) (still : Bool) (chance : ℕ) (h : BenchmarkHandler)
    → Holds still chance h
    → serve rs h ≡ answers still chance rs
unfolding serve async_tm_key_put async_tm_key_get copy_benchmark_data
serve-Holds [] still chance h f = refl
serve-Holds (put s e callback bench ∷ rs) still chance h f =
    ap
      (λ as_.
        record {
          callback = callback;
          ret = record bench { contents = []; data_size = 0; db_latency = sub64 e s };
        }
        ∷ as_)
      (serve-Holds rs still chance h f)
serve-Holds (get s e callback bench ∷ rs) still chance h f =
    let i = init_data-Holds still chance bench.data_size h f in
    ap₂
      (λ t as_.
        record { callback = callback; ret = record bench { contents = t; db_latency = sub64 e s } }
        ∷ as_)
      i.1
      (serve-Holds rs (if still then chance == bench.data_size else false) chance
        (init_data bench.data_size h).0 i.0)

-- From a new handler, whatever its memory held, and for any puts and gets: each callback is given its
-- request with the time taken, a put's without data. A get's has as much data as it asks for, except
-- that those which come before a get of any other size have none, if their size is that of the memory.
pub serve-answers :
    (chance : ℕ) (rs : List Request) → serve rs (new_handler chance) ≡ answers true chance rs
unfolding new_handler
serve-answers chance rs = serve-Holds rs true chance (new_handler chance) (refl, refl)
