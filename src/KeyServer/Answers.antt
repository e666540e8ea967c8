-- ===== src/KeyServer/Answers.antt =====
-- What the handler answers.
use thrift_bench.Prelude.{
  ℕ, ◌≡◌, ◌⊎◌, refl, ap, ap₂, ◌∙◌, Bool, true, false, not, none, some, List, [], ◌∷◌, ◌==◌,
  replicate, sub64, arith, Bool-cases, inl, inr, map,
}
use thrift_bench.Prelude.Text.{Text, codes, same_text}
use thrift_bench.KeyServer.{
  BenchmarkData, BenchmarkHandler, copy_benchmark_data, init_data, key_put, key_get, Request, put,
  get, serve, Server, validate_server_type, make_server, non_blocking, threaded, thread_pool,
}

-- The cached data has the cached size.
unfoldable pub IsFilled : BenchmarkHandler → Type 0
IsFilled h = h.cached ≡ replicate h.cached_size b'A'

-- A put gives back its request without the data, a get with as many letters as it asked for.
pub answer : Request → BenchmarkData
answer (put s e ret bd) = record bd { contents = []; data_size = 0; db_latency = sub64 e s }
answer (get s e ret bd) = record bd {
  contents = replicate bd.data_size b'A';
  db_latency = sub64 e s;
}

init_data-IsFilled :
    (size : ℕ) (h : BenchmarkHandler)
    → IsFilled h
    → IsFilled (init_data size h).0 × ((init_data size h).1 ≡ replicate size b'A')
unfolding init_data IsFilled
init_data-IsFilled size h f = elim (Bool-cases (h.cached_size == size)) [
  | inl e ↦
      let same : h.cached_size ≡ size = ground (arith, e) in
      rw e (f, f ∙ ap (λ n. replicate n b'A') same)
  | inr e ↦ rw e (refl, refl)
]

-- However the gets and puts come, from a handler whose data has the size that it holds, as a new
-- one has: each put is answered by its request without data, each get by its request with as
-- much data as the request has for its size, and both with the time that they took.
pub serve-answer :
    (rs : List Request) (h : BenchmarkHandler) → IsFilled h → serve rs h ≡ map answer rs
unfolding serve answer key_put key_get copy_benchmark_data
serve-answer [] h f = refl
serve-answer (put s e ret bd ∷ rs) h f =
    ap (λ as_. answer (put s e ret bd) ∷ as_) (serve-answer rs h f)
serve-answer (get s e ret bd ∷ rs) h f =
    let i = init_data-IsFilled bd.data_size h f in
    ap₂ (λ t as_. record bd { contents = t; db_latency = sub64 e s } ∷ as_) i.1
      (serve-answer rs (init_data bd.data_size h).0 i.0)

-- The flag's test accepts just the types for which `main` makes a server.
pub validate-make :
    (to_lower : Text → Text) (value : Text)
    → ((validate_server_type to_lower value ≡ false) × (make_server to_lower value ≡ none))
      ⊎ ((validate_server_type to_lower value ≡ true)
          × (started : Bool) × (server : Server) × (make_server to_lower value
              ≡ some (started, server)))
unfolding validate_server_type make_server
validate-make to_lower value =
    let v = to_lower value in
    elim (Bool-cases (same_text v (codes "nonblocking"))) [
      | inl a ↦ inr (rw a refl, not (same_text v (codes "threaded")), non_blocking, rw a refl)
      | inr a ↦ elim (Bool-cases (same_text v (codes "threaded"))) [
        | inl b ↦ inr (rw (a, b) refl, false, threaded, rw (a, b) refl)
        | inr b ↦ elim (Bool-cases (same_text v (codes "threadpool"))) [
          | inl c ↦ inr (rw (a, b, c) refl, true, thread_pool, rw (a, b, c) refl)
          | inr c ↦ inl (rw (a, b, c) refl, rw (a, b, c) refl)
        ]
      ]
    ]
