-- ===== src/Clients/Exp3/Files.antt =====
-- The files that a run reads.
use thrift_bench.Prelude.{
  ℕ, zero, suc, ◌+◌, ◌^◌, ◌≤◌, ◌<◌, ◌≡◌, ◌⊎◌, refl, inl, inr, some, List, [], ◌∷◌, length, All,
  arith, true, next_int-fits,
}
use thrift_bench.Clients.Pipeline.{Loop}
use thrift_bench.Clients.Pipeline.Ends.{run_loop-ends}
use thrift_bench.Clients.Exp3.{
  ThreadBenchmark, Answer, protocol, files_from, laydown_files, start_benchmark,
}

-- The file is one of those.
pub IsAmong : ℕ → List ℕ → Type 0
IsAmong i [] = ⊥
IsAmong i (j ∷ js) = (i ≡ j) ⊎ IsAmong i js

files_from-IsAmong :
    (j n : ℕ)
    → j + n < 2 ^ 31
    → (files : List ℕ) × (files_from j n ≡ some files)
      × ((i : ℕ) → j ≤ i → i < j + n → IsAmong i files)
unfolding files_from IsAmong
files_from-IsAmong j zero small = ([], refl, λ i a b. absurd (omega (arith, a, b)))
files_from-IsAmong j (suc n) small =
    let (files, returns, all) = files_from-IsAmong (j + 1) n (omega arith) in
    (
      j ∷ files,
      rw (next_int-fits j (omega arith), returns) refl,
      λ i a b.
          let here : (i ≡ j) ⊎ (j + 1 ≤ i) = omega (arith, a) in
          elim here [ inl e ↦ inl e | inr lt ↦ inr (all i lt (omega (arith, b))) ],
    )

IsAmong-All :
    (q n : ℕ) (files : List ℕ) (calls : List (ℕ × ℕ))
    → q ≤ n
    → ((i : ℕ) → 0 ≤ i → i < 0 + n → IsAmong i files)
    → All (λ c. c.0 < q) calls
    → All (λ c. IsAmong c.0 files) calls
IsAmong-All q n files [] le all h = tt
IsAmong-All q n files (c ∷ calls) le all h =
    (all c.0 (omega arith) (omega (arith, h.0)), IsAmong-All q n files calls le all h.1)

-- The turn brings a reply, and each reply all of a file.
abbrev pub Reads : ℕ → List (ℕ × Answer) → Type 0
Reads req_size t = All (λ a. a.1.data_size ≡ req_size) t × (1 ≤ length t)

reply-Accepted :
    (req_size : ℕ) (t : List (ℕ × Answer))
    → All (λ a. a.1.data_size ≡ req_size) t
    → All (λ a. (id : ℕ) → (protocol req_size).accepts ((protocol req_size).reply id a.1) ≡ true) t
unfolding protocol
reply-Accepted req_size [] h = tt
reply-Accepted req_size (a ∷ as_) h = ((λ id. ground (arith, h.0)), reply-Accepted req_size as_ h.1)

Reads-Accepted :
    (req_size : ℕ) (ts : List (List (ℕ × Answer)))
    → All (λ t. Reads req_size t) ts
    → All
        (λ t.
          All
            (λ a. (id : ℕ) → (protocol req_size).accepts ((protocol req_size).reply id a.1) ≡ true)
            t
          × (1 ≤ length t))
        ts
Reads-Accepted req_size [] h = tt
Reads-Accepted req_size (t ∷ ts) h =
    ((reply-Accepted req_size t h.0.0, h.0.1), Reads-Accepted req_size ts h.1)

-- A thread of the read benchmark, with a queue depth of at least 1, no more than the number of
-- requests, which is below 2^31. If each turn of the event loop brings at least one reply, and
-- each reply the whole of a file, as many turns as requests are enough: the thread completes at
-- least the requested reads, no assertion fails, and each file that it asks for is one of those
-- that it wrote before.
pub start_benchmark-files :
    (clock : ℕ → ℕ) (req_size q n : ℕ) (result : ThreadBenchmark) (ts : List (List (ℕ × Answer)))
    → 1 ≤ q
    → q ≤ n
    → n < 2 ^ 31
    → All (λ t. Reads req_size t) ts
    → n ≤ length ts
    → (files : List ℕ) × (l : Loop ThreadBenchmark) × (laydown_files n ≡ some files)
      × (start_benchmark clock req_size q n result ts ≡ some (files, l))
      × (n ≤ l.req_complete)
      × (length l.calls ≡ l.req_complete + l.req_out)
      × (l.req_out ≤ q)
      × All (λ c. IsAmong c.0 files) l.calls
unfolding start_benchmark laydown_files
start_benchmark-files clock req_size q n result ts pos le few ok enough =
    let (files, written, all) = files_from-IsAmong 0 n (omega arith) in
    let (l, returns, complete, accounted, quota, window, made, indices) =
      run_loop-ends clock (protocol req_size) q n (omega arith) (omega arith) pos result ts
        (λ id a. refl) (Reads-Accepted req_size ts ok) enough in
    (
      files,
      l,
      written,
      rw (written, returns) refl,
      complete,
      omega (arith, made, accounted),
      window,
      IsAmong-All q n files l.calls le all indices,
    )
