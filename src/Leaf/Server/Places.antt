-- ===== src/Leaf/Server/Places.antt =====
-- Counting what stands in the lists of the handler.
use thrift_bench.Prelude.{
  ℕ, zero, suc, ◌+◌, ◌≤◌, ◌≡◌, refl, ap, inl, inr, Option, none, some, List, [], ◌∷◌, ◌++◌, ◌>>=◌,
  map, ◌==◌, arith, All, Bool-cases,
}
use thrift_bench.Prelude.Bags.{Pair, occurs, hit}
use thrift_bench.Leaf.Aio.Inflight.{count, is}
use thrift_bench.Leaf.Server.{close_fd}
use thrift_bench.Leaf.Server.Steps.{pick_at}

-- The sum over a list.
abbrev pub weigh {ℓ} : {A : Type ℓ} → (A → ℕ) → List A → ℕ
weigh f [] = 0
weigh f (x ∷ xs) = f x + weigh f xs

pub weigh-append {ℓ} :
    {A : Type ℓ} (f : A → ℕ) (xs ys : List A) → weigh f (xs ++ ys) ≡ weigh f xs + weigh f ys
weigh-append f [] ys = omega arith
weigh-append f (x ∷ xs) ys = omega (arith, weigh-append f xs ys)

pub occurs-map {ℓ} :
    {A : Type ℓ} (p : Pair) (g : A → Pair) (xs : List A)
    → occurs p (map g xs) ≡ weigh (λ x. hit p (g x)) xs
occurs-map p g [] = refl
occurs-map p g (x ∷ xs) = omega (arith, occurs-map p g xs)

-- What is picked was there, and the others are the rest.
unfoldable pub Picks {ℓ} : {A : Type ℓ} → List A → Option (A × List A) → Type (1 ⊔ ℓ)
Picks xs none = Unit
Picks {A = A} xs (some (x, ys)) =
    ((f : A → ℕ) → weigh f ys + f x ≡ weigh f xs) × ((P : A → Type 0) → All P xs → P x × All P ys)

cons-Picks {ℓ} :
    {A : Type ℓ} (x : A) (xs : List A) (o : Option (A × List A))
    → Picks xs o
    → Picks (x ∷ xs) (o >>= λ (r : A × List A). some (r.0, x ∷ r.1))
unfolding Picks
cons-Picks x xs none h = tt
cons-Picks x xs (some (y, ys)) h =
    (λ f. omega (arith, h.0 f), λ P all. let r = h.1 P all.1 in (r.0, (all.0, r.1)))

pub pick_at-Picks {ℓ} : {A : Type ℓ} (k : ℕ) (xs : List A) → Picks xs (pick_at k xs)
unfolding Picks pick_at
pick_at-Picks k [] = tt
pick_at-Picks zero (x ∷ xs) = (λ f. omega arith, λ P all. all)
pick_at-Picks (suc k) (x ∷ xs) = cons-Picks x xs (pick_at k xs) (pick_at-Picks k xs)

-- How often a descriptor is the one that may be there.
abbrev pub has : ℕ → Option ℕ → ℕ
has q none = 0
has q (some fd) = is q fd

-- A descriptor that is open can be closed, and goes.
pub close_fd-count :
    (fd : ℕ) (fds : List ℕ)
    → 1 ≤ count fd fds
    → (rest : List ℕ) × (close_fd (some fd) fds ≡ some rest)
      × ((q : ℕ) → count q rest + is q fd ≡ count q fds)
unfolding close_fd
close_fd-count fd [] h = absurd (omega arith)
close_fd-count fd (f ∷ fds) h = elim (Bool-cases (f == fd)) [
  | inl here ↦
      let e : f ≡ fd = ground (arith, here) in
      (fds, rw here refl, λ q. omega (arith, ap (λ x. is q x) e))
  | inr there ↦
      let (rest, closes, counts) = close_fd-count fd fds (ground (arith, there)) in
      (f ∷ rest, rw (there, closes) refl, λ q. omega (arith, counts q))
]
