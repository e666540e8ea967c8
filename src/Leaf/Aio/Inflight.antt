-- ===== src/Leaf/Aio/Inflight.antt =====
-- Taking one I/O out of the vector of those in flight.
use thrift_bench.Prelude.{
  get_elem?-lt, ℕ, zero, suc, ◌+◌, ◌-◌, ◌≤◌, ◌<◌, ◌≡◌, ◌⊎◌, refl, ap, ◌∙◌, inl, inr, true, false,
  some, List, [], ◌∷◌, leb, ◌==◌, if◌then◌else◌, length, get_elem?, set, take, arith, Bool-cases,
}
use thrift_bench.Leaf.Aio.{find_index, back, pop_back, swap_back, take_out}

abbrev pub is : ℕ → ℕ → ℕ
is q p = if p == q then 1 else 0

-- How often an address stands in a list.
abbrev pub count : ℕ → List ℕ → ℕ
count q [] = 0
count q (x ∷ xs) = is q x + count q xs

find_index_lem :
    (p : ℕ) (xs : List ℕ)
    → 1 ≤ count p xs
    → (i : ℕ) × (find_index p xs ≡ some i) × (i < length xs) × (get_elem? xs i ≡ some p)
unfolding find_index
find_index_lem p [] h = absurd (omega arith)
find_index_lem p (x ∷ xs) h = elim (Bool-cases (x == p)) [
  | inl here ↦ (0, rw here refl, omega arith, ground arith)
  | inr there ↦
      let (i, e, lt, g) = find_index_lem p xs (ground arith) in
      (suc i, rw (there, e) refl, omega arith, g)
]

count-set :
    (q : ℕ) (xs : List ℕ) (i v a : ℕ)
    → get_elem? xs i ≡ some a
    → count q (set xs i v) + is q a ≡ count q xs + is q v
count-set q [] i v a e = ground arith
count-set q (x ∷ xs) zero v a e = ground arith
count-set q (x ∷ xs) (suc i) v a e = omega (arith, count-set q xs i v a e)

length-set : (xs : List ℕ) (i v : ℕ) → length (set xs i v) ≡ length xs
length-set [] i v = refl
length-set (x ∷ xs) zero v = refl
length-set (x ∷ xs) (suc i) v = ap suc (length-set xs i v)

get_elem?-set_self : (xs : List ℕ) (i v : ℕ) → i < length xs → get_elem? (set xs i v) i ≡ some v
get_elem?-set_self [] i v h = absurd (omega arith)
get_elem?-set_self (x ∷ xs) zero v h = refl
get_elem?-set_self (x ∷ xs) (suc i) v h = get_elem?-set_self xs i v (omega arith)

-- Writing the last element somewhere leaves it last.
get_elem?-set_last :
    (xs : List ℕ) (i j b : ℕ) → get_elem? xs j ≡ some b → get_elem? (set xs i b) j ≡ some b
get_elem?-set_last [] i j b e = e
get_elem?-set_last (x ∷ xs) zero zero b e = refl
get_elem?-set_last (x ∷ xs) zero (suc j) b e = e
get_elem?-set_last (x ∷ xs) (suc i) zero b e = e
get_elem?-set_last (x ∷ xs) (suc i) (suc j) b e = get_elem?-set_last xs i j b e

count-take_last :
    (q : ℕ) (xs : List ℕ) (n a : ℕ)
    → length xs ≡ suc n
    → get_elem? xs n ≡ some a
    → count q (take n xs) + is q a ≡ count q xs
count-take_last q [] n a l e = ground arith
count-take_last q (x ∷ []) zero a l e = ground arith
count-take_last q (x ∷ y ∷ xs) zero a l e = absurd (omega arith)
count-take_last q (x ∷ xs) (suc n) a l e = omega (arith, count-take_last q xs n a (omega arith) e)

count-pop_back :
    (q : ℕ) (xs : List ℕ) (a : ℕ)
    → 1 ≤ length xs
    → back xs ≡ some a
    → count q (pop_back xs) + is q a ≡ count q xs
unfolding back pop_back
count-pop_back q xs a h e = count-take_last q xs (length xs - 1) a (omega arith) e

-- Swapping an element to the back keeps the counts and the length, and puts it there.
swap_back_lem :
    (xs : List ℕ) (i p : ℕ)
    → i < length xs
    → get_elem? xs i ≡ some p
    → (ys : List ℕ) × (swap_back i xs ≡ some ys)
      × (length ys ≡ length xs)
      × (back ys ≡ some p)
      × ((q : ℕ) → count q ys ≡ count q xs)
unfolding swap_back back
swap_back_lem xs i p lt e =
    let n = length xs - 1 in
    let (b, eb) = get_elem?-lt xs n (omega arith) in
    let ys = set xs i b in
    let zs = set ys n p in
    let ly = length-set xs i b in
    let lz = length-set ys n p in
    (
      zs,
      rw (e, eb) refl,
      lz ∙ ly,
      rw (lz ∙ ly) (get_elem?-set_self ys n p (omega arith)),
      λ q.
          omega
            (arith, count-set q xs i b p e, count-set q ys n p b (get_elem?-set_last xs i n b eb)),
    )

back_of : (xs : List ℕ) (i p : ℕ) → i ≡ length xs - 1 → get_elem? xs i ≡ some p → back xs ≡ some p
unfolding back
back_of xs i p l e = rw (← l) e

-- An address that is in flight is found, and taken out once; nothing else moves in or out.
pub take_out_lem :
    (p : ℕ) (xs : List ℕ)
    → 1 ≤ count p xs
    → (ys : List ℕ) × (take_out p xs ≡ some ys) × ((q : ℕ) → count q ys + is q p ≡ count q xs)
unfolding take_out
take_out_lem p xs h =
    let (i, found, lt, e) = find_index_lem p xs h in
    cases i found lt e (Bool-cases (leb 2 (length xs)))
  where
    cases :
        (i : ℕ)
        → find_index p xs ≡ some i
        → i < length xs
        → get_elem? xs i ≡ some p
        → (leb 2 (length xs) ≡ true) ⊎ (leb 2 (length xs) ≡ false)
        → (ys : List ℕ) × (take_out p xs ≡ some ys) × ((q : ℕ) → count q ys + is q p ≡ count q xs)
    cases i found lt e (inl many) =
        let (ys, s, l, b, c) = swap_back_lem xs i p lt e in
        let same : p == p ≡ true = ground arith in
        (
          pop_back ys,
          rw (found, many, s, b, same) refl,
          λ q. omega (arith, count-pop_back q ys p (omega arith) b, c q),
        )
    cases i found lt e (inr one) =
        let b : back xs ≡ some p = back_of xs i p (ground arith) e in
        let same : p == p ≡ true = ground arith in
        (pop_back xs, rw (found, one, b, same) refl, λ q. count-pop_back q xs p (omega arith) b)
