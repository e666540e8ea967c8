-- ===== src/DbServer/Handler/Threads/Races.antt =====
-- Which leafs threads get that share `curLeaf`.
use thrift_bench.Prelude.{
  ℕ, zero, suc, ◌+◌, ◌-◌, ◌^◌, ◌%◌, ◌≤◌, ◌<◌, ◌≡◌, ◌≢◌, refl, sym, ap, ◌∙◌, inl, inr, false, some,
  List, [], ◌∷◌, ◌==◌, replicate, length, get_elem?, get_elem?-lt, arith, All, Bool-cases, add32,
}
use native.Mathlib.Nat.{mod-lt, mod-eq-sub-mod, mod-eq_of_lt, zero-mod}
use mathlib.Core.Option.{some-injective, none-ne-some}
use thrift_bench.Leaf.Aio.Inflight.{count, is}
use thrift_bench.DbServer.Handler.{Leaf, Db, get_leaf}
use thrift_bench.DbServer.Handler.Threads.{Place, loads, stores, picks, got, access, turn, run}

-- The numbers that a thread has at hand are those of leafs.
abbrev Within : (n cur : ℕ) → Place → Type 0
Within n cur loads = Unit
Within n cur (stores v) = v < n
Within n cur picks = cur < n
Within n cur (got i) = i < n

Within-later :
    (n cur cur' : ℕ) (ps : List Place)
    → (cur < n → cur' < n)
    → All (Within n cur) ps
    → All (Within n cur') ps
Within-later n cur cur' [] s w = tt
Within-later n cur cur' (p ∷ ps) s w = (one p w.0, Within-later n cur cur' ps s w.1)
  where
    one : (p : Place) → Within n cur p → Within n cur' p
    one loads w = tt
    one (stores v) w = w
    one picks w = s w
    one (got i) w = w

access-Within :
    (n cur : ℕ) (p : Place)
    → 1 ≤ n
    → Within n cur p
    → Within n (access n p cur).1 (access n p cur).0 × (cur < n → (access n p cur).1 < n)
unfolding access
access-Within n cur loads h w = (mod-lt (add32 cur 1) {m = n} (omega arith), λ s. s)
access-Within n cur (stores v) h w = (w, λ s. w)
access-Within n cur picks h w = (w, λ s. s)
access-Within n cur (got i) h w = (w, λ s. s)

turn-Within :
    (n k : ℕ) (ps : List Place) (cur : ℕ)
    → 1 ≤ n
    → All (Within n cur) ps
    → All (Within n (turn n k ps cur).1) (turn n k ps cur).0 × (cur < n → (turn n k ps cur).1 < n)
unfolding turn
turn-Within n k [] cur h w = (tt, λ s. s)
turn-Within n zero (p ∷ ps) cur h w =
    let one = access-Within n cur p h w.0 in
    ((one.0, Within-later n cur (access n p cur).1 ps one.1 w.1), one.1)
turn-Within n (suc k) (p ∷ ps) cur h w =
    let r = turn-Within n k ps cur h w.1 in
    let first = Within-later n cur (turn n k ps cur).1 (p ∷ []) r.1 (w.0, tt) in
    ((first.0, r.0), r.1)

run-Within :
    (n : ℕ) (ks : List ℕ) (ps : List Place) (cur : ℕ)
    → 1 ≤ n
    → All (Within n cur) ps
    → All (Within n (run n ks ps cur).1) (run n ks ps cur).0
unfolding run
run-Within n [] ps cur h w = w
run-Within n (k ∷ ks) ps cur h w =
    run-Within n ks (turn n k ps cur).0 (turn n k ps cur).1 h (turn-Within n k ps cur h w).0

-- The accesses that a thread still has to make.
abbrev left : Place → ℕ
left loads = 3
left (stores v) = 2
left picks = 1
left (got i) = 0

access-left : (n cur : ℕ) (p : Place) → left (access n p cur).0 ≡ left p - 1
unfolding access
access-left n cur loads = refl
access-left n cur (stores v) = refl
access-left n cur picks = refl
access-left n cur (got i) = refl

-- A thread that has made all but some of its accesses.
abbrev IsAt : List Place → (j m : ℕ) → Type 0
IsAt ps j m = (p : Place) × (get_elem? ps j ≡ some p) × (left p ≤ m)

turn-IsAt :
    (n k j m : ℕ) (ps : List Place) (cur : ℕ)
    → IsAt ps j m
    → IsAt (turn n k ps cur).0 j (m - is j k)
unfolding turn
turn-IsAt n k j m [] cur a = absurd (none-ne-some a.0 a.1)
turn-IsAt n zero zero m (p ∷ ps) cur a =
    let same : p ≡ a.0 = some-injective p a.0 a.1 in
    ((access n p cur).0, refl, omega (arith, access-left n cur p, ap left same, a.2))
turn-IsAt n zero (suc j) m (p ∷ ps) cur a = (a.0, a.1, ground (arith, a.2))
turn-IsAt n (suc k) zero m (p ∷ ps) cur a = (a.0, a.1, ground (arith, a.2))
turn-IsAt n (suc k) (suc j) m (p ∷ ps) cur a =
    let b = turn-IsAt n k j m ps cur a in (b.0, b.1, ground (arith, b.2))

run-IsAt :
    (n j m : ℕ) (ks : List ℕ) (ps : List Place) (cur : ℕ)
    → IsAt ps j m
    → IsAt (run n ks ps cur).0 j (m - count j ks)
unfolding run
run-IsAt n j m [] ps cur a = (a.0, a.1, omega (arith, a.2))
run-IsAt n j m (k ∷ ks) ps cur a =
    let b =
      run-IsAt n j (m - is j k) ks (turn n k ps cur).0 (turn n k ps cur).1
        (turn-IsAt n k j m ps cur a) in
    (b.0, b.1, omega (arith, b.2))

replicate-IsAt : (k j : ℕ) → j < k → IsAt (replicate k loads) j 3
replicate-IsAt zero j h = absurd (omega arith)
replicate-IsAt (suc k) zero h = (loads, refl, omega arith)
replicate-IsAt (suc k) (suc j) h = replicate-IsAt k j (omega arith)

replicate-Within : (n cur k : ℕ) → All (Within n cur) (replicate k loads)
replicate-Within n cur zero = tt
replicate-Within n cur (suc k) = (tt, replicate-Within n cur k)

-- A thread that is done.
got_of :
    (n cur j : ℕ) (ps : List Place)
    → All (Within n cur) ps
    → IsAt ps j 0
    → (i : ℕ) × (get_elem? ps j ≡ some (got i)) × (i < n)
got_of n cur j [] w a = absurd (none-ne-some a.0 a.1)
got_of n cur zero (got i ∷ ps) w a = (i, refl, w.0)
got_of n cur zero (loads ∷ ps) w a =
    let same : loads ≡ a.0 = some-injective loads a.0 a.1 in
    absurd (omega (arith, ap left same, a.2))
got_of n cur zero (stores v ∷ ps) w a =
    let same : stores v ≡ a.0 = some-injective (stores v) a.0 a.1 in
    absurd (omega (arith, ap left same, a.2))
got_of n cur zero (picks ∷ ps) w a =
    let same : picks ≡ a.0 = some-injective picks a.0 a.1 in
    absurd (omega (arith, ap left same, a.2))
got_of n cur (suc j) (p ∷ ps) w a = got_of n cur j ps w.1 a

-- Any number of threads that call `getLeaf` of a server with a leaf, whatever `curLeaf` is, with
-- their memory accesses in any order: each that has had its three turns has got a leaf of the list.
pub run-gets :
    (leafs : List Leaf) (k j cur : ℕ) (schedule : List ℕ)
    → 1 ≤ length leafs
    → j < k
    → 3 ≤ count j schedule
    → (i : ℕ) × (l : Leaf) × (get_elem? (run (length leafs) schedule (replicate k loads) cur).0 j
        ≡ some (got i))
      × (get_elem? leafs i ≡ some l)
run-gets leafs k j cur schedule some_leaf there turns =
    let n = length leafs in
    let ps = replicate k loads in
    let a = run-IsAt n j 3 schedule ps cur (replicate-IsAt k j there) in
    let w = run-Within n schedule ps cur some_leaf (replicate-Within n cur k) in
    let (i, gets, lt) =
      got_of n (run n schedule ps cur).1 j (run n schedule ps cur).0 w
        (a.0, a.1, omega (arith, a.2, turns)) in
    let (l, at) = get_elem?-lt leafs i lt in (i, l, gets, at)

next_differs : (n a : ℕ) → 2 ≤ n → a < n → (a + 1) % n ≢ a
next_differs n a h lt e = elim (Bool-cases (a + 1 == n)) [
  | inl last ↦
      let wraps : (a + 1) % n ≡ (a + 1 - n) % n = mod-eq-sub-mod (ground (arith, last)) in
      let start : (a + 1 - n) % n ≡ 0 = ap (λ k. k % n) (ground (arith, last)) ∙ zero-mod n in
      absurd (ground (arith, last, e, wraps, start, h))
  | inr inside ↦
      let same : (a + 1) % n ≡ a + 1 = mod-eq_of_lt (ground (arith, inside, lt)) in
      absurd (omega (arith, e, same))
]

abbrev pub two : List Place
two = loads ∷ loads ∷ []

-- Two calls of `getLeaf` of a server with at least two leafs. One after the other, on one thread or
-- on two, they get different leafs; there is an order of the memory accesses of two threads after
-- which both have got the first of them, and `curLeaf` is as after one call.
pub run-twice :
    (db : Db)
    → 2 ≤ length db.leafs
    → length db.leafs < 2 ^ 32
    → db.cur_leaf < length db.leafs
    → (i : ℕ) × (j : ℕ) × (db1 : Db) × (db2 : Db) × (schedule : List ℕ) × (get_leaf db
        ≡ some (i, db1))
      × (get_leaf db1 ≡ some (j, db2))
      × (j ≢ i)
      × (run (length db.leafs) (0 ∷ 0 ∷ 0 ∷ 1 ∷ 1 ∷ 1 ∷ []) two db.cur_leaf
          ≡ (got i ∷ got j ∷ [], db2.cur_leaf))
      × (run (length db.leafs) schedule two db.cur_leaf ≡ (got i ∷ got i ∷ [], db1.cur_leaf))
unfolding run turn access get_leaf
run-twice db h small lt =
    let n = length db.leafs in
    let i = add32 db.cur_leaf 1 % n in
    let below : i < n = mod-lt (add32 db.cur_leaf 1) {m = n} (omega arith) in
    let unwrapped : add32 i 1 ≡ i + 1 = omega (arith, below, small) in
    let some_leaf : n == 0 ≡ false = ground (arith, h) in
    (
      i,
      add32 i 1 % n,
      record db { cur_leaf = i },
      record db { cur_leaf = add32 i 1 % n },
      0 ∷ 1 ∷ 0 ∷ 1 ∷ 0 ∷ 1 ∷ [],
      rw some_leaf refl,
      rw some_leaf refl,
      λ e. next_differs n i h below (ap (λ k. k % n) (sym unwrapped) ∙ e),
      refl,
      refl,
    )
