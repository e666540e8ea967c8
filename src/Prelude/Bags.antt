-- ===== src/Prelude/Bags.antt =====
-- Lists of pairs of numbers, with their order forgotten: what is under way, in whatever place.
use Prim.Native.Nat.{ℕ, ◌+◌}
use mathlib.Core.Path.{◌≡◌}
use mathlib.Core.Bool.{◌&&◌}
use mathlib.Core.List.{List, [], ◌∷◌, ◌++◌, map}
use mathlib.Core.Quot
use mathlib.Core.Quot.{Quot}
use native.Mathlib.Omega.{arith}
use thrift_bench.Prelude.Tests.{◌==◌, if◌then◌else◌}

abbrev pub Pair : Type 0
Pair = ℕ × ℕ

abbrev pub occurs : Pair → List Pair → ℕ
occurs p [] = 0
occurs p (q ∷ qs) = (if q.0 == p.0 && q.1 == p.1 then 1 else 0) + occurs p qs

-- Whether two pairs are the same, as a number.
abbrev pub hit : Pair → Pair → ℕ
hit p q = if q.0 == p.0 && q.1 == p.1 then 1 else 0

abbrev SamePairs : List Pair → List Pair → Type 0
SamePairs ps qs = (p : Pair) → occurs p ps ≡ occurs p qs

abbrev Bag : Type 0
Bag = Quot SamePairs

abbrev pub bag : List Pair → Bag
bag ps = Quot.mk ps

pub occurs-append : (p : Pair) (ps qs : List Pair) → occurs p (ps ++ qs) ≡ occurs p ps + occurs p qs
occurs-append p [] qs = omega arith
occurs-append p (q ∷ ps) qs = omega (arith, occurs-append p ps qs)

pub bag-eq : (ps qs : List Pair) → SamePairs ps qs → bag ps ≡ bag qs
bag-eq ps qs h = Quot.sound h

-- The pairs of the elements of a list of anything.
pub occurs-map_append {ℓ} :
    {A : Type ℓ} (p : Pair) (g : A → Pair) (xs ys : List A)
    → occurs p (map g (xs ++ ys)) ≡ occurs p (map g xs) + occurs p (map g ys)
occurs-map_append p g [] ys = omega arith
occurs-map_append p g (x ∷ xs) ys = omega (arith, occurs-map_append p g xs ys)
