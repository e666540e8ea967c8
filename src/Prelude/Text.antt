-- ===== src/Prelude/Text.antt =====
-- What the program uses of `std::string`, over lists of character codes. `npos` is `none`.
use Prim.Native.Nat.{ℕ, zero, suc, ◌+◌, ◌<◌}
use Prim.Native.Char.{code}
use Prim.Native.String.{String}
use mathlib.Core.Path.{◌≡◌, refl, ap, sym, ◌∙◌}
use mathlib.Core.Bool.{Bool, true, false, ◌&&◌}
use mathlib.Core.Option.{Option, none, some}
use mathlib.Core.List.{List, [], ◌∷◌}
use native.Mathlib.Omega.{arith}
use mathlib.Core.Logic.{inl, inr}
use thrift_bench.Prelude.Tests.{Bool-cases, Option-cases, ◌==◌, if◌then◌else◌}
use thrift_bench.Prelude.Lists.{length, take, drop}

abbrev pub Text : Type 0
Text = List ℕ

abbrev pub codes : String → Text
codes String.[] = []
codes (String.◌∷◌ letter others) = code letter ∷ codes others

abbrev pub same_text : Text → Text → Bool
same_text [] [] = true
same_text [] (y ∷ ys) = false
same_text (x ∷ xs) [] = false
same_text (x ∷ xs) (y ∷ ys) = x == y && same_text xs ys

abbrev pub shift : ℕ → Option ℕ → Option ℕ
shift n none = none
shift n (some k) = some (n + k)

abbrev pub index_of : ℕ → Text → Option ℕ
index_of d [] = none
index_of d (x ∷ xs) = if x == d then some 0 else shift 1 (index_of d xs)

-- `str.find(delim, s)`
abbrev pub find : ℕ → Text → ℕ → Option ℕ
find d str s = shift s (index_of d (drop s str))

-- `str.substr(s, n)`
abbrev pub substr : Text → ℕ → ℕ → Text
substr str s n = take n (drop s str)

pub drop-nil {ℓ} : (A : Type ℓ) (n : ℕ) → drop {A = A} n [] ≡ []
drop-nil A zero = refl
drop-nil A (suc n) = refl

pub drop-drop : (a b : ℕ) (xs : Text) → drop b (drop a xs) ≡ drop (a + b) xs
drop-drop zero b xs = ap (λ k. drop k xs) (omega arith)
drop-drop (suc a) b [] = drop-nil ℕ b ∙ sym (drop-nil ℕ (suc a + b))
drop-drop (suc a) b (x ∷ xs) = drop-drop a b xs ∙ ap (λ k. drop k (x ∷ xs)) (shifted a b)
  where
    shifted : (a b : ℕ) → suc (a + b) ≡ suc a + b
    shifted a b = omega arith

pub index_of-lt : (d : ℕ) (xs : Text) (k : ℕ) → index_of d xs ≡ some k → k < length xs
index_of-lt d [] k e = ground arith
index_of-lt d (x ∷ xs) k e = elim (Bool-cases (x == d)) [
  | inl here ↦ ground arith
  | inr there ↦ elim (Option-cases (index_of d xs)) [
    | inl none_there ↦ ground arith
    | inr (j, f) ↦ ground (arith, index_of-lt d xs j f)
  ]
]
