-- ===== src/Prelude/Maps.antt =====
-- Association lists with numbers as keys, for the maps of the program.
use Prim.Native.Nat.{ℕ}
use mathlib.Core.Path.{◌≡◌, refl, sym, ap, ◌∙◌}
use mathlib.Core.Logic.{inl, inr}
use mathlib.Core.List.{List, [], ◌∷◌}
use mathlib.Core.Bool.{false}
use mathlib.Core.Option.{Option, none, some}
use native.Mathlib.Omega.{arith}
use thrift_bench.Prelude.Tests.{◌==◌, if◌then◌else◌, Bool-cases}

module _ {ℓ} {V : Type ℓ} where
  -- `m.erase(key)`: the entry goes, the others stay in their order.
  unfoldable pub erase : ℕ → List (ℕ × V) → List (ℕ × V)
  erase key [] = []
  erase key ((at, val) ∷ entries) = if at == key then entries else (at, val) ∷ erase key entries

  -- `m.find(key)`, where `none` is `m.end()`.
  unfoldable pub lookup : ℕ → List (ℕ × V) → Option V
  lookup key [] = none
  lookup key ((at, val) ∷ entries) = if at == key then some val else lookup key entries

  -- `m[key] = new`
  unfoldable pub insert : ℕ → V → List (ℕ × V) → List (ℕ × V)
  insert key new [] = (key, new) ∷ []
  insert key new ((at, val) ∷ entries) =
      if at == key then (key, new) ∷ entries else (at, val) ∷ insert key new entries

  pub lookup-insert :
      (key asked : ℕ) (new : V) (entries : List (ℕ × V))
      → lookup asked (insert key new entries)
        ≡ (if key == asked then some new else lookup asked entries)
  unfolding lookup insert
  lookup-insert key asked new [] = refl
  lookup-insert key asked new ((at, val) ∷ entries) =
      ground (arith, lookup-insert key asked new entries)

  -- No key stands twice.
  abbrev pub Distinct : List (ℕ × V) → Type ℓ
  Distinct [] = Unit
  Distinct ((at, val) ∷ entries) = (lookup at entries ≡ none) × Distinct entries

  pub insert-Distinct :
      (key : ℕ) (new : V) (entries : List (ℕ × V))
      → Distinct entries
      → Distinct (insert key new entries)
  unfolding lookup insert
  insert-Distinct key new [] h = (refl, tt)
  insert-Distinct key new ((at, val) ∷ entries) h = elim (Bool-cases (at == key)) [
    | inl here ↦
        let e : at ≡ key = ground (arith, here) in
        rw here (ap (λ k. lookup k entries) (sym e) ∙ h.0, h.1)
    | inr there ↦
        let other : key == at ≡ false = ground (arith, there) in
        rw there
          (lookup-insert key at new entries ∙ rw other h.0, insert-Distinct key new entries h.1)
  ]

  pub lookup-erase :
      (key asked : ℕ) (entries : List (ℕ × V))
      → Distinct entries
      → lookup asked (erase key entries) ≡ (if key == asked then none else lookup asked entries)
  unfolding lookup erase
  lookup-erase key asked [] h = ground arith
  lookup-erase key asked ((at, val) ∷ entries) h = elim (Bool-cases (at == key)) [
    | inl here ↦ elim (Bool-cases (key == asked)) [
      | inl same ↦
          let e : at ≡ asked = ground (arith, here, same) in
          rw (here, same) (ap (λ k. lookup k entries) (sym e) ∙ h.0)
      | inr other ↦
          let o : at == asked ≡ false = ground (arith, here, other) in rw (here, other, o) refl
    ]
    | inr there ↦ elim (Bool-cases (at == asked)) [
      | inl same ↦
          let o : key == asked ≡ false = ground (arith, there, same) in rw there (rw (same, o) refl)
      | inr other ↦ rw there (rw other (lookup-erase key asked entries h.1))
    ]
  ]

  pub erase-Distinct :
      (key : ℕ) (entries : List (ℕ × V)) → Distinct entries → Distinct (erase key entries)
  unfolding lookup erase
  erase-Distinct key [] h = tt
  erase-Distinct key ((at, val) ∷ entries) h = elim (Bool-cases (at == key)) [
    | inl here ↦ rw here h.1
    | inr there ↦
        let other : key == at ≡ false = ground (arith, there) in
        rw there (lookup-erase key at entries h.1 ∙ rw other h.0, erase-Distinct key entries h.1)
  ]
