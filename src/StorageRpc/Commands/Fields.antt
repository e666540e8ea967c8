-- ===== src/StorageRpc/Commands/Fields.antt =====
-- `Split` against a reading of the text from left to right.
use thrift_bench.Prelude.{
  ℕ, zero, suc, ◌+◌, ◌-◌, ◌^◌, ◌≤◌, ◌<◌, ◌≡◌, ◌≢◌, refl, ap, ◌∙◌, inl, inr, true, false, none, some,
  List, [], ◌∷◌, ◌++◌, ◌==◌, if◌then◌else◌, length, take, drop, length-drop, arith, append-nil,
  append_assoc, Bool-cases, Option-cases,
}
use thrift_bench.Prelude.Text.{Text, index_of, drop-drop, index_of-lt}
use thrift_bench.StorageRpc.Commands.{npos, split_loop, split}

abbrev keep : Text → List Text → List Text
keep [] fs = fs
keep (x ∷ xs) fs = (x ∷ xs) ∷ fs

-- The fields of a text, with what has been read of the first: an empty field is left out unless it
-- is the last one.
abbrev pub fields_from : ℕ → Text → Text → List Text
fields_from d acc [] = acc ∷ []
fields_from d acc (x ∷ xs) =
    if x == d then keep acc (fields_from d [] xs) else fields_from d (acc ++ x ∷ []) xs

fields_last :
    (d : ℕ) (acc xs : Text) → index_of d xs ≡ none → fields_from d acc xs ≡ (acc ++ xs) ∷ []
fields_last d acc [] e = rw append-nil refl
fields_last d acc (x ∷ xs) e = elim (Bool-cases (x == d)) [
  | inl here ↦ ground arith
  | inr there ↦ elim (Option-cases (index_of d xs)) [
    | inl n ↦
        rw there (
          rw (fields_last d (acc ++ x ∷ []) xs n) (ap (λ t. t ∷ []) (append_assoc acc (x ∷ []) xs)))
    | inr (j, f) ↦ ground (arith, f)
  ]
]

fields_next :
    (d : ℕ) (acc xs : Text) (k : ℕ)
    → index_of d xs ≡ some k
    → fields_from d acc xs ≡ keep (acc ++ take k xs) (fields_from d [] (drop (suc k) xs))
fields_next d acc [] k e = ground arith
fields_next d acc (x ∷ xs) k e = elim (Bool-cases (x == d)) [
  | inl here ↦ let z : k ≡ 0 = ground arith in rw (here, z, append-nil) refl
  | inr there ↦ elim (Option-cases (index_of d xs)) [
    | inl n ↦ ground (arith, n)
    | inr (j, f) ↦
        let z : k ≡ suc j = ground (arith, f) in
        rw (there, z)
          (rw (fields_next d (acc ++ x ∷ []) xs j f) (
            ap (λ t. keep t (fields_from d [] (drop (suc j) xs)))
              (append_assoc acc (x ∷ []) (take j xs))))
  ]
]

-- What one round of the loop adds to the tokens, against the field that it has passed.
keep-round :
    (tokens fs : List Text) (s k : ℕ) (xs : Text)
    → k < length xs
    → (if s + k == s then tokens else tokens ++ take (s + k - s) xs ∷ []) ++ fs
      ≡ tokens ++ keep (take k xs) fs
keep-round tokens fs s k [] h = absurd (omega arith)
keep-round tokens fs s zero (x ∷ xs) h = let e : s + 0 == s ≡ true = ground arith in rw e refl
keep-round tokens fs s (suc k) (x ∷ xs) h =
    let e : s + suc k == s ≡ false = ground arith in
    let n : s + suc k - s ≡ suc k = omega arith in
    rw (e, n) (append_assoc tokens ((x ∷ take k xs) ∷ []) fs)

split_loop-fields :
    (f : ℕ) (str : Text) (d s : ℕ) (tokens : List Text)
    → s ≤ length str
    → length str < 2 ^ 63
    → length str - s < f
    → split_loop f str d s tokens ≡ some (tokens ++ fields_from d [] (drop s str))
unfolding split_loop
split_loop-fields zero str d s tokens h fits fuel = absurd (omega arith)
split_loop-fields (suc f) str d s tokens h fits fuel =
    elim (Option-cases (index_of d (drop s str))) [
      | inl last ↦
          let e : npos == s ≡ false = ground arith in
          rw (last, split_loop) (rw (e, fields_last d [] (drop s str) last) refl)
      | inr (k, next) ↦
          let lt = index_of-lt d (drop s str) k next in
          let len = length-drop s str in
          let step : s + k + 1 ≡ s + suc k = omega arith in
          rw (next, split_loop)
            (split_loop-fields f str d (s + k + 1) _ (omega arith) fits (omega arith)
              ∙ ap some (
                  rw (step, ← drop-drop s (suc k) str, fields_next d [] (drop s str) k next)
                    (keep-round tokens (fields_from d [] (drop (suc k) (drop s str))) s k
                      (drop s str) lt)))
    ]

-- `Split` of a text shorter than 2^63 comes to an end, with the fields of the text that are not
-- empty, and the last field even if it is.
pub split-fields :
    (str : Text) (delim : ℕ)
    → length str < 2 ^ 63
    → split str delim ≡ some (fields_from delim [] str)
unfolding split
split-fields str delim fits =
    split_loop-fields (suc (length str)) str delim 0 [] (omega arith) fits (omega arith)

pub fields_from-ne-nil : (d : ℕ) (acc xs : Text) → fields_from d acc xs ≢ []
fields_from-ne-nil d acc [] e = cc
fields_from-ne-nil d [] (x ∷ xs) e =
    ground (arith, fields_from-ne-nil d [] xs, fields_from-ne-nil d (x ∷ []) xs)
fields_from-ne-nil d (a ∷ acc) (x ∷ xs) e =
    ground (arith, fields_from-ne-nil d (a ∷ acc ++ x ∷ []) xs)
