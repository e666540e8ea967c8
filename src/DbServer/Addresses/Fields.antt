-- ===== src/DbServer/Addresses/Fields.antt =====
-- `split` against a reading of the text from left to right, and the round trip of a leaf list.
use thrift_bench.Prelude.{
  ℕ, zero, suc, ◌+◌, ◌-◌, ◌^◌, ◌≤◌, ◌<◌, ◌≡◌, refl, sym, ap, ◌∙◌, inl, inr, true, false, Option,
  none, some, List, [], ◌∷◌, ◌++◌, ◌==◌, if◌then◌else◌, length, take, drop, length-drop, arith,
  append-nil, append_assoc, Bool-cases, Option-cases, ◌>>=◌,
}
use thrift_bench.Prelude.Text.{Text, index_of, drop-drop, index_of-lt}
use thrift_bench.DbServer.Addresses.{split_loop, split}

abbrev keep : Text → Option (List Text) → Option (List Text)
keep [] r = none
keep (x ∷ xs) r = r >>= λ fs. some ((x ∷ xs) ∷ fs)

-- The fields of a text, with what has been read of the first; `none` if a delimiter ends an empty
-- field.
abbrev pub fields_from : ℕ → Text → Text → Option (List Text)
fields_from d acc [] = some (acc ∷ [])
fields_from d acc (x ∷ xs) =
    if x == d then keep acc (fields_from d [] xs) else fields_from d (acc ++ x ∷ []) xs

fields_last :
    (d : ℕ) (acc xs : Text) → index_of d xs ≡ none → fields_from d acc xs ≡ some ((acc ++ xs) ∷ [])
fields_last d acc [] e = rw append-nil refl
fields_last d acc (x ∷ xs) e = elim (Bool-cases (x == d)) [
  | inl here ↦ ground arith
  | inr there ↦ elim (Option-cases (index_of d xs)) [
    | inl n ↦ rw there (
        rw (fields_last d (acc ++ x ∷ []) xs n)
          (ap (λ t. some (t ∷ [])) (append_assoc acc (x ∷ []) xs)))
    | inr (j, f) ↦ ground (arith, f)
  ]
]

fields_next :
    (d : ℕ) (acc xs : Text) (k : ℕ)
    → index_of d xs ≡ some k
    → fields_from d acc xs ≡ keep (acc ++ take k xs) (fields_from d [] (drop (suc k) xs))
fields_next d acc [] k e = ground arith
fields_next d acc (x ∷ xs) k e = elim (Bool-cases (x == d)) [
  | inl here ↦ let z : k ≡ 0 = ground arith in rw (here, z, append-nil) refl
  | inr there ↦ elim (Option-cases (index_of d xs)) [
    | inl n ↦ ground (arith, n)
    | inr (j, f) ↦
        let z : k ≡ suc j = ground (arith, f) in
        rw (there, z)
          (rw (fields_next d (acc ++ x ∷ []) xs j f) (
            ap (λ t. keep t (fields_from d [] (drop (suc j) xs)))
              (append_assoc acc (x ∷ []) (take j xs))))
  ]
]

-- At a delimiter the loop stays where it is.
split_loop-stuck :
    (f : ℕ) (input : Text) (d s : ℕ) (v : List Text)
    → index_of d (drop s input) ≡ some 0
    → split_loop f input d s v ≡ none
unfolding split_loop
split_loop-stuck zero input d s v e = refl
split_loop-stuck (suc f) input d s v e =
    let same : s + 0 == s ≡ true = ground arith in
    rw (e, split_loop) (rw same (split_loop-stuck f input d s v e))

abbrev after : List Text → Option (List Text) → Option (List Text)
after v r = r >>= λ fs. some (v ++ fs)

after-keep :
    (v : List Text) (k : ℕ) (xs : Text) (r : Option (List Text))
    → suc k < length xs
    → after (v ++ take (suc k) xs ∷ []) r ≡ after v (keep (take (suc k) xs) r)
after-keep v k [] r h = absurd (omega arith)
after-keep v k (x ∷ xs) none h = refl
after-keep v k (x ∷ xs) (some fs) h = ap some (append_assoc v (take (suc k) (x ∷ xs) ∷ []) fs)

split_loop-fields :
    (f : ℕ) (input : Text) (d s : ℕ) (v : List Text)
    → s ≤ length input
    → length input < 2 ^ 63
    → length input - s < f
    → split_loop f input d s v ≡ after v (fields_from d [] (drop s input))
unfolding split_loop
split_loop-fields zero input d s v h fits fuel = absurd (omega arith)
split_loop-fields (suc f) input d s v h fits fuel =
    elim (Option-cases (index_of d (drop s input))) [
      | inl last ↦
          let e : 2 ^ 64 - 1 == s ≡ false = ground arith in
          rw (last, split_loop) (rw (e, fields_last d [] (drop s input) last) refl)
      | inr (zero, stuck) ↦
          split_loop-stuck (suc f) input d s v stuck
          ∙ sym (ap (after v) (fields_next d [] (drop s input) 0 stuck))
      | inr (suc k, next) ↦
          let lt = index_of-lt d (drop s input) (suc k) next in
          let len = length-drop s input in
          let moved : s + suc k == s ≡ false = ground arith in
          let step : s + suc k + 1 ≡ s + suc (suc k) = omega arith in
          let n : s + suc k - s ≡ suc k = omega arith in
          rw (next, split_loop)
            (rw (moved, n)
              (split_loop-fields f input d (s + suc k + 1) _ (omega arith) fits (omega arith)
                ∙ rw
                    (
                      step,
                      ← drop-drop s (suc (suc k)) input,
                      fields_next d [] (drop s input) (suc k) next,
                    )
                    (after-keep v k (drop s input)
                      (fields_from d [] (drop (suc (suc k)) (drop s input))) lt)))
    ]

after-nil : (r : Option (List Text)) → after [] r ≡ r
after-nil none = refl
after-nil (some fs) = refl

-- `split` of a text shorter than 2^63: if no delimiter ends an empty field, more rounds than
-- the text is long are enough, and the result is the list of its fields; if one does, no number
-- of rounds above the length is enough.
pub split-fields_from :
    (fuel : ℕ) (input : Text) (delim : ℕ)
    → length input < 2 ^ 63
    → length input < fuel
    → split fuel input delim ≡ fields_from delim [] input
unfolding split
split-fields_from fuel input delim fits enough =
    split_loop-fields fuel input delim 0 [] (omega arith) fits (omega arith) ∙ after-nil _
