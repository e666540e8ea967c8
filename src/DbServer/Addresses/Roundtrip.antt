-- ===== src/DbServer/Addresses/Roundtrip.antt =====
-- The list of leafs, written out and read back.
use thrift_bench.Prelude.{
  ℕ, suc, ◌+◌, ◌^◌, ◌%◌, ◌≤◌, ◌<◌, ◌≡◌, refl, ap, ◌∙◌, inl, inr, true, false, Option, none, some,
  List, [], ◌∷◌, ◌++◌, ◌==◌, length, drop, map, arith, append-nil, append_assoc, Bool-cases,
  Option-cases, ◌>>=◌, All, take-append,
}
use thrift_bench.Prelude.Text.{Text, index_of, substr}
use thrift_bench.DbServer.Addresses.{serves, parse_leaf, parse_leafs, on_tokens, start_leafs}
use thrift_bench.DbServer.Addresses.Fields.{fields_from, split-fields_from}

-- The text has no such character.
abbrev pub Lacks : ℕ → Text → Type 0
Lacks d t = index_of d t ≡ none

Lacks-head : (d x : ℕ) (xs : Text) → Lacks d (x ∷ xs) → (x == d ≡ false) × Lacks d xs
Lacks-head d x xs h = elim (Bool-cases (x == d)) [
  | inl here ↦ ground (arith, h)
  | inr there ↦ elim (Option-cases (index_of d xs)) [
    | inl n ↦ (there, n)
    | inr (j, f) ↦ ground (arith, f, h)
  ]
]

Lacks-append : (d : ℕ) (xs ys : Text) → Lacks d xs → Lacks d ys → Lacks d (xs ++ ys)
Lacks-append d [] ys h k = k
Lacks-append d (x ∷ xs) ys h k =
    let (there, n) = Lacks-head d x xs h in rw there (rw (Lacks-append d xs ys n k) refl)

index_of-append : (d : ℕ) (xs ys : Text) → Lacks d xs → index_of d (xs ++ d ∷ ys) ≡ some (length xs)
index_of-append d [] ys h = let e : d == d ≡ true = ground arith in rw e refl
index_of-append d (x ∷ xs) ys h =
    let (there, n) = Lacks-head d x xs h in
    let one : 1 + length xs ≡ suc (length xs) = omega arith in
    rw there (rw (index_of-append d xs ys n) (ap some one))

drop-field : (d : ℕ) (xs ys : Text) → drop (suc (length xs)) (xs ++ d ∷ ys) ≡ ys
drop-field d [] ys = refl
drop-field d (x ∷ xs) ys = drop-field d xs ys

fields_from-field :
    (d a : ℕ) (acc xs ys : Text) (fs : List Text)
    → Lacks d xs
    → fields_from d [] ys ≡ some fs
    → fields_from d (a ∷ acc) (xs ++ d ∷ ys) ≡ some (((a ∷ acc) ++ xs) ∷ fs)
fields_from-field d a acc [] ys fs h k =
    let e : d == d ≡ true = ground arith in rw e (rw k (rw append-nil refl))
fields_from-field d a acc (x ∷ xs) ys fs h k =
    let (there, n) = Lacks-head d x xs h in
    rw there (
      fields_from-field d a (acc ++ x ∷ []) xs ys fs n k
      ∙ ap (λ t. some (t ∷ fs)) (append_assoc (a ∷ acc) (x ∷ []) xs))

fields_from-last :
    (d : ℕ) (acc xs : Text) → Lacks d xs → fields_from d acc xs ≡ some ((acc ++ xs) ∷ [])
fields_from-last d acc [] h = rw append-nil refl
fields_from-last d acc (x ∷ xs) h =
    let (there, n) = Lacks-head d x xs h in
    rw there (
      fields_from-last d (acc ++ x ∷ []) xs n
      ∙ ap (λ t. some (t ∷ [])) (append_assoc acc (x ∷ []) xs))

-- A non-empty field in front.
fields_from-cons :
    (d : ℕ) (xs ys : Text) (fs : List Text)
    → 1 ≤ length xs
    → Lacks d xs
    → fields_from d [] ys ≡ some fs
    → fields_from d [] (xs ++ d ∷ ys) ≡ some (xs ∷ fs)
fields_from-cons d [] ys fs pos h k = absurd (omega arith)
fields_from-cons d (x ∷ xs) ys fs pos h k =
    let (there, n) = Lacks-head d x xs h in rw there (fields_from-field d x [] xs ys fs n k)

module _ (stoul : Text → Option ℕ) (to_string : ℕ → Text) where
  abbrev show_leaf : Text × ℕ → Text
  show_leaf l = l.0 ++ b':' ∷ to_string l.1

  -- The flag's value for a list of leafs.
  abbrev pub show_leafs : List (Text × ℕ) → Text
  show_leafs [] = []
  show_leafs (l ∷ []) = show_leaf l
  show_leafs (l ∷ k ∷ ls) = show_leaf l ++ b',' ∷ show_leafs (k ∷ ls)

  -- An address without the separators, and a port of 32 bits that `stoul` reads back.
  pub record IsPlain (l : Text × ℕ) : Type 0 where
    pub colon : Lacks b':' l.0
    pub comma : Lacks b',' l.0
    pub digits : Lacks b',' (to_string l.1)
    pub port : l.1 < 2 ^ 32
    pub reads : stoul (to_string l.1) ≡ some l.1

  show_leaf-Lacks : (l : Text × ℕ) → IsPlain l → Lacks b',' (show_leaf l)
  show_leaf-Lacks l p =
      Lacks-append b',' l.0 (b':' ∷ to_string l.1) p.comma
        (Lacks-append b',' (b':' ∷ []) (to_string l.1) refl p.digits)

  show_leaf-pos : (xs ys : Text) → 1 ≤ length (xs ++ b':' ∷ ys)
  show_leaf-pos [] ys = omega arith
  show_leaf-pos (x ∷ xs) ys = omega arith

  parse-show : (l : Text × ℕ) → IsPlain l → parse_leaf stoul (show_leaf l) ≡ some l
  unfolding parse_leaf
  parse-show l p =
      let rest = to_string l.1 in
      let n : 0 + length l.0 ≡ length l.0 = omega arith in
      let next : 0 + length l.0 + 1 ≡ suc (length l.0) = omega arith in
      let fits : l.1 % 2 ^ 32 ≡ l.1 = omega (arith, p.port) in
      let leaf : ℕ → Option (Text × ℕ) =
        λ port. some (substr (show_leaf l) 0 (0 + length l.0), port % 2 ^ 32) in
      let parsed : (stoul (drop (0 + length l.0 + 1) (show_leaf l)) >>= leaf) ≡ some l =
        rw (next, n, drop-field b':' l.0 rest, p.reads)
          (rw (fits, take-append l.0 (b':' ∷ rest)) refl) in
      rw (index_of-append b':' l.0 rest p.colon, parse_leaf) parsed

  parse_leafs-show :
      (ls : List (Text × ℕ)) → All IsPlain ls → parse_leafs stoul (map show_leaf ls) ≡ some ls
  unfolding parse_leafs
  parse_leafs-show [] h = refl
  parse_leafs-show (l ∷ ls) h = rw (parse-show l h.0, parse_leafs-show ls h.1) refl

  fields_from-show :
      (l : Text × ℕ) (ls : List (Text × ℕ))
      → All IsPlain (l ∷ ls)
      → fields_from b',' [] (show_leafs (l ∷ ls)) ≡ some (map show_leaf (l ∷ ls))
  fields_from-show l [] h = fields_from-last b',' [] (show_leaf l) (show_leaf-Lacks l h.0)
  fields_from-show l (k ∷ ls) h =
      fields_from-cons b',' (show_leaf l) (show_leafs (k ∷ ls)) (map show_leaf (k ∷ ls))
        (show_leaf-pos l.0 (to_string l.1)) (show_leaf-Lacks l h.0) (fields_from-show k ls h.1)

  -- A list of one or more leafs, each with an address that has no colon and no comma and a port of
  -- 32 bits that `std::stoul` reads back from its digits, which have no comma. If its text,
  -- `ip:port` with commas between, is shorter than 2^63, the server starts with just these leafs,
  -- and more rounds of `split` than the text is long are enough.
  pub start_leafs-show :
      (fuel : ℕ) (l : Text × ℕ) (ls : List (Text × ℕ))
      → All IsPlain (l ∷ ls)
      → length (show_leafs (l ∷ ls)) < 2 ^ 63
      → length (show_leafs (l ∷ ls)) < fuel
      → start_leafs stoul fuel (show_leafs (l ∷ ls)) ≡ serves (l ∷ ls)
  unfolding start_leafs
  start_leafs-show fuel l ls h fits enough =
      rw
        (
          split-fields_from fuel (show_leafs (l ∷ ls)) b',' fits enough ∙ fields_from-show l ls h,
          start_leafs,
        )
        (rw (parse_leafs-show (l ∷ ls) h, on_tokens) refl)
