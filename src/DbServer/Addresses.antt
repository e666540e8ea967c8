-- ===== src/DbServer/Addresses.antt =====
-- The list of leafs in fbthrift/exp3/DB/DBServer.cpp: `split` and the loop of `main` over tokens.
pub mod Fields
pub mod Roundtrip
use thrift_bench.Prelude.{
  ℕ, zero, suc, ◌+◌, ◌-◌, ◌^◌, ◌%◌, ◌≡◌, Bool, true, false, Option, none, some, List, [], ◌∷◌, ◌++◌,
  ◌==◌, if◌then◌else◌, ◌>>=◌, length, drop,
}
use thrift_bench.Prelude.Text.{Text, codes, find, substr}

-- The loop of `split`, with fuel: `none` means that the fuel ran out. Where `e` is `s`, nothing
-- moves on.
pub split_loop : ℕ → Text → ℕ → ℕ → List Text → Option (List Text)
split_loop zero input delim s v = none
split_loop (suc f) input delim s v = elim (find delim input s) [
  | some e ↦
      let rest = split_loop f input delim in
      if e == s then rest s v else rest (e + 1) (v ++ substr input s (e - s) ∷ [])
  | none ↦ some (if 2 ^ 64 - 1 == s then v else v ++ drop s input ∷ [])
]

unfoldable pub split : ℕ → Text → ℕ → Option (List Text)
unfolding split_loop
split fuel input delim = split_loop fuel input delim 0 []

pub data Startup : Type 0 where
  spins : Startup
  invalid_argument : Startup
  serves : List (Text × ℕ) → Startup

-- `std::stoul` is a parameter; `none` is its exception.
module _ (stoul : Text → Option ℕ) where
  -- The address and the port of a token; the port is narrowed to 32 bits.
  pub parse_leaf : Text → Option (Text × ℕ)
  parse_leaf t = do
    e ← find b':' t 0
    port ← stoul (drop (e + 1) t)
    some (substr t 0 e, port % 2 ^ 32)

  pub parse_leafs : List Text → Option (List (Text × ℕ))
  unfolding parse_leaf
  parse_leafs [] = some []
  parse_leafs (t ∷ ts) = do l ← parse_leaf t; ls ← parse_leafs ts; some (l ∷ ls)

  -- The beginning of `main`. The test of `token.size()` is the first clause.
  pub on_tokens : List Text → Startup
  unfolding parse_leafs
  on_tokens [] = invalid_argument
  on_tokens (t ∷ ts) = elim (parse_leafs (t ∷ ts)) [
    | none ↦ invalid_argument
    | some leafs ↦ serves leafs
  ]

  pub start_leafs : ℕ → Text → Startup
  unfolding on_tokens split
  start_leafs fuel leaf_server = elim (split fuel leaf_server b',') [
    | none ↦ spins
    | some tokens ↦ on_tokens tokens
  ]
