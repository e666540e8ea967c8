-- ===== src/DbServer/Handler/Threads.antt =====
-- `getLeaf` of fbthrift/exp3/DB/DBServer.cpp, a memory access at a time, on several threads: the server
-- calls the handler on many, and nothing locks `curLeaf`. An access is taken to be atomic, which is
-- more than C++ promises.
pub mod Races
use thrift_bench.Prelude.{ℕ, zero, suc, ◌+◌, ◌%◌, ◌^◌, List, [], ◌∷◌, add32}

-- What comes next: to load `curLeaf`, to store the next number, and to load it again as the index;
-- and the index in the end.
pub data Place : Type 0 where
  loads : Place
  stores : ℕ → Place
  picks : Place
  got : ℕ → Place

-- One access, where there are `n` leafs.
pub access : (n : ℕ) → Place → (cur_leaf : ℕ) → Place × ℕ
access n loads cur_leaf = (stores (add32 cur_leaf 1 % n), cur_leaf)
access n (stores v) cur_leaf = (picks, v)
access n picks cur_leaf = (got cur_leaf, cur_leaf)
access n (got i) cur_leaf = (got i, cur_leaf)

-- A turn of the k-th thread.
pub turn : (n k : ℕ) → List Place → ℕ → List Place × ℕ
unfolding access
turn n k [] cur_leaf = ([], cur_leaf)
turn n zero (p ∷ ps) cur_leaf = let r = access n p cur_leaf in (r.0 ∷ ps, r.1)
turn n (suc k) (p ∷ ps) cur_leaf = let r = turn n k ps cur_leaf in (p ∷ r.0, r.1)

-- The turns of a schedule.
pub run : (n : ℕ) → List ℕ → List Place → ℕ → List Place × ℕ
unfolding turn
run n [] ps cur_leaf = (ps, cur_leaf)
run n (k ∷ ks) ps cur_leaf = let r = turn n k ps cur_leaf in run n ks r.0 r.1
