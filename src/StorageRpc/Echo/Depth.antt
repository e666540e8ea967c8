-- ===== src/StorageRpc/Echo/Depth.antt =====
-- The controller of the queue depth.
use native.Mathlib.Decide.{dec_lt}
use Prim.Native.Nat.{max}
use thrift_bench.Prelude.{inl, inr, ℕ, ◌+◌, ◌-◌, ◌^◌, ◌≤◌, ◌<◌, ◌≡◌, ◌⊎◌, min, arith}
use thrift_bench.StorageRpc.Echo.{Config, adjust_depth}

-- From a depth in the range 1 to the queue depth, which is at least 1 and below 2^32, the
-- controller stays in that range: below the rate limit it goes up by one unless it is at the queue
-- depth, at the limit it keeps the depth, and above it it goes down by one unless it is at 1.
pub adjust_depth_lem :
    (c : Config) (ios depth : ℕ)
    → 1 ≤ depth
    → depth ≤ c.queue_depth
    → c.queue_depth < 2 ^ 32
    → (1 ≤ adjust_depth c ios depth)
      × (adjust_depth c ios depth ≤ c.queue_depth)
      × (((ios < c.iops_rate_limit) × (adjust_depth c ios depth ≡ min (depth + 1) c.queue_depth))
          ⊎ ((ios ≡ c.iops_rate_limit) × (adjust_depth c ios depth ≡ depth))
          ⊎ ((c.iops_rate_limit < ios) × (adjust_depth c ios depth ≡ max (depth - 1) 1)))
unfolding adjust_depth
adjust_depth_lem c ios depth lo hi fits =
    let in_range : (1 ≤ adjust_depth c ios depth) × (adjust_depth c ios depth ≤ c.queue_depth) =
      (ground arith, ground arith) in
    (in_range.0, in_range.1, cases (dec_lt ios c.iops_rate_limit) (dec_lt c.iops_rate_limit ios))
  where
    cases :
        Dec (ios < c.iops_rate_limit)
        → Dec (c.iops_rate_limit < ios)
        → ((ios < c.iops_rate_limit) × (adjust_depth c ios depth ≡ min (depth + 1) c.queue_depth))
          ⊎ ((ios ≡ c.iops_rate_limit) × (adjust_depth c ios depth ≡ depth))
          ⊎ ((c.iops_rate_limit < ios) × (adjust_depth c ios depth ≡ max (depth - 1) 1))
    cases (yes below) _ = inl (below, ground arith)
    cases (no _) (yes above) = inr (inr (above, ground arith))
    cases (no h) (no k) = inr (inl (omega arith, ground arith))
