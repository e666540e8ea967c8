-- ===== src/StorageRpc/Stats/Dump.antt =====
-- The averages that `DumpInfo` prints, against sums that do not wrap.
use thrift_bench.Prelude.{
  ℕ, ◌+◌, ◌/◌, ◌%◌, ◌^◌, ◌<◌, ◌≡◌, ◌≢◌, false, some, [], ◌∷◌, length, add32, arith, refl,
}
use thrift_bench.StorageRpc.Stats.{Stats, Collector, sum_iops, sum_depth, dump_info}

abbrev pub total : (Stats → ℕ) → Collector → ℕ
total f [] = 0
total f ((id, s) ∷ m) = f s + total f m

sum_iops-total :
    (m : Collector) (acc : ℕ)
    → acc < 2 ^ 32
    → sum_iops m acc ≡ (acc + total (λ s. s.current_iops) m) % 2 ^ 32
unfolding sum_iops
sum_iops-total [] acc h = omega arith
sum_iops-total ((id, s) ∷ m) acc h =
    omega (arith, sum_iops-total m (add32 acc s.current_iops) (omega arith))

sum_depth-total :
    (m : Collector) (acc : ℕ)
    → acc < 2 ^ 32
    → sum_depth m acc ≡ (acc + total (λ s. s.current_queue_depth) m) % 2 ^ 32
unfolding sum_depth
sum_depth-total [] acc h = omega arith
sum_depth-total ((id, s) ∷ m) acc h =
    omega (arith, sum_depth-total m (add32 acc s.current_queue_depth) (omega arith))

-- With clients there, and where the clients' rates and their depths each sum up to less than 2^31,
-- `DumpInfo` prints the number of clients, the average rate and the average depth, rounded down.
pub averages-dump_info :
    (now : ℕ) (m : Collector)
    → m ≢ []
    → total (λ s. s.current_iops) m < 2 ^ 31
    → total (λ s. s.current_queue_depth) m < 2 ^ 31
    → (dump_info now m).averages
      ≡ some (
        length m,
        (false, total (λ s. s.current_iops) m / length m),
        (false, total (λ s. s.current_queue_depth) m / length m),
      )
unfolding dump_info
averages-dump_info now [] ne hi hd = absurd (ne refl)
averages-dump_info now ((id, s) ∷ m) ne hi hd = ground (
  arith,
  sum_iops-total ((id, s) ∷ m) 0 (omega arith),
  sum_depth-total ((id, s) ∷ m) 0 (omega arith),
)
