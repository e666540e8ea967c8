-- ===== src/StorageRpc/Stats/History.antt =====
-- What the collector holds after any history of calls.
use thrift_bench.Prelude.{
  ℕ, ◌+◌, ◌%◌, ◌^◌, ◌≡◌, Option, none, some, List, [], ◌∷◌, ◌==◌, if◌then◌else◌, ◌>>=◌, lookup,
  arith, lookup-insert, Bool-cases, Option-cases, inl, inr, ap,
}
use thrift_bench.StorageRpc.Stats.{Stats, Collector, new_stats, client_add, update, updated}

pub data Call : Type 0 where
  adds : (now id : ℕ) → Call
  updates : (id queue_depth iops new_ios : ℕ) → Call

unfoldable pub call : Call → Collector → Option Collector
unfolding client_add update
call (adds now id) stats = client_add now id stats
call (updates id d i n) stats = update id d i n stats

unfoldable pub calls : List Call → Collector → Option Collector
unfolding call
calls [] stats = some stats
calls (c ∷ cs) stats = call c stats >>= λ stats'. calls cs stats'

-- What a history says of one client, read from its calls alone.
abbrev step_of : ℕ → Call → Option Stats → Option Stats
step_of id (adds now j) o =
    if j == id
    then some (record {
      start = now;
      current_queue_depth = 0;
      current_iops = 0;
      total_ios = 0;
      total_updates = 0;
    })
    else o
step_of id (updates j d i n) none = none
step_of id (updates j d i n) (some s) =
    if j == id
    then some (record {
      start = s.start;
      current_queue_depth = d;
      current_iops = i;
      total_ios = (s.total_ios + n) % 2 ^ 64;
      total_updates = (s.total_updates + 1) % 2 ^ 64;
    })
    else some s

abbrev pub stats_of : ℕ → List Call → Option Stats → Option Stats
stats_of id [] o = o
stats_of id (c ∷ cs) o = stats_of id cs (step_of id c o)

call-lookup :
    (c : Call) (id : ℕ) (stats stats' : Collector)
    → call c stats ≡ some stats'
    → lookup id stats' ≡ step_of id c (lookup id stats)
unfolding call client_add new_stats update updated
call-lookup (adds now j) id stats stats' e =
    ground (arith, lookup-insert j id (new_stats now) stats)
call-lookup (updates j d i n) id stats stats' e = elim (Option-cases (lookup j stats)) [
  | inl missing ↦ ground (arith, missing)
  | inr (s, found) ↦ elim (Bool-cases (j == id)) [
    | inl same ↦
        let j_id : j ≡ id = ground arith in
        ground
          (arith, found, ap (λ k. lookup k stats) j_id, lookup-insert j id (updated d i n s) stats)
    | inr other ↦ elim (Option-cases (lookup id stats)) [
      | inl none_there ↦
          ground (arith, found, none_there, lookup-insert j id (updated d i n s) stats)
      | inr (t, there) ↦ ground (arith, found, there, lookup-insert j id (updated d i n s) stats)
    ]
  ]
]

-- After any history that raises no assertion, what the collector holds of a client is what the
-- history says of it: the time of its `ClientAdd`, the depth and the rate of its last `Update`, and
-- the sum of its new I/Os and the number of its updates modulo 2^64; the calls for other clients
-- change nothing.
pub calls-lookup :
    (cs : List Call) (id : ℕ) (stats stats' : Collector)
    → calls cs stats ≡ some stats'
    → lookup id stats' ≡ stats_of id cs (lookup id stats)
unfolding calls
calls-lookup [] id stats stats' e = ground arith
calls-lookup (c ∷ cs) id stats stats' e = elim (Option-cases (call c stats)) [
  | inl fails ↦ ground (arith, fails)
  | inr (mid, ok) ↦
      rw (← call-lookup c id stats mid ok) (calls-lookup cs id mid stats' (rw ok at e))
]
