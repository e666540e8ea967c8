-- ===== src/StorageRpc/Stats.antt =====
-- `StatsCollector` of StorageRpc/Client.cpp (and of fbthrift/domain-socket/Client.cpp, which has the
-- same text). Each method holds the mutex throughout, so a run is a sequence of calls.
pub mod History
pub mod Dump
use thrift_bench.Prelude.{
  refl, ℕ, zero, suc, ◌+◌, ◌-◌, ◌/◌, ◌%◌, ◌^◌, ◌≡◌, Bool, true, false, not, Option, none, some,
  List, [], ◌∷◌, ◌++◌, map, ltb, leb, ◌==◌, if◌then◌else◌, ◌>>=◌, ◌>>◌, assert, length, lookup,
  insert, add64, sub64, add32,
}

pub record Stats : Type 0 where
  pub start : ℕ
  pub current_queue_depth : ℕ
  pub current_iops : ℕ
  pub total_ios : ℕ
  pub total_updates : ℕ

abbrev pub Collector : Type 0
Collector = List (ℕ × Stats)

-- The constructor, at the time that it reads.
pub new_stats : ℕ → Stats
new_stats now = record {
  start = now;
  current_queue_depth = 0;
  current_iops = 0;
  total_ios = 0;
  total_updates = 0;
}

abbrev pub is_none {ℓ} : {A : Type ℓ} → Option A → Bool
is_none none = true
is_none (some a) = false

unfoldable pub client_add : ℕ → ℕ → Collector → Option Collector
unfolding new_stats
client_add now id stats = do
  assert (is_none (lookup id stats))
  some (insert id (new_stats now) stats)

pub client_add-new :
    (now id : ℕ) (stats : Collector)
    → lookup id stats ≡ none
    → client_add now id stats ≡ some (insert id (new_stats now) stats)
unfolding client_add
client_add-new now id stats e = rw e refl

pub updated : ℕ → ℕ → ℕ → Stats → Stats
updated queue_depth iops new_ios s = record s {
  current_queue_depth = queue_depth;
  current_iops = iops;
  total_ios = add64 s.total_ios new_ios;
  total_updates = add64 s.total_updates 1;
}

unfoldable pub update : ℕ → ℕ → ℕ → ℕ → Collector → Option Collector
unfolding updated
update id queue_depth iops new_ios stats = do
  s ← lookup id stats
  some (insert id (updated queue_depth iops new_ios s) stats)

-- The line that `DumpInfo` prints for a client.
pub record Line : Type 0 where
  pub client : ℕ
  pub run_time : ℕ
  pub queue_depth : ℕ
  pub iops : ℕ
  pub ios : ℕ
  pub updates : ℕ

-- An `int` as it is printed: its sign and its size. The argument is its bit pattern.
abbrev pub to_int : ℕ → Bool × ℕ
to_int w = if ltb w (2 ^ 31) then (false, w) else (true, 2 ^ 32 - w)

-- `int` division truncates toward zero; the divisor is a positive `int` here.
abbrev pub div_int : ℕ → ℕ → Bool × ℕ
div_int w n = let (neg, m) = to_int w in (neg, m / n)

-- What `DumpInfo` prints; the averages are missing where there is no client.
pub record Report : Type 0 where
  pub lines : List Line
  pub averages : Option (ℕ × (Bool × ℕ) × (Bool × ℕ))

line_of : ℕ → ℕ × Stats → Line
line_of now (id, s) = record {
  client = id;
  run_time = sub64 now s.start / 1000000000;
  queue_depth = s.current_queue_depth;
  iops = s.current_iops;
  ios = s.total_ios;
  updates = s.total_updates;
}

-- `cur_iops` and `cur_depth` are `int`s: each sum is cut to 32 bits.
sum_iops : Collector → ℕ → ℕ
sum_iops [] acc = acc
sum_iops ((id, s) ∷ m) acc = sum_iops m (add32 acc s.current_iops)

sum_depth : Collector → ℕ → ℕ
sum_depth [] acc = acc
sum_depth ((id, s) ∷ m) acc = sum_depth m (add32 acc s.current_queue_depth)

-- `DumpInfo`. The order of an `unordered_map` is not specified: any order may stand for it.
pub dump_info : ℕ → Collector → Report
unfolding line_of sum_iops sum_depth
dump_info now stats =
    let clients = length stats in
    record {
      lines = map (line_of now) stats;
      averages =
          if clients == 0
          then none
          else some
              (clients, div_int (sum_iops stats 0) clients, div_int (sum_depth stats 0) clients);
    }
