-- ===== src/StorageRpc/Echo/Ends.antt =====
-- Whole runs of the echo benchmark.
use thrift_bench.Prelude.{
  ℕ, ◌+◌, ◌^◌, ◌≤◌, ◌<◌, ◌≡◌, refl, inl, inr, true, false, Option, none, some, List, [], ◌∷◌,
  length, All, arith, min, Bool-cases, lookup, lookup-insert, insert,
}
use thrift_bench.StorageRpc.Stats.{Collector, new_stats, client_add, client_add-new}
use thrift_bench.StorageRpc.Echo.{
  Config, Loop, Turn, benchmark_echo, start_loop, next_to_send, going, loop,
}
use thrift_bench.StorageRpc.Echo.Counts.{IsSane, Inv, HasClient, Turned, turn-Turned}

-- Every reply carries as much data as was sent.
abbrev pub Echoes : Config → Turn → Type 0
Echoes c t = All (λ len. len ≡ c.block_size) t.replies

-- What holds at the head of the loop, with what the next turn sends decided.
pub record Limited (c : Config) (l : Loop) : Type 0 where
  pub inv : Inv c (c.requests + c.queue_depth) l
  pub steady : l.to_send ≡ next_to_send c l
  pub quota : l.req_sent + l.to_send ≤ c.requests + c.queue_depth

start_loop-Limited : (c : Config) (now : ℕ) → IsSane c → Limited c (start_loop now)
unfolding start_loop next_to_send
start_loop-Limited c now s = record {
  inv = record {
    accounted = omega arith;
    named = refl;
    bounded = omega arith;
    shallow = s.deep;
    alive = omega arith;
    batch = s.deep;
  };
  steady = ground arith;
  quota = omega (arith, s.deep);
}

-- As long as the limited loop runs, something is outstanding in the next turn.
outstanding_pos :
    (c : Config) (l : Loop)
    → IsSane c
    → c.unlimited ≡ false
    → Limited c l
    → going c l ≡ true
    → 1 ≤ l.req_out + l.to_send
unfolding next_to_send going
outstanding_pos c l sane lim v g =
    ground (arith, sane.narrow, v.steady, v.inv.shallow, v.inv.accounted, v.inv.alive)

stopped_complete :
    (c : Config) (l : Loop) → c.unlimited ≡ false → going c l ≡ false → c.requests ≤ l.req_complete
unfolding going
stopped_complete c l lim g = ground arith

next_quota :
    (c : Config) (l : Loop)
    → c.unlimited ≡ false
    → l.req_sent ≤ c.requests + c.queue_depth
    → next_to_send c l ≤ c.queue_depth
    → l.req_sent + next_to_send c l ≤ c.requests + c.queue_depth
unfolding next_to_send
next_quota c l lim h k = ground arith

after-Limited :
    (c : Config) (id : ℕ) (t : Turn) (l : Loop) {r : Option (Collector × Loop)}
    → c.unlimited ≡ false
    → Limited c l
    → (d : Turned c id (c.requests + c.queue_depth) t l r) → Limited c d.after
after-Limited c id t l lim v d =
    let q =
      next_quota c d.after lim (omega (arith, d.sends, v.quota))
        (omega (arith, d.next, d.inv.batch)) in
    record {
      inv = record {
        accounted = d.inv.accounted;
        named = d.inv.named;
        bounded = omega (arith, d.sends, v.quota);
        shallow = d.inv.shallow;
        alive = d.inv.alive;
        batch = d.inv.batch;
      };
      steady = d.next;
      quota = omega (arith, q, d.next);
    }

-- A run in which each turn brings a reply.
record Ran (c : Config) (id n : ℕ) (l : Loop) (r : Option (Collector × Loop)) : Type 0 where
  stats : Collector
  after : Loop
  returns : r ≡ some (stats, after)
  limited : Limited c after
  known : HasClient id stats
  progress : min c.requests (l.req_complete + n) ≤ after.req_complete

loop-Ran :
    (c : Config) (id : ℕ) (ts : List Turn) (stats : Collector) (l : Loop)
    → IsSane c
    → c.unlimited ≡ false
    → c.requests < 2 ^ 62
    → HasClient id stats
    → Limited c l
    → All (λ t. Echoes c t × (1 ≤ length t.replies)) ts
    → Ran c id (length ts) l (loop c id ts stats l)
unfolding loop
loop-Ran c id [] stats l sane lim fits known v h = record {
  stats = stats;
  after = l;
  returns = refl;
  limited = v;
  known = known;
  progress = omega arith;
}
loop-Ran c id (t ∷ ts) stats l sane lim fits known v h = elim (Bool-cases (going c l)) [
  | inl go ↦
      let d =
        turn-Turned c id (c.requests + c.queue_depth) t stats l sane v.inv
          (omega (arith, sane.narrow)) known h.0.0 in
      let r =
        loop-Ran c id ts d.stats d.after sane lim fits d.known (after-Limited c id t l lim v d)
          h.1 in
      record {
        stats = r.stats;
        after = r.after;
        returns = rw (go, d.returns) r.returns;
        limited = r.limited;
        known = r.known;
        progress = omega (arith, r.progress, d.completes, h.0.1, outstanding_pos c l sane lim v go);
      }
  | inr stop ↦ record {
    stats = stats;
    after = l;
    returns = rw stop refl;
    limited = v;
    known = known;
    progress = omega (arith, stopped_complete c l lim stop);
  }
]

-- A limited run, with a queue depth from 1 to below 2^31 and fewer than 2^62 requests, for a client
-- that is not there yet. If each turn of the event loop brings at least one reply, and each reply as
-- much data as was sent, then as many turns as requests are enough: the loop has ended by its test,
-- with at least the requested number of replies and no more than that number and the queue depth
-- of requests sent. No assertion fails, and the client is in the collector.
pub benchmark_echo-ends :
    (c : Config) (id now : ℕ) (ts : List Turn) (stats : Collector)
    → IsSane c
    → c.unlimited ≡ false
    → c.requests < 2 ^ 62
    → lookup id stats ≡ none
    → All (λ t. Echoes c t × (1 ≤ length t.replies)) ts
    → c.requests ≤ length ts
    → (stats' : Collector) × (l : Loop) × (benchmark_echo c id now ts stats ≡ some (stats', l))
      × (going c l ≡ false)
      × (c.requests ≤ l.req_complete)
      × (l.req_complete + l.req_out ≡ l.req_sent)
      × (l.req_sent ≤ c.requests + c.queue_depth)
      × HasClient id stats'
unfolding benchmark_echo going
benchmark_echo-ends c id now ts stats sane lim fits absent h enough =
    let stats1 = insert id (new_stats now) stats in
    let added : client_add now id stats ≡ some stats1 = client_add-new now id stats absent in
    let known : HasClient id stats1 =
      (new_stats now, ground (arith, lookup-insert id id (new_stats now) stats)) in
    let r =
      loop-Ran c id ts stats1 (start_loop now) sane lim fits known (start_loop-Limited c now sane)
        h in
    (
      r.stats,
      r.after,
      rw added r.returns,
      ground (arith, r.progress),
      omega (arith, r.progress),
      r.limited.inv.accounted,
      omega (arith, r.limited.quota),
      r.known,
    )
