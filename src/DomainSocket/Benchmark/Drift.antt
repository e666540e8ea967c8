-- ===== src/DomainSocket/Benchmark/Drift.antt =====
-- The counters of the loop, which drift apart.
use thrift_bench.Prelude.{
  ℕ, ◌+◌, ◌-◌, ◌*◌, ◌/◌, ◌^◌, ◌≤◌, ◌<◌, ◌≡◌, refl, sym, ap, ◌∙◌, inl, inr, Option, some, List, [],
  ◌∷◌, leb, ◌==◌, if◌then◌else◌, add64, sub64, min, length, arith, Bool-cases, All,
}
use native.Mathlib.Nat.{suc-mul}
use thrift_bench.StorageRpc.Stats.{Collector}
use thrift_bench.StorageRpc.Echo.{Config}
use thrift_bench.StorageRpc.Echo.Counts.{HasClient}
use thrift_bench.DomainSocket.Benchmark.{
  Call, Loop, Turn, start_loop, send_requests, on_replies, next_to_send, turn, going, loop,
  benchmark,
}
use thrift_bench.DomainSocket.Benchmark.Parts.{
  send_requests-Sent, on_replies-Replied, on_clock-Ticked,
}

-- What holds at the head of the loop.
pub record Inv (c : Config) (l : Loop) : Type 0 where
  pub uncounted : l.req_sent ≡ 0
  pub wrapped : l.req_out ≡ sub64 0 l.req_complete
  pub answered : l.req_complete ≤ l.req_id
  pub made : length l.calls ≡ l.req_id
  pub alive : 1 ≤ l.current_depth
  pub shallow : l.current_depth ≤ c.queue_depth
  pub sends : l.to_send ≡ (if l.req_complete == 0 then l.current_depth else 1)

next_to_send-wrapped :
    (c : Config) (l : Loop)
    → c.queue_depth < 2 ^ 32
    → l.req_complete < 2 ^ 62
    → l.req_sent ≡ 0
    → l.req_out ≡ sub64 0 l.req_complete
    → l.current_depth ≤ c.queue_depth
    → next_to_send c l ≡ (if l.req_complete == 0 then l.current_depth else 1)
unfolding next_to_send
next_to_send-wrapped c l narrow few uncounted wrapped shallow = ground arith

record Turned (c : Config) (id k : ℕ) (l : Loop) (r : Option (Collector × Loop)) : Type 0 where
  stats : Collector
  after : Loop
  returns : r ≡ some (stats, after)
  known : HasClient id stats
  inv : Inv c after
  completes : after.req_complete ≡ l.req_complete + min k (l.req_id + l.to_send - l.req_complete)
  named : after.req_id ≡ l.req_id + l.to_send

-- What a turn sends.
to_send-bounds : (c : Config) (l : Loop) → Inv c l → (1 ≤ l.to_send) × (l.to_send ≤ c.queue_depth)
to_send-bounds c l v = elim (Bool-cases (l.req_complete == 0)) [
  | inl e ↦
      let s : l.to_send ≡ l.current_depth = v.sends ∙ rw e refl in
      (omega (arith, s, v.alive), omega (arith, s, v.shallow))
  | inr e ↦
      let s : l.to_send ≡ 1 = v.sends ∙ rw e refl in
      (omega (arith, s), omega (arith, s, v.alive, v.shallow))
]

turn-Turned :
    (c : Config) (f : ℕ → Call) (id : ℕ) (t : Turn) (stats : Collector) (l : Loop)
    → c.queue_depth < 2 ^ 32
    → l.req_id + c.queue_depth < 2 ^ 62
    → HasClient id stats
    → Inv c l
    → Turned c id t.replies l (turn c f id t stats l)
unfolding turn
turn-Turned c f id t stats l narrow few known v =
    let b = to_send-bounds c l v in
    let l1 = send_requests f l.to_send l in
    let s = send_requests-Sent f l.to_send l (omega (arith, b.1)) in
    let l2 : Loop = record l1 { ios_in_last_second = add64 l1.ios_in_last_second l.to_send } in
    let k = min t.replies (l2.req_id - l2.req_complete) in
    let a =
      on_replies-Replied k l2 (omega (arith, s.named, s.complete, b.1, v.answered))
        (s.out ∙ v.wrapped ∙ ap (λ n. sub64 0 n) (sym s.complete)) in
    let l3 = on_replies k l2 in
    let e = a.depth ∙ s.depth in
    let w =
      on_clock-Ticked c id t.now (leb 1 (sub64 t.now l3.iops_timer / 1000000000)) stats l3 narrow
        (omega (arith, e, v.alive)) (omega (arith, e, v.shallow)) known in
    let l4 : Loop = record l3 {
      current_depth = w.depth;
      iops_timer = w.timer;
      ios_in_last_second = w.ios;
    } in
    let none_sent : l3.req_sent ≡ 0 = a.uncounted ∙ s.uncounted ∙ v.uncounted in
    let small : l3.req_complete < 2 ^ 62 =
      omega (arith, a.complete, s.named, s.complete, b.1, v.answered) in
    record {
      stats = w.stats;
      after = record l4 { to_send = next_to_send c l4 };
      returns = rw w.returns refl;
      known = w.known;
      inv = record {
        uncounted = none_sent;
        wrapped = a.out;
        answered = omega (arith, a.complete, a.named, s.named, s.complete, v.answered);
        made = omega (arith, a.made, s.made, a.named, s.named, v.made);
        alive = w.alive;
        shallow = w.shallow;
        sends = next_to_send-wrapped c l4 narrow small none_sent a.out w.shallow;
      };
      completes = omega (arith, a.complete, s.named, s.complete);
      named = omega (arith, a.named, s.named);
    }

record Ran (c : Config) (id n : ℕ) (l : Loop) (r : Option (Collector × Loop)) : Type 0 where
  stats : Collector
  after : Loop
  returns : r ≡ some (stats, after)
  known : HasClient id stats
  inv : Inv c after
  progress : min c.requests (l.req_complete + n) ≤ after.req_complete

loop-Ran :
    (c : Config) (f : ℕ → Call) (id : ℕ) (ts : List Turn) (stats : Collector) (l : Loop)
    → c.queue_depth < 2 ^ 32
    → l.req_id + length ts * c.queue_depth < 2 ^ 62
    → HasClient id stats
    → Inv c l
    → All (λ t. 1 ≤ t.replies) ts
    → Ran c id (length ts) l (loop c f id ts stats l)
unfolding loop going
loop-Ran c f id [] stats l narrow few known v h = record {
  stats = stats;
  after = l;
  returns = refl;
  known = known;
  inv = v;
  progress = omega arith;
}
loop-Ran c f id (t ∷ ts) stats l narrow few known v h = elim (Bool-cases (going c l)) [
  | inl go ↦
      let more = suc-mul (length ts) c.queue_depth in
      let b = to_send-bounds c l v in
      let d = turn-Turned c f id t stats l narrow (omega (arith, more)) known v in
      let r =
        loop-Ran c f id ts d.stats d.after narrow (omega (arith, more, d.named, b.1)) d.known d.inv
          h.1 in
      record {
        stats = r.stats;
        after = r.after;
        returns = rw (go, d.returns) r.returns;
        known = r.known;
        inv = r.inv;
        progress = omega (arith, r.progress, d.completes, h.0, v.answered, b.0);
      }
  | inr stop ↦ record {
    stats = stats;
    after = l;
    returns = rw stop refl;
    known = known;
    inv = v;
    progress = ground arith;
  }
]

-- A run whose queue depth is from 1 to below 2^32, for a client that the collector has, of turns
-- that each bring a reply, so few that the turns times the queue depth are below 2^62. It fails no
-- lookup of the collector, and by as many turns as requests a limited run has its replies. But
-- `req_sent` stays 0 and `req_out` is the number of replies below 2^64, so that the next turn
-- always sends: the current depth before the first reply, one request after it, also when all
-- that were wanted have been sent.
pub benchmark-drift :
    (c : Config) (f : ℕ → Call) (id now : ℕ) (ts : List Turn) (stats : Collector)
    → 1 ≤ c.queue_depth
    → c.queue_depth < 2 ^ 32
    → length ts * c.queue_depth < 2 ^ 62
    → HasClient id stats
    → All (λ t. 1 ≤ t.replies) ts
    → (stats' : Collector) × (l : Loop) × (benchmark c f id now ts stats ≡ some (stats', l))
      × (min c.requests (length ts) ≤ l.req_complete)
      × (length l.calls ≡ l.req_id)
      × (l.req_complete ≤ l.req_id)
      × (l.req_sent ≡ 0)
      × (l.req_out ≡ sub64 0 l.req_complete)
      × (l.to_send ≡ (if l.req_complete == 0 then l.current_depth else 1))
unfolding benchmark start_loop
benchmark-drift c f id now ts stats deep narrow few known h =
    let r =
      loop-Ran c f id ts stats (start_loop now) narrow (omega arith) known
        (record {
          uncounted = refl;
          wrapped = refl;
          answered = omega arith;
          made = refl;
          alive = omega arith;
          shallow = deep;
          sends = refl;
        })
        h in
    (
      r.stats,
      r.after,
      r.returns,
      omega (arith, r.progress),
      r.inv.made,
      r.inv.answered,
      r.inv.uncounted,
      r.inv.wrapped,
      r.inv.sends,
    )
