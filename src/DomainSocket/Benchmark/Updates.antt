-- ===== src/DomainSocket/Benchmark/Updates.antt =====
-- A turn of a client that the collector has.
use thrift_bench.Prelude.{
  ℕ, ◌≡◌, refl, sym, ap, ◌∙◌, inl, inr, Bool, true, false, not, Option, some, leb, sub64, ◌==◌,
  lookup, insert, lookup-insert, add64, min, ◌-◌, ◌/◌, arith, Bool-cases,
}
use thrift_bench.StorageRpc.Stats.{Collector, is_none, update, updated, Stats}
use thrift_bench.StorageRpc.Echo.{Config, adjust_depth}
use thrift_bench.DomainSocket.Benchmark.{
  Call, Loop, Turn, turn, on_clock, send_requests, on_replies, next_to_send,
}

abbrev pub is_known : Collector → ℕ → Bool
is_known stats id = not (is_none (lookup id stats))

-- The collector after a turn of a client that it has.
pub record Updates (stats : Collector) (r : Option (Collector × Loop)) : Type 0 where
  pub after : Collector
  pub loop : Loop
  pub returns : r ≡ some (after, loop)
  pub same : (q : ℕ) → is_known after q ≡ is_known stats q

on_clock-Updates :
    (c : Config) (id now : ℕ) (test : Bool) (stats : Collector) (l : Loop) (s : Stats)
    → lookup id stats ≡ some s
    → Updates stats (on_clock c id now test stats l)
unfolding on_clock update
on_clock-Updates c id now false stats l s e = record {
  after = stats;
  loop = l;
  returns = refl;
  same = λ q. refl;
}
on_clock-Updates c id now true stats l s e =
    let u = updated l.current_depth l.ios_in_last_second l.ios_in_last_second s in
    record {
      after = insert id u stats;
      loop = record l {
        current_depth = adjust_depth c l.ios_in_last_second l.current_depth;
        ios_in_last_second = 0;
        iops_timer = now;
      };
      returns = rw e refl;
      same = λ q. elim (Bool-cases (id == q)) [
        | inl here ↦
            let same : id ≡ q = ground (arith, here) in
            rw (lookup-insert id q u stats, here)
              (ap (λ o. not (is_none o)) (sym e) ∙ ap (is_known stats) same)
        | inr other ↦ rw (lookup-insert id q u stats, other) refl
      ];
    }

pub turn-Updates :
    (c : Config) (f : ℕ → Call) (id : ℕ) (t : Turn) (stats : Collector) (l : Loop) (s : Stats)
    → lookup id stats ≡ some s
    → Updates stats (turn c f id t stats l)
unfolding turn
turn-Updates c f id t stats l s e =
    let l1 = send_requests f l.to_send l in
    let l2 : Loop = record l1 { ios_in_last_second = add64 l1.ios_in_last_second l.to_send } in
    let l3 = on_replies (min t.replies (l2.req_id - l2.req_complete)) l2 in
    let w =
      on_clock-Updates c id t.now (leb 1 (sub64 t.now l3.iops_timer / 1000000000)) stats l3 s e in
    record {
      after = w.after;
      loop = record w.loop { to_send = next_to_send c w.loop };
      returns = rw w.returns refl;
      same = w.same;
    }
