-- ===== src/Clients/Pipeline/Ends.antt =====
-- Whole runs of the loop.
use thrift_bench.Prelude.{
  ℕ, ◌+◌, ◌^◌, ◌≤◌, ◌<◌, ◌≡◌, refl, inl, inr, Option, some, List, [], ◌∷◌, ltb, length, min, arith,
  All, Bool-cases,
}
use thrift_bench.Clients.Pipeline.{Loop, start_loop, next_tosend, Protocol, turn, loop, run_loop}
use thrift_bench.Clients.Pipeline.Counts.{
  Accepted, IsFaithful, Inv, send_requests-Inv, on_replies-Replied,
}

-- What holds at the head of the loop, with what the next turn sends decided.
pub record Limited {T : Type 0} (q n : ℕ) (l : Loop T) : Type 0 where
  pub inv : Inv q l
  pub room : l.req_out + l.req_tosend ≤ q
  pub quota : l.req_sched + l.req_tosend ≤ n + q
  pub busy : l.req_complete < n → 1 ≤ l.req_out + l.req_tosend

start_loop-Limited :
    {T : Type 0} → (q n : ℕ) → (totals : T) → 1 ≤ q → Limited q n (start_loop q totals)
unfolding start_loop
start_loop-Limited q n totals pos = record {
  inv = record {
    accounted = refl;
    timed = refl;
    named = refl;
    fresh = tt;
    window = omega arith;
    indices = tt;
    made = refl;
  };
  room = omega arith;
  quota = omega arith;
  busy = λ h. omega arith;
}

next_tosend-room :
    (q n out complete : ℕ)
    → out ≤ q
    → q < 2 ^ 31
    → n < 2 ^ 62
    → complete + out ≤ n + q
    → 1 ≤ q
    → (out + next_tosend q n out complete ≤ q)
      × (complete + out + next_tosend q n out complete ≤ n + q)
      × (complete < n → 1 ≤ out + next_tosend q n out complete)
unfolding next_tosend
next_tosend-room q n out complete a b c d e = (ground arith, ground arith, λ h. ground arith)

module _ {P R T : Type 0} (clock : ℕ → ℕ) (p : Protocol P R T) (q n : ℕ) (small : q < 2 ^ 31)
    (few : n < 2 ^ 62) (pos : 1 ≤ q) where
  record Turned (k : ℕ) (l : Loop T) (r : Option (Loop T)) : Type 0 where
    after : Loop T
    returns : r ≡ some after
    limited : Limited q n after
    completes : after.req_complete ≡ l.req_complete + min (l.req_out + l.req_tosend) k

  turn-Turned :
      (as_ : List (ℕ × P)) (l : Loop T)
      → IsFaithful p
      → Accepted p as_
      → Limited q n l
      → Turned (length as_) l (turn clock p q n as_ l)
  unfolding turn
  turn-Turned as_ l faithful ok v =
      let s =
        send_requests-Inv clock p q small l.req_tosend 0 l v.room (omega (arith, v.room))
          (omega (arith, v.quota)) v.inv in
      let r =
        on_replies-Replied clock p q small as_ s.after faithful ok
          (omega (arith, v.quota, s.scheduled)) s.inv in
      let a = r.after in
      let (room, quota, busy) =
        next_tosend-room q n a.req_out a.req_complete r.inv.window small few
          (omega (arith, r.inv.accounted, r.scheduled, s.scheduled, v.quota)) pos in
      record {
        after = record a { req_tosend = next_tosend q n a.req_out a.req_complete };
        returns = rw (s.returns, r.returns) refl;
        limited = record {
          inv = record {
            accounted = r.inv.accounted;
            timed = r.inv.timed;
            named = r.inv.named;
            fresh = r.inv.fresh;
            window = r.inv.window;
            indices = r.inv.indices;
            made = r.inv.made;
          };
          room = room;
          quota = omega (arith, quota, r.inv.accounted);
          busy = busy;
        };
        completes = omega (arith, r.completes, s.out, s.complete);
      }

  record Ran (k : ℕ) (l : Loop T) (r : Option (Loop T)) : Type 0 where
    after : Loop T
    returns : r ≡ some after
    limited : Limited q n after
    progress : min n (l.req_complete + k) ≤ after.req_complete

  loop-Ran :
      (ts : List (List (ℕ × P))) (l : Loop T)
      → IsFaithful p
      → All (λ t. Accepted p t × (1 ≤ length t)) ts
      → Limited q n l
      → Ran (length ts) l (loop clock p q n ts l)
  unfolding loop
  loop-Ran [] l faithful ok v = record {
    after = l;
    returns = refl;
    limited = v;
    progress = omega arith;
  }
  loop-Ran (t ∷ ts) l faithful ok v = elim (Bool-cases (ltb l.req_complete n)) [
    | inl go ↦
        let less : l.req_complete < n = ground (arith, go) in
        let d = turn-Turned t l faithful ok.0.0 v in
        let r = loop-Ran ts d.after faithful ok.1 d.limited in
        record {
          after = r.after;
          returns = rw (go, d.returns) r.returns;
          limited = r.limited;
          progress = omega (arith, r.progress, d.completes, ok.0.1, v.busy less);
        }
    | inr stop ↦
        let more : n ≤ l.req_complete = ground (arith, stop) in
        record { after = l; returns = rw stop refl; limited = v; progress = omega (arith, more) }
  ]

  -- A run of the loop, with a queue depth from 1 to below 2^31 and fewer than 2^62 requests, for a
  -- client whose replies carry the identifiers of the requests they answer. If each turn of the
  -- event loop brings at least one reply, and the client's assertion accepts each, then as many
  -- turns as requests are enough: the run has at least the requested number of replies, no
  -- assertion fails, the requests made are those answered and those outstanding, at most the
  -- queue depth more than requested, with at most the queue depth outstanding, and each call is
  -- made with a counter below the queue depth.
  pub run_loop-ends :
      (totals : T) (ts : List (List (ℕ × P)))
      → IsFaithful p
      → All (λ t. Accepted p t × (1 ≤ length t)) ts
      → n ≤ length ts
      → (l : Loop T) × (run_loop clock p q n totals ts ≡ some l)
        × (n ≤ l.req_complete)
        × (l.req_complete + l.req_out ≡ l.req_sched)
        × (l.req_sched ≤ n + q)
        × (l.req_out ≤ q)
        × (length l.calls ≡ l.req_sched)
        × All (λ c. c.0 < q) l.calls
  unfolding run_loop
  run_loop-ends totals ts faithful ok enough =
      let r = loop-Ran ts (start_loop q totals) faithful ok (start_loop-Limited q n totals pos) in
      (
        r.after,
        r.returns,
        omega (arith, r.progress),
        r.limited.inv.accounted,
        omega (arith, r.limited.quota),
        r.limited.inv.window,
        r.limited.inv.made,
        r.limited.inv.indices,
      )
