-- ===== src/StorageRpc/Echo/Counts.antt =====
-- The counters of the echo loop: no assertion fails, and none of them wraps.
use thrift_bench.Prelude.{
  ℕ, zero, suc, ◌+◌, ◌-◌, ◌/◌, ◌^◌, ◌≤◌, ◌<◌, ◌≡◌, refl, ◌∙◌, Bool, true, false, Option, some, List,
  [], ◌∷◌, leb, length, take, length-take, All, add64, sub64, arith, min, lookup, insert,
  lookup-insert,
}
use thrift_bench.StorageRpc.Stats.{Stats, Collector, update, updated}
use thrift_bench.StorageRpc.Echo.{
  Config, Loop, Turn, send_one, send_requests, on_reply, on_replies, adjust_depth, each_second,
  next_to_send, turn, on_clock,
}
use thrift_bench.StorageRpc.Echo.Depth.{adjust_depth_lem}

-- The settings under which no counter comes near 2^64.
pub record IsSane (c : Config) : Type 0 where
  pub deep : 1 ≤ c.queue_depth
  pub narrow : c.queue_depth < 2 ^ 31

-- What holds at the head of the `while` loop; `used` bounds what has been sent.
pub record Inv (c : Config) (used : ℕ) (l : Loop) : Type 0 where
  pub accounted : l.req_complete + l.req_out ≡ l.req_sent
  pub named : l.req_id ≡ l.req_sent
  pub bounded : l.req_sent ≤ used
  pub shallow : l.current_depth ≤ c.queue_depth
  pub alive : 1 ≤ l.current_depth
  pub batch : l.to_send ≤ c.queue_depth

-- The state after `n` more sends, and after `n` more replies.
abbrev sent : ℕ → Loop → Loop
sent n l = record l { req_id = l.req_id + n; req_out = l.req_out + n; req_sent = l.req_sent + n }

abbrev replied : ℕ → Loop → Loop
replied n l = record l { req_complete = l.req_complete + n; req_out = l.req_out - n }

Loop-eq :
    (l : Loop) {a b : ℕ} {p q : ℕ} {r s : ℕ}
    → a ≡ b
    → p ≡ q
    → r ≡ s
    → ◌≡◌ {A = Loop}
        (record l { req_id = a; req_out = p; req_sent = r })
        (record l { req_id = b; req_out = q; req_sent = s })
Loop-eq l e f g = λ i. record l { req_id = e i; req_out = f i; req_sent = g i }

send_requests-sent :
    (n : ℕ) (l : Loop)
    → l.req_id + n < 2 ^ 64
    → l.req_out + n < 2 ^ 64
    → l.req_sent + n < 2 ^ 64
    → send_requests n l ≡ sent n l
unfolding send_requests
send_requests-sent zero l a b c = Loop-eq l (omega arith) (omega arith) (omega arith)
send_requests-sent (suc n) l a b c =
    send_requests-sent n (send_one l) (omega arith) (omega arith) (omega arith)
    ∙ Loop-eq l (omega arith) (omega arith) (omega arith)

on_replies-replied :
    (c : Config) (lens : List ℕ) (l : Loop)
    → All (λ len. len ≡ c.block_size) lens
    → length lens ≤ l.req_out
    → l.req_complete + l.req_out < 2 ^ 64
    → on_replies c lens l ≡ some (replied (length lens) l)
unfolding on_replies on_reply
on_replies-replied c [] l h le fits = ground arith
on_replies-replied c (len ∷ lens) l h le fits =
    let l' : Loop = record l {
      req_complete = add64 l.req_complete 1;
      req_out = sub64 l.req_out 1;
    } in
    ground (arith, on_replies-replied c lens l' h.1)

abbrev pub HasClient : ℕ → Collector → Type 0
HasClient id stats = (s : Stats) × (lookup id stats ≡ some s)

-- The part of a turn that looks at the clock.
record Ticked (c : Config) (id : ℕ) (l : Loop) (r : Option (Collector × Loop)) : Type 0 where
  stats : Collector
  depth : ℕ
  timer : ℕ
  ios : ℕ
  returns :
      r
      ≡ some
          (stats, record l { current_depth = depth; iops_timer = timer; ios_in_last_second = ios })
  known : HasClient id stats
  alive : 1 ≤ depth
  shallow : depth ≤ c.queue_depth
  gradual : depth ≤ l.current_depth + 1

each_second-Ticked :
    (c : Config) (id now : ℕ) (stats : Collector) (l : Loop)
    → IsSane c
    → 1 ≤ l.current_depth
    → l.current_depth ≤ c.queue_depth
    → HasClient id stats
    → Ticked c id l (each_second c id now stats l)
unfolding each_second update
each_second-Ticked c id now stats l sane lo hi (s, e) =
    let u = updated l.current_depth l.ios_in_last_second l.ios_in_last_second s in
    let b =
      adjust_depth_lem c l.ios_in_last_second l.current_depth lo hi (omega (arith, sane.narrow)) in
    record {
      stats = insert id u stats;
      depth = adjust_depth c l.ios_in_last_second l.current_depth;
      timer = now;
      ios = 0;
      returns = rw e refl;
      known = (u, ground (arith, lookup-insert id id u stats));
      alive = b.0;
      shallow = b.1;
      gradual = omega (arith, b.2);
    }

on_clock-Ticked :
    (c : Config) (id now : ℕ) (test : Bool) (stats : Collector) (l : Loop)
    → IsSane c
    → 1 ≤ l.current_depth
    → l.current_depth ≤ c.queue_depth
    → HasClient id stats
    → Ticked c id l (on_clock c id now test stats l)
unfolding on_clock
on_clock-Ticked c id now true stats l sane lo hi known =
    each_second-Ticked c id now stats l sane lo hi known
on_clock-Ticked c id now false stats l sane lo hi known = record {
  stats = stats;
  depth = l.current_depth;
  timer = l.iops_timer;
  ios = l.ios_in_last_second;
  returns = refl;
  known = known;
  alive = lo;
  shallow = hi;
  gradual = omega arith;
}

next_to_send-le :
    (c : Config) (l : Loop)
    → IsSane c
    → l.current_depth ≤ c.queue_depth
    → next_to_send c l ≤ c.queue_depth
unfolding next_to_send
next_to_send-le c l sane h = ground arith

next_to_send-to_send :
    (c : Config) (l : Loop) (n : ℕ) → next_to_send c l ≡ next_to_send c (record l { to_send = n })
unfolding next_to_send
next_to_send-to_send c l n = refl

-- One turn: what it sends and what it counts.
pub record Turned (c : Config) (id used : ℕ) (t : Turn) (l : Loop) (r : Option (Collector × Loop))
    : Type 0 where
  pub stats : Collector
  pub after : Loop
  pub returns : r ≡ some (stats, after)
  pub known : HasClient id stats
  pub inv : Inv c (used + c.queue_depth) after
  pub completes :
      after.req_complete ≡ l.req_complete + min (l.req_out + l.to_send) (length t.replies)
  pub sends : after.req_sent ≡ l.req_sent + l.to_send
  pub gradual : after.current_depth ≤ l.current_depth + 1
  pub next : after.to_send ≡ next_to_send c after

All-take {κ} : (P : ℕ → Type κ) (n : ℕ) (xs : List ℕ) → All P xs → All P (take n xs)
All-take P zero xs h = tt
All-take P (suc n) [] h = tt
All-take P (suc n) (x ∷ xs) h = (h.0, All-take P n xs h.1)

pub turn-Turned :
    (c : Config) (id used : ℕ) (t : Turn) (stats : Collector) (l : Loop)
    → IsSane c
    → Inv c used l
    → used + c.queue_depth < 2 ^ 63
    → HasClient id stats
    → All (λ len. len ≡ c.block_size) t.replies
    → Turned c id used t l (turn c id t stats l)
unfolding turn
turn-Turned c id used t stats l sane v fits known ok =
    let l2 : Loop = record (sent l.to_send l) {
      ios_in_last_second = add64 l.ios_in_last_second l.to_send;
    } in
    let batch = take l2.req_out t.replies in
    let n = length batch in
    let l3 : Loop = replied n l2 in
    let counted : n ≡ min (l.req_out + l.to_send) (length t.replies) =
      length-take l2.req_out t.replies in
    let k =
      on_clock-Ticked c id t.now (leb 1 (sub64 t.now l.iops_timer / 1000000000)) stats l3 sane
        v.alive v.shallow known in
    let l4 : Loop = record l3 {
      current_depth = k.depth;
      iops_timer = k.timer;
      ios_in_last_second = k.ios;
    } in
    record {
      stats = k.stats;
      after = record l4 { to_send = next_to_send c l4 };
      returns =
          rw
            (
              send_requests-sent l.to_send l (omega arith) (omega arith) (omega arith),
              on_replies-replied c batch l2 (All-take _ l2.req_out t.replies ok) (omega arith)
                  (omega arith),
              k.returns,
            )
            refl;
      known = k.known;
      inv = record {
        accounted = omega arith;
        named = omega arith;
        bounded = omega arith;
        shallow = k.shallow;
        alive = k.alive;
        batch = next_to_send-le c l4 sane k.shallow;
      };
      completes = omega arith;
      sends = refl;
      gradual = k.gradual;
      next = next_to_send-to_send c l4 (next_to_send c l4);
    }
