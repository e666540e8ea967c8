-- ===== src/DomainSocket/Benchmark/Parts.antt =====
-- What the parts of a turn change.
use thrift_bench.Prelude.{
  ℕ, zero, suc, ◌+◌, ◌^◌, ◌≤◌, ◌<◌, ◌≡◌, refl, Bool, true, false, Option, some, [], ◌∷◌, ◌++◌,
  add64, sub64, length, length-append, arith, insert, lookup-insert,
}
use thrift_bench.StorageRpc.Stats.{Collector, update, updated}
use thrift_bench.StorageRpc.Echo.{Config, adjust_depth}
use thrift_bench.StorageRpc.Echo.Counts.{HasClient}
use thrift_bench.StorageRpc.Echo.Depth.{adjust_depth_lem}
use thrift_bench.DomainSocket.Benchmark.{Call, Loop, send_requests, on_replies, on_clock}

pub record Sent (n : ℕ) (l l' : Loop) : Type 0 where
  pub named : l'.req_id ≡ l.req_id + n
  pub made : length l'.calls ≡ length l.calls + n
  pub depth : l'.current_depth ≡ l.current_depth
  pub uncounted : l'.req_sent ≡ l.req_sent
  pub complete : l'.req_complete ≡ l.req_complete
  pub out : l'.req_out ≡ l.req_out

pub send_requests-Sent :
    (f : ℕ → Call) (n : ℕ) (l : Loop) → l.req_id + n < 2 ^ 63 → Sent n l (send_requests f n l)
unfolding send_requests
send_requests-Sent f zero l h = record {
  named = omega arith;
  made = omega arith;
  depth = refl;
  uncounted = refl;
  complete = refl;
  out = refl;
}
send_requests-Sent f (suc n) l h =
    let id = add64 l.req_id 1 in
    let l1 : Loop = record l { req_id = id; calls = l.calls ++ f id ∷ [] } in
    let r = send_requests-Sent f n l1 (omega arith) in
    record {
      named = omega (arith, r.named);
      made = omega (arith, r.made, length-append l.calls (f id ∷ []));
      depth = r.depth;
      uncounted = r.uncounted;
      complete = r.complete;
      out = r.out;
    }

pub record Replied (n : ℕ) (l l' : Loop) : Type 0 where
  pub complete : l'.req_complete ≡ l.req_complete + n
  pub out : l'.req_out ≡ sub64 0 l'.req_complete
  pub named : l'.req_id ≡ l.req_id
  pub made : length l'.calls ≡ length l.calls
  pub depth : l'.current_depth ≡ l.current_depth
  pub uncounted : l'.req_sent ≡ l.req_sent

pub on_replies-Replied :
    (n : ℕ) (l : Loop)
    → l.req_complete + n < 2 ^ 63
    → l.req_out ≡ sub64 0 l.req_complete
    → Replied n l (on_replies n l)
unfolding on_replies
on_replies-Replied zero l h e = record {
  complete = omega arith;
  out = e;
  named = refl;
  made = refl;
  depth = refl;
  uncounted = refl;
}
on_replies-Replied (suc n) l h e =
    let l1 : Loop = record l {
      req_complete = add64 l.req_complete 1;
      req_out = sub64 l.req_out 1;
    } in
    let r = on_replies-Replied n l1 (omega arith) (omega (arith, e)) in
    record {
      complete = omega (arith, r.complete);
      out = r.out;
      named = r.named;
      made = r.made;
      depth = r.depth;
      uncounted = r.uncounted;
    }

pub record Ticked (c : Config) (id : ℕ) (l : Loop) (r : Option (Collector × Loop)) : Type 0 where
  pub stats : Collector
  pub depth : ℕ
  pub timer : ℕ
  pub ios : ℕ
  pub returns :
      r
      ≡ some
          (stats, record l { current_depth = depth; iops_timer = timer; ios_in_last_second = ios })
  pub known : HasClient id stats
  pub alive : 1 ≤ depth
  pub shallow : depth ≤ c.queue_depth

pub on_clock-Ticked :
    (c : Config) (id now : ℕ) (test : Bool) (stats : Collector) (l : Loop)
    → c.queue_depth < 2 ^ 32
    → 1 ≤ l.current_depth
    → l.current_depth ≤ c.queue_depth
    → HasClient id stats
    → Ticked c id l (on_clock c id now test stats l)
unfolding on_clock update
on_clock-Ticked c id now false stats l narrow lo hi known = record {
  stats = stats;
  depth = l.current_depth;
  timer = l.iops_timer;
  ios = l.ios_in_last_second;
  returns = refl;
  known = known;
  alive = lo;
  shallow = hi;
}
on_clock-Ticked c id now true stats l narrow lo hi (s, e) =
    let u = updated l.current_depth l.ios_in_last_second l.ios_in_last_second s in
    let b = adjust_depth_lem c l.ios_in_last_second l.current_depth lo hi narrow in
    record {
      stats = insert id u stats;
      depth = adjust_depth c l.ios_in_last_second l.current_depth;
      timer = now;
      ios = 0;
      returns = rw e refl;
      known = (u, ground (arith, lookup-insert id id u stats));
      alive = b.0;
      shallow = b.1;
    }
