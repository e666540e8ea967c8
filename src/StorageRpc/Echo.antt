-- ===== src/StorageRpc/Echo.antt =====
-- `BenchmarkEcho` of StorageRpc/Client.cpp: the loop that keeps requests outstanding and steers
-- their number by the rate of the last second.
pub mod Depth
pub mod Counts
pub mod Ends
use thrift_bench.Prelude.{
  ℕ, zero, suc, ◌+◌, ◌-◌, ◌/◌, ◌%◌, ◌^◌, ◌≤◌, ◌<◌, ◌≡◌, Bool, true, false, not, ◌&&◌, ◌||◌, Option,
  none, some, List, [], ◌∷◌, ltb, leb, ◌==◌, if◌then◌else◌, ◌>>=◌, ◌>>◌, assert, length, take,
  add64, sub64,
}
use thrift_bench.StorageRpc.Stats.{Collector, update, client_add}

-- The flags that the loop reads.
pub record Config : Type 0 where
  pub queue_depth : ℕ
  pub block_size : ℕ
  pub requests : ℕ
  pub unlimited : Bool
  pub iops_rate_limit : ℕ

-- The local variables of the loop.
pub record Loop : Type 0 where
  pub current_depth : ℕ
  pub to_send : ℕ
  pub iops_timer : ℕ
  pub ios_in_last_second : ℕ
  pub req_id : ℕ
  pub req_sent : ℕ
  pub req_complete : ℕ
  pub req_out : ℕ

-- What one turn of the event loop brings: the lengths of the data in the replies that are there,
-- and the time in nanoseconds that is read after it.
pub record Turn : Type 0 where
  pub replies : List ℕ
  pub now : ℕ

pub start_loop : ℕ → Loop
start_loop now = record {
  current_depth = 1;
  to_send = 1;
  iops_timer = now;
  ios_in_last_second = 0;
  req_id = 0;
  req_sent = 0;
  req_complete = 0;
  req_out = 0;
}

-- The body of the `for` loop. (Its counter is 32 bits wide: a depth from 2^32 on would not end.)
send_one : Loop → Loop
send_one l = record l {
  req_id = add64 l.req_id 1;
  req_out = add64 l.req_out 1;
  req_sent = add64 l.req_sent 1;
}

pub send_requests : ℕ → Loop → Loop
unfolding send_one
send_requests zero l = l
send_requests (suc n) l = send_requests n (send_one l)

-- The callback of a reply.
pub on_reply : Config → ℕ → Loop → Option Loop
on_reply c len l = do
  assert (len == c.block_size)
  some (record l { req_complete = add64 l.req_complete 1; req_out = sub64 l.req_out 1 })

pub on_replies : Config → List ℕ → Loop → Option Loop
unfolding on_reply
on_replies c [] l = some l
on_replies c (len ∷ lens) l = on_reply c len l >>= λ l'. on_replies c lens l'

-- One up below the limit, one down above it, and then cut to the range of depths.
unfoldable pub adjust_depth : Config → ℕ → ℕ → ℕ
adjust_depth c ios depth =
    let d =
      if ltb ios c.iops_rate_limit
      then add64 depth 1
      else if ltb c.iops_rate_limit ios
      then sub64 depth 1
      else depth in
    if ltb c.queue_depth d then c.queue_depth else if d == 0 then 1 else d

-- What is done once a second.
pub each_second : Config → ℕ → ℕ → Collector → Loop → Option (Collector × Loop)
unfolding adjust_depth
each_second c id now stats l = do
  stats' ← update id l.current_depth l.ios_in_last_second l.ios_in_last_second stats
  some (
    stats',
    record l {
      current_depth = adjust_depth c l.ios_in_last_second l.current_depth;
      ios_in_last_second = 0;
      iops_timer = now;
    },
  )

-- The test whether a second has passed since the timer was set.
pub on_clock : Config → ℕ → ℕ → Bool → Collector → Loop → Option (Collector × Loop)
unfolding each_second
on_clock c id now passed stats l = if passed then each_second c id now stats l else some (stats, l)

-- How many requests the next turn sends.
pub next_to_send : Config → Loop → ℕ
next_to_send c l =
    let n = if leb l.req_out l.current_depth then sub64 l.current_depth l.req_out else 1 in
    if ltb c.requests l.req_sent && not c.unlimited then 0 else n

-- The body of the `while` loop. No more replies come in than there are requests outstanding.
pub turn : Config → ℕ → Turn → Collector → Loop → Option (Collector × Loop)
unfolding on_clock next_to_send
turn c id t stats l = do
  let l1 = send_requests l.to_send l
  let l2 = record l1 { ios_in_last_second = add64 l1.ios_in_last_second l.to_send }
  l3 ← on_replies c (take l2.req_out t.replies) l2
  (stats', l4) ← on_clock c id t.now (leb 1 (sub64 t.now l3.iops_timer / 1000000000)) stats l3
  some (stats', record l4 { to_send = next_to_send c l4 })

pub going : Config → Loop → Bool
going c l = ltb l.req_complete c.requests || c.unlimited

-- The `while` loop, over the turns that the event loop takes.
pub loop : Config → ℕ → List Turn → Collector → Loop → Option (Collector × Loop)
unfolding going
loop c id [] stats l = some (stats, l)
loop c id (t ∷ ts) stats l =
    if going c l then (turn c id t stats l >>= λ r. loop c id ts r.0 r.1) else some (stats, l)

-- The whole function: `ClientAdd`, then the loop, from the time that it reads first.
pub benchmark_echo : Config → ℕ → ℕ → List Turn → Collector → Option (Collector × Loop)
unfolding loop start_loop
benchmark_echo c id now ts stats = do
  stats' ← client_add now id stats
  loop c id ts stats' (start_loop now)
