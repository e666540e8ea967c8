-- ===== src/DomainSocket/Benchmark.antt =====
-- `Benchmark` of fbthrift/domain-socket/Client.cpp and the three functions that call it. The flags,
-- the collector and the controller of the depth are word for word those of StorageRpc/Client.cpp.
pub mod Parts
pub mod Drift
pub mod Updates
use thrift_bench.Prelude.{
  ℕ, zero, suc, ◌+◌, ◌-◌, ◌/◌, ◌^◌, ◌≡◌, Bool, true, false, not, ◌&&◌, ◌||◌, Option, none, some,
  List, [], ◌∷◌, ◌++◌, ltb, leb, if◌then◌else◌, ◌>>=◌, add64, sub64, min,
}
use thrift_bench.StorageRpc.Stats.{Collector, update, client_add}
use thrift_bench.StorageRpc.Echo.{Config, adjust_depth}

-- What `send_func` calls, with the identifier and the length of the data.
pub data Call : Type 0 where
  future_echo future_send : (req_id len : ℕ) → Call
  future_send_no_data : (req_id : ℕ) → Call

pub record Loop : Type 0 where
  pub current_depth : ℕ
  pub to_send : ℕ
  pub iops_timer : ℕ
  pub ios_in_last_second : ℕ
  pub req_id : ℕ
  pub req_sent : ℕ
  pub req_complete : ℕ
  pub req_out : ℕ
  pub calls : List Call

-- What a turn of the event loop brings: how many replies are there, and the time after it.
pub record Turn : Type 0 where
  pub replies : ℕ
  pub now : ℕ

pub start_loop : ℕ → Loop
start_loop now = record {
  current_depth = 1;
  to_send = 1;
  iops_timer = now;
  ios_in_last_second = 0;
  req_id = 0;
  req_sent = 0;
  req_complete = 0;
  req_out = 0;
  calls = [];
}

-- The `for` loop: neither `req_sent` nor `req_out` is counted up.
pub send_requests : (ℕ → Call) → ℕ → Loop → Loop
send_requests send_func zero l = l
send_requests send_func (suc n) l =
    let req_id = add64 l.req_id 1 in
    send_requests send_func n
      (record l { req_id = req_id; calls = l.calls ++ send_func req_id ∷ [] })

-- The callbacks of some replies.
pub on_replies : ℕ → Loop → Loop
on_replies zero l = l
on_replies (suc n) l =
    on_replies n (record l { req_complete = add64 l.req_complete 1; req_out = sub64 l.req_out 1 })

-- What is done once a second has passed.
pub on_clock : Config → ℕ → ℕ → Bool → Collector → Loop → Option (Collector × Loop)
on_clock c client_id now false stats l = some (stats, l)
on_clock c client_id now true stats l = do
  stats' ← update client_id l.current_depth l.ios_in_last_second l.ios_in_last_second stats
  some (
    stats',
    record l {
      current_depth = adjust_depth c l.ios_in_last_second l.current_depth;
      ios_in_last_second = 0;
      iops_timer = now;
    },
  )

pub next_to_send : Config → Loop → ℕ
next_to_send c l =
    let n = if leb l.req_out l.current_depth then sub64 l.current_depth l.req_out else 1 in
    if ltb c.requests l.req_sent && not c.unlimited then 0 else n

-- The body of the `while` loop. No more replies come in than calls are unanswered.
pub turn : Config → (ℕ → Call) → ℕ → Turn → Collector → Loop → Option (Collector × Loop)
unfolding send_requests on_replies on_clock next_to_send
turn c send_func client_id t stats l = do
  let l1 = send_requests send_func l.to_send l
  let l2 = record l1 { ios_in_last_second = add64 l1.ios_in_last_second l.to_send }
  let l3 = on_replies (min t.replies (l2.req_id - l2.req_complete)) l2
  (stats', l4) ←
      on_clock c client_id t.now (leb 1 (sub64 t.now l3.iops_timer / 1000000000)) stats l3
  some (stats', record l4 { to_send = next_to_send c l4 })

pub going : Config → Loop → Bool
going c l = ltb l.req_complete c.requests || c.unlimited

-- The `while` loop, over the turns of the event loop.
pub loop : Config → (ℕ → Call) → ℕ → List Turn → Collector → Loop → Option (Collector × Loop)
unfolding going turn
loop c send_func client_id [] stats l = some (stats, l)
loop c send_func client_id (t ∷ ts) stats l =
    if going c l
    then (turn c send_func client_id t stats l >>= λ r. loop c send_func client_id ts r.0 r.1)
    else some (stats, l)

pub benchmark :
    Config → (ℕ → Call) → (client_id now : ℕ) → List Turn → Collector → Option (Collector × Loop)
unfolding loop start_loop
benchmark c send_func client_id now ts stats = loop c send_func client_id ts stats (start_loop now)

-- The three callers, whose `ClientAdd` reads the clock first.
pub benchmark_echo :
    Config → (client_id added now : ℕ) → List Turn → Collector → Option (Collector × Loop)
unfolding benchmark
benchmark_echo c client_id added now ts stats = do
  stats' ← client_add added client_id stats
  benchmark c (λ req_id. future_echo req_id c.block_size) client_id now ts stats'

pub benchmark_send :
    Config → (client_id added now : ℕ) → List Turn → Collector → Option (Collector × Loop)
unfolding benchmark
benchmark_send c client_id added now ts stats = do
  stats' ← client_add added client_id stats
  benchmark c (λ req_id. future_send req_id c.block_size) client_id now ts stats'

pub benchmark_send_no_data :
    Config → (client_id added now : ℕ) → List Turn → Collector → Option (Collector × Loop)
unfolding benchmark
benchmark_send_no_data c client_id added now ts stats = do
  stats' ← client_add added client_id stats
  benchmark c future_send_no_data client_id now ts stats'
