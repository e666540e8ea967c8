-- ===== src/StorageRpc/Send.antt =====
-- `BenchmarkSend` and `BenchmarkSendNoData` of StorageRpc/Client.cpp: a fixed queue depth, no
-- statistics. The two loops have the same counters; what they send differs.
pub mod Ends
use thrift_bench.Prelude.{
  ℕ, zero, suc, ◌+◌, ◌-◌, ◌^◌, ◌≤◌, ◌<◌, ◌≡◌, Bool, true, false, Option, none, some, List, [], ◌∷◌,
  ◌++◌, ltb, if◌then◌else◌, length, min, add64, sub64, replicate,
}

-- A call of the client: its request and the size of the data that goes with it, if any.
pub data Rpc : Type 0 where
  send : (request_id size : ℕ) → Rpc
  send_no_data : (request_id : ℕ) → Rpc

pub record Loop : Type 0 where
  pub to_send : ℕ
  pub req_id : ℕ
  pub req_sent : ℕ
  pub req_complete : ℕ
  pub req_out : ℕ
  pub calls : List Rpc

pub start_loop : ℕ → Loop
start_loop queue_depth = record {
  to_send = queue_depth;
  req_id = 0;
  req_sent = 0;
  req_complete = 0;
  req_out = 0;
  calls = [];
}

-- The body of the `for` loop, with the call that is made of the new identifier.
send_one : (ℕ → Rpc) → Loop → Loop
send_one rpc l =
    let id = add64 l.req_id 1 in
    record l {
      req_id = id;
      calls = l.calls ++ rpc id ∷ [];
      req_out = add64 l.req_out 1;
      req_sent = add64 l.req_sent 1;
    }

send_requests : (ℕ → Rpc) → ℕ → Loop → Loop
unfolding send_one
send_requests rpc zero l = l
send_requests rpc (suc n) l = send_requests rpc n (send_one rpc l)

-- The callback of a reply.
on_reply : Loop → Loop
on_reply l = record l { req_complete = add64 l.req_complete 1; req_out = sub64 l.req_out 1 }

on_replies : ℕ → Loop → Loop
unfolding on_reply
on_replies zero l = l
on_replies (suc n) l = on_replies n (on_reply l)

-- The body of the `while` loop; `replies` come in if that many requests are outstanding.
turn : (ℕ → Rpc) → (queue_depth requests replies : ℕ) → Loop → Loop
unfolding send_requests on_replies
turn rpc queue_depth requests replies l =
    let l1 = send_requests rpc l.to_send l in
    let l2 = on_replies (min l1.req_out replies) l1 in
    record l2 { to_send = if ltb requests l2.req_sent then 0 else sub64 queue_depth l2.req_out }

loop : (ℕ → Rpc) → (queue_depth requests : ℕ) → List ℕ → Loop → Loop
loop rpc queue_depth requests [] l = l
loop rpc queue_depth requests (r ∷ rs) l =
    if ltb l.req_complete requests
    then loop rpc queue_depth requests rs (turn rpc queue_depth requests r l)
    else l

-- The list holds how many replies each turn of the event loop brings.
pub benchmark_send : (queue_depth block_size requests : ℕ) → List ℕ → Loop
unfolding loop start_loop
benchmark_send queue_depth block_size requests turns =
    loop (λ id. send id block_size) queue_depth requests turns (start_loop queue_depth)

pub benchmark_send_no_data : (queue_depth requests : ℕ) → List ℕ → Loop
unfolding loop start_loop
benchmark_send_no_data queue_depth requests turns =
    loop send_no_data queue_depth requests turns (start_loop queue_depth)
