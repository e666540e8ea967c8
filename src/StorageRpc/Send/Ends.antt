-- ===== src/StorageRpc/Send/Ends.antt =====
-- The send loops end, and how much they send.
use thrift_bench.Prelude.{
  ℕ, zero, suc, ◌+◌, ◌^◌, ◌≤◌, ◌<◌, ◌≡◌, refl, ◌⊎◌, inl, inr, List, [], ◌∷◌, ◌++◌, ltb, length, min,
  add64, All, arith, Bool-cases,
}
use thrift_bench.StorageRpc.Send.{
  Rpc, send, send_no_data, Loop, start_loop, send_one, send_requests, on_reply, on_replies, turn,
  loop, benchmark_send, benchmark_send_no_data,
}

-- The calls with the identifiers 1 to n, in order.
abbrev pub calls_upto : (ℕ → Rpc) → ℕ → List Rpc
calls_upto rpc zero = []
calls_upto rpc (suc n) = calls_upto rpc n ++ rpc (suc n) ∷ []

module _ (rpc : ℕ → Rpc) (queue_depth requests : ℕ) (deep : 1 ≤ queue_depth)
    (narrow : queue_depth < 2 ^ 31) (few : requests < 2 ^ 62) where
  record Inv (l : Loop) : Type 0 where
    accounted : l.req_complete + l.req_out ≡ l.req_sent
    named : l.req_id ≡ l.req_sent
    made : l.calls ≡ calls_upto rpc l.req_sent
    window : l.req_out + l.to_send ≤ queue_depth
    quota : l.req_sent + l.to_send ≤ requests + queue_depth
    alive : (requests < l.req_sent) ⊎ (1 ≤ l.req_out + l.to_send)

  record Sent (n : ℕ) (l l' : Loop) : Type 0 where
    complete : l'.req_complete ≡ l.req_complete
    out : l'.req_out ≡ l.req_out + n
    sent : l'.req_sent ≡ l.req_sent + n
    id : l'.req_id ≡ l'.req_sent
    made : l'.calls ≡ calls_upto rpc l'.req_sent

  send_requests-Sent :
      (n : ℕ) (l : Loop)
      → l.req_sent + n < 2 ^ 63
      → l.req_out + n < 2 ^ 63
      → l.req_id ≡ l.req_sent
      → l.calls ≡ calls_upto rpc l.req_sent
      → Sent n l (send_requests rpc n l)
  unfolding send_requests
  send_requests-Sent zero l a b e m = record {
    complete = refl;
    out = omega arith;
    sent = omega arith;
    id = e;
    made = m;
  }
  send_requests-Sent (suc n) l a b e m =
      let next : add64 l.req_sent 1 ≡ suc l.req_sent = omega arith in
      let name : add64 l.req_id 1 ≡ suc l.req_sent = omega arith in
      let s =
        send_requests-Sent n (send_one rpc l) (omega arith) (omega arith) (omega arith)
          (rw (next, name, m) refl) in
      record {
        complete = s.complete;
        out = omega arith;
        sent = omega arith;
        id = s.id;
        made = s.made;
      }

  record Replied (n : ℕ) (l l' : Loop) : Type 0 where
    complete : l'.req_complete ≡ l.req_complete + n
    out : l'.req_out + n ≡ l.req_out
    sent : l'.req_sent ≡ l.req_sent
    id : l'.req_id ≡ l.req_id
    made : l'.calls ≡ l.calls

  on_replies-Replied :
      (n : ℕ) (l : Loop)
      → n ≤ l.req_out
      → l.req_complete + l.req_out < 2 ^ 63
      → Replied n l (on_replies n l)
  unfolding on_replies
  on_replies-Replied zero l h k = record {
    complete = omega arith;
    out = omega arith;
    sent = refl;
    id = refl;
    made = refl;
  }
  on_replies-Replied (suc n) l h k =
      let r = on_replies-Replied n (on_reply l) (omega arith) (omega arith) in
      record { complete = omega arith; out = omega arith; sent = r.sent; id = r.id; made = r.made }

  turn-Inv :
      (replies : ℕ) (l : Loop)
      → Inv l
      → Inv (turn rpc queue_depth requests replies l)
        × ((turn rpc queue_depth requests replies l).req_complete
            ≡ l.req_complete + min (l.req_out + l.to_send) replies)
  unfolding turn
  turn-Inv replies l v =
      let l1 = send_requests rpc l.to_send l in
      let s =
        send_requests-Sent l.to_send l (omega (arith, v.quota)) (omega (arith, v.window)) v.named
          v.made in
      let l2 = on_replies (min l1.req_out replies) l1 in
      let r =
        on_replies-Replied (min l1.req_out replies) l1 (omega arith)
          (omega (arith, v.accounted, v.quota)) in
      (
        record {
          accounted = omega (arith, v.accounted);
          named = omega arith;
          made = rw (r.made, r.sent) s.made;
          window = ground (arith, v.window, r.out, s.out);
          quota = ground (arith, v.window, v.quota, r.out, s.out, r.sent, s.sent);
          alive = elim (Bool-cases (ltb requests l2.req_sent)) [
            | inl more ↦ inl (ground arith)
            | inr rest ↦ inr (ground (arith, v.window, r.out, s.out))
          ];
        },
        omega arith,
      )

  start_loop-Inv : Inv (start_loop queue_depth)
  unfolding start_loop
  start_loop-Inv = record {
    accounted = omega arith;
    named = refl;
    made = refl;
    window = omega arith;
    quota = omega arith;
    alive = inr (omega arith);
  }

  loop-Inv :
      (turns : List ℕ) (l : Loop)
      → Inv l
      → All (λ n. 1 ≤ n) turns
      → Inv (loop rpc queue_depth requests turns l)
        × (min requests (l.req_complete + length turns)
            ≤ (loop rpc queue_depth requests turns l).req_complete)
  unfolding loop
  loop-Inv [] l v h = (v, omega arith)
  loop-Inv (n ∷ ns) l v h = elim (Bool-cases (ltb l.req_complete requests)) [
    | inl go ↦
        let (v', c) = turn-Inv n l v in
        let (w, k) = loop-Inv ns (turn rpc queue_depth requests n l) v' h.1 in
        rw go (w, ground (arith, k, c, h.0, v.alive, v.accounted))
    | inr stop ↦ rw stop (v, ground arith)
  ]

-- A loop has ended: by its test, with its calls made in order, each counted once, no more of them
-- outstanding than the queue depth and no more made than the requests and the queue depth.
pub record Ended (rpc : ℕ → Rpc) (queue_depth requests : ℕ) (l : Loop) : Type 0 where
  pub finished : requests ≤ l.req_complete
  pub accounted : l.req_complete + l.req_out ≡ l.req_sent
  pub window : l.req_out ≤ queue_depth
  pub quota : l.req_sent ≤ requests + queue_depth
  pub made : l.calls ≡ calls_upto rpc l.req_sent

loop-Ended :
    (rpc : ℕ → Rpc) (queue_depth requests : ℕ) (turns : List ℕ)
    → 1 ≤ queue_depth
    → queue_depth < 2 ^ 31
    → requests < 2 ^ 62
    → All (λ n. 1 ≤ n) turns
    → requests ≤ length turns
    → Ended rpc queue_depth requests (loop rpc queue_depth requests turns (start_loop queue_depth))
unfolding start_loop
loop-Ended rpc q r turns deep narrow few h enough =
    let (v, k) =
      loop-Inv rpc q r deep narrow few turns (start_loop q) (start_loop-Inv rpc q r deep narrow few)
        h in
    record {
      finished = omega arith;
      accounted = v.accounted;
      window = omega (arith, v.window);
      quota = omega (arith, v.quota);
      made = v.made;
    }

-- With a queue depth from 1 to below 2^31 and fewer than 2^62 requests, both send loops have ended
-- after as many turns as requests, if each turn brings a reply: all requested replies are there,
-- and between 0 and queue depth calls more than requested were made, with the identifiers 1, 2, 3
-- and so on, those of `BenchmarkSend` with a block of data each.
pub benchmark_send-Ended :
    (queue_depth block_size requests : ℕ) (turns : List ℕ)
    → 1 ≤ queue_depth
    → queue_depth < 2 ^ 31
    → requests < 2 ^ 62
    → All (λ n. 1 ≤ n) turns
    → requests ≤ length turns
    → Ended
        (λ id. send id block_size)
        queue_depth
        requests
        (benchmark_send queue_depth block_size requests turns)
      × Ended send_no_data queue_depth requests (benchmark_send_no_data queue_depth requests turns)
unfolding benchmark_send benchmark_send_no_data
benchmark_send-Ended q b r turns deep narrow few h enough = (
  loop-Ended (λ id. send id b) q r turns deep narrow few h enough,
  loop-Ended send_no_data q r turns deep narrow few h enough,
)
