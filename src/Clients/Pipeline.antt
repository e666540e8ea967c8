-- ===== src/Clients/Pipeline.antt =====
-- The loop that the clients of fbthrift/exp1, exp2/DB and exp3/DB share: it keeps `queue_depth`
-- requests outstanding until `nrequests` are complete. The lines are those of exp3/DB/client.cpp.
pub mod Counts
pub mod Ends
use thrift_bench.Prelude.{
  ℕ, zero, suc, ◌+◌, ◌-◌, ◌≤◌, ◌<◌, ◌≡◌, Bool, true, false, Option, none, some, List, [], ◌∷◌, ◌++◌,
  ltb, leb, if◌then◌else◌, ◌>>=◌, ◌>>◌, assert, add64, sub64, lookup, insert, erase, next_int,
}

-- The local variables, the totals, and the calls made: each the loop's counter with the request's
-- identifier.
pub record Loop (T : Type 0) : Type 0 where
  pub req_time : List (ℕ × ℕ)
  pub req_complete : ℕ
  pub req_tosend : ℕ
  pub req_out : ℕ
  pub req_sched : ℕ
  pub req_id : ℕ
  pub totals : T
  pub calls : List (ℕ × ℕ)
  pub readings : ℕ

pub start_loop : {T : Type 0} → ℕ → T → Loop T
start_loop queue_depth totals = record {
  req_time = [];
  req_complete = 0;
  req_tosend = queue_depth;
  req_out = 0;
  req_sched = 0;
  req_id = 1;
  totals = totals;
  calls = [];
  readings = 0;
}

-- The request that a reply of the event loop answers: one that is outstanding, the k-th of them or
-- the last.
abbrev pub pick : ℕ → List (ℕ × ℕ) → Option ℕ
pick k [] = none
pick k ((id, t) ∷ []) = some id
pick zero ((id, t) ∷ m) = some id
pick (suc k) ((id, t) ∷ m) = pick k m

-- How many requests the next turn sends, after the event loop.
pub next_tosend : (queue_depth nrequests out complete : ℕ) → ℕ
next_tosend queue_depth nrequests out complete =
    let n = sub64 queue_depth out in
    if ltb nrequests (add64 n complete)
    then (if ltb complete nrequests then sub64 nrequests complete else 0)
    else n

-- What a client brings: its replies, built from the identifier that the server sends back and the
-- rest of its answer, the assertion on a reply, and what a reply adds to the totals.
pub record Protocol (P R T : Type 0) : Type 0 where
  pub reply : ℕ → P → R
  pub id_of : R → ℕ
  pub accepts : R → Bool
  pub account : ℕ → R → T → T

module _ {P R T : Type 0} (clock : ℕ → ℕ) (p : Protocol P R T) where
  -- The body of the `for` loop, with its counter.
  send_one : ℕ → Loop T → Loop T
  send_one i l = record l {
    req_time = insert l.req_id (clock l.readings) l.req_time;
    readings = l.readings + 1;
    req_sched = add64 l.req_sched 1;
    calls = l.calls ++ (i, l.req_id) ∷ [];
    req_out = add64 l.req_out 1;
    req_id = add64 l.req_id 1;
  }

  pub send_requests : ℕ → ℕ → Loop T → Option (Loop T)
  unfolding send_one next_int
  send_requests zero i l = some l
  send_requests (suc n) i l = next_int i >>= λ i'. send_requests n i' (send_one i l)

  -- The callback of a reply.
  on_reply : R → Loop T → Option (Loop T)
  on_reply r l = do
    assert (p.accepts r)
    req_start ← lookup (p.id_of r) l.req_time
    some (record l {
      readings = l.readings + 1;
      req_time = erase (p.id_of r) l.req_time;
      totals = p.account (sub64 (clock l.readings) req_start) r l.totals;
      req_complete = add64 l.req_complete 1;
      req_out = sub64 l.req_out 1;
    })

  -- `loopOnce`: some outstanding requests are answered.
  pub on_replies : List (ℕ × P) → Loop T → Option (Loop T)
  unfolding on_reply
  on_replies [] l = some l
  on_replies ((k, a) ∷ as_) l = elim (pick k l.req_time) [
    | none ↦ on_replies as_ l
    | some id ↦ on_reply (p.reply id a) l >>= λ l'. on_replies as_ l'
  ]

  -- The body of the `while` loop.
  pub turn : (queue_depth nrequests : ℕ) → List (ℕ × P) → Loop T → Option (Loop T)
  unfolding send_requests on_replies next_tosend
  turn queue_depth nrequests replies l = do
    sent ← send_requests l.req_tosend 0 l
    l' ← on_replies replies sent
    some (record l' { req_tosend = next_tosend queue_depth nrequests l'.req_out l'.req_complete })

  -- The `while` loop, over the turns of the event loop.
  pub loop : (queue_depth nrequests : ℕ) → List (List (ℕ × P)) → Loop T → Option (Loop T)
  unfolding turn
  loop queue_depth nrequests [] l = some l
  loop queue_depth nrequests (t ∷ ts) l =
      if ltb l.req_complete nrequests
      then (turn queue_depth nrequests t l >>= λ l'. loop queue_depth nrequests ts l')
      else some l

  unfoldable pub run_loop : (queue_depth nrequests : ℕ) → T → List (List (ℕ × P)) → Option (Loop T)
  unfolding loop start_loop
  run_loop queue_depth nrequests totals ts =
      loop queue_depth nrequests ts (start_loop queue_depth totals)
