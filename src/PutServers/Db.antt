-- ===== src/PutServers/Db.antt =====
-- `DBHandler` of fbthrift/exp2/DB/DBServer.cpp, on one event base, with any leaf service behind its
-- leafs. `Leaf` and what opens its connection are word for word those of exp3, in DbServer/Handler.
pub mod Steps
pub mod Puts
use thrift_bench.Prelude.{
  ℕ, zero, suc, ◌+◌, ◌^◌, ◌%◌, ◌≡◌, Option, none, some, List, [], ◌∷◌, ◌++◌, ◌==◌, if◌then◌else◌,
  ◌>>=◌, ◌>>◌, assert, length, get_elem?, set, add32, sub64,
}
use thrift_bench.DbServer.Handler.{Leaf, connection, disconnect_at}
use thrift_bench.PutServers.Service.{LeafBenchmarkData, LeafService}

-- `DBBenchmarkData`, without the flags that no code reads.
pub record DbBenchmarkData : Type 0 where
  pub request_id : ℕ
  pub db_latency : ℕ
  pub leaf_latency : ℕ
  pub io_latency : ℕ
  pub cpu_consumed : ℕ
  pub contents : List ℕ
  pub data_size : ℕ

-- The lambda for the event base, and a call of a leaf's client that waits for its reply.
pub record Task : Type 0 where
  pub cb : ℕ
  pub bench : DbBenchmarkData
  pub leaf : ℕ
  pub s : ℕ

pub record Call : Type 0 where
  pub clientp : ℕ
  pub cb : ℕ
  pub lbd : LeafBenchmarkData
  pub bench : DbBenchmarkData
  pub s : ℕ

-- `failed` are the calls whose future has failed: the lambda of their reply never runs.
pub record PutHandler : Type 0 where
  pub leafs : List Leaf
  pub cur_leaf : ℕ
  pub sockets : ℕ
  pub queue : List Task
  pub calls : List Call
  pub results : List (ℕ × DbBenchmarkData)
  pub failed : List Call

pub new_handler : List Leaf → PutHandler
new_handler leafs = record {
  leafs = leafs;
  cur_leaf = 0;
  sockets = 0;
  queue = [];
  calls = [];
  results = [];
  failed = [];
}

-- `getLeaf`: the remainder by zero is undefined.
pub get_leaf : PutHandler → Option (ℕ × PutHandler)
get_leaf h =
    let cur = add32 h.cur_leaf 1 % length h.leafs in
    if length h.leafs == 0 then none else some (cur, record h { cur_leaf = cur })

-- Up to the call of `runInEventBaseThread`.
pub async_tm_key_put : (s cb : ℕ) → DbBenchmarkData → PutHandler → Option PutHandler
unfolding get_leaf
async_tm_key_put s cb bench h = do
  (leafp, h') ← get_leaf h
  some (record h' {
    queue = h'.queue ++ (record { cb = cb; bench = bench; leaf = leafp; s = s }) ∷ [];
  })

-- The structure for the leaf; its other fields are zero. The last statement calls `set_data_size` of
-- a variable `ldb` that is not declared, so that the code does not compile: what that statement does
-- to the structure is a parameter.
unfoldable pub lbd_of :
    (ldb : ℕ → LeafBenchmarkData → LeafBenchmarkData) → DbBenchmarkData → LeafBenchmarkData
lbd_of ldb bench = ldb bench.data_size (record {
  request_id = bench.request_id;
  leaf_latency = 0;
  io_latency = 0;
  cpu_consumed = 0;
  contents = bench.contents;
  data_size = 0;
})

-- The lambda.
pub run_task :
    (ldb : ℕ → LeafBenchmarkData → LeafBenchmarkData) → Task → PutHandler → Option PutHandler
unfolding lbd_of
run_task ldb t h = do
  leafp ← get_elem? h.leafs t.leaf
  (clientp, (l, sockets)) ← connection h.sockets leafp
  some (record h {
    leafs = set h.leafs t.leaf l;
    sockets = sockets;
    calls =
        h.calls
        ++ (record {
          clientp = clientp;
          cb = t.cb;
          lbd = lbd_of ldb t.bench;
          bench = t.bench;
          s = t.s;
        })
          ∷ [];
  })

pub run_next :
    (ldb : ℕ → LeafBenchmarkData → LeafBenchmarkData) → List Task → PutHandler → Option PutHandler
unfolding run_task
run_next ldb [] h = some h
run_next ldb (t ∷ ts) h = run_task ldb t (record h { queue = ts })

-- The calls that stay, and those that wait for a reply to this client.
pub split_calls : Option ℕ → List Call → List Call × List Call
split_calls none cs = (cs, [])
split_calls (some clientp) [] = ([], [])
split_calls (some clientp) (c ∷ cs) =
    let r = split_calls (some clientp) cs in
    if c.clientp == clientp then (r.0, c ∷ r.1) else (c ∷ r.0, r.1)

-- `channelClosed` of a leaf: its client ends, and the futures of the calls that wait for it fail.
pub channel_closed : ℕ → PutHandler → PutHandler
unfolding split_calls
channel_closed leaf h =
    let r = split_calls (get_elem? h.leafs leaf >>= λ l. l.client) h.calls in
    record h { leafs = disconnect_at leaf h.leafs; calls = r.0; failed = h.failed ++ r.1 }

-- What is made of a leaf's reply, with its assertion.
unfoldable pub reply : (s e : ℕ) → DbBenchmarkData → LeafBenchmarkData → Option DbBenchmarkData
reply s e bench result = do
  assert (result.request_id == bench.request_id)
  some (record {
    request_id = result.request_id;
    db_latency = sub64 e s;
    leaf_latency = result.leaf_latency;
    io_latency = result.io_latency;
    cpu_consumed = result.cpu_consumed;
    contents = [];
    data_size = 0;
  })

module _ (service : LeafService) where
  -- The leaf answers the k-th of the calls that wait; the lists are those before it and after it.
  pub answer_at :
      ℕ → (e : ℕ) → service.Timing → List Call → Option (List Call × List (ℕ × DbBenchmarkData))
  unfolding reply
  answer_at k e t [] = some ([], [])
  answer_at zero e t (c ∷ cs) = do
    r ← reply c.s e c.bench (service.answer t c.lbd)
    some (cs, (c.cb, r) ∷ [])
  answer_at (suc k) e t (c ∷ cs) = do (cs', rs) ← answer_at k e t cs; some (c ∷ cs', rs)

  pub data Event : Type 0 where
    put : (s cb : ℕ) → DbBenchmarkData → Event
    loop_once : Event
    answered : (k e : ℕ) → service.Timing → Event
    closed : (leaf : ℕ) → Event

  pub handle :
      (ldb : ℕ → LeafBenchmarkData → LeafBenchmarkData) → Event → PutHandler → Option PutHandler
  unfolding async_tm_key_put run_next answer_at channel_closed
  handle ldb (put s cb bench) h = async_tm_key_put s cb bench h
  handle ldb loop_once h = run_next ldb h.queue h
  handle ldb (answered k e t) h = do
    (cs, rs) ← answer_at k e t h.calls
    some (record h { calls = cs; results = h.results ++ rs })
  handle ldb (closed leaf) h = some (channel_closed leaf h)

  pub handle_all :
      (ldb : ℕ → LeafBenchmarkData → LeafBenchmarkData)
      → List Event
      → PutHandler
      → Option PutHandler
  unfolding handle
  handle_all ldb [] h = some h
  handle_all ldb (e ∷ es) h = handle ldb e h >>= λ h'. handle_all ldb es h'
