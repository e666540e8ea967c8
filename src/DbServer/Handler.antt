-- ===== src/DbServer/Handler.antt =====
-- `Leaf` and `DBHandler` of fbthrift/exp3/DB/DBServer.cpp, on one event base. What the two handlers
-- pass to `runInEventBaseThread` is queued and run later, and a leaf's channel may close between. When the
-- future of `collectAll` is ready is the library's, and an event here.
pub mod Leafs
pub mod Safety
pub mod Rounds
pub mod Threads
pub mod Bases
use thrift_bench.Prelude.{
  ℕ, zero, suc, ◌+◌, ◌-◌, ◌^◌, ◌%◌, ◌≡◌, Bool, true, false, not, ◌&&◌, Option, none, some, List, [],
  ◌∷◌, ◌++◌, ◌==◌, if◌then◌else◌, ◌>>=◌, ◌>>◌, assert, length, get_elem?, set, lookup, insert,
  erase, add32, sub64, map,
}
use thrift_bench.Prelude.Text.{Text}

-- `client_`, which is null or a client, here the number of its connection.
pub record Leaf : Type 0 where
  pub ip : Text
  pub port : ℕ
  pub connected : Bool
  pub client : Option ℕ

pub new_leaf : Text → ℕ → Leaf
new_leaf ip port = record { ip = ip; port = port; connected = false; client = none }

abbrev is_null : Option ℕ → Bool
is_null none = true
is_null (some c) = false

-- `connect`, for the connection with this number; the assertion on the event base holds in its
-- thread.
pub connect : ℕ → Leaf → Option Leaf
connect socket l = do
  assert (is_null l.client && not l.connected)
  some (record l { client = some socket; connected = true })

-- `channelClosed` and `setDisconnected`.
pub set_disconnected : Leaf → Leaf
set_disconnected l = record l { client = none; connected = false }

-- A leaf's connection, opened first where the leaf is not connected, with the number of the next
-- connection.
pub connection : ℕ → Leaf → Option (ℕ × (Leaf × ℕ))
unfolding connect
connection sockets l = do
  l' ← if l.connected then some l else connect sockets l
  clientp ← l'.client
  some (clientp, (l', if l.connected then sockets else sockets + 1))

-- A lambda for the event base: the callback is a number, and a read has its leaf and its start.
pub data Task : Type 0 where
  write_task : (cb : ℕ) → (filename data_ : Text) → Task
  read_task : (cb request_id : ℕ) → (filename : Text) → (size leaf s : ℕ) → Task

-- A call on a leaf's client.
pub data Call : Type 0 where
  future_write : (clientp cb : ℕ) → (filename data_ : Text) → Call
  future_read : (clientp cb request_id : ℕ) → (filename : Text) → (size s : ℕ) → Call

pub record LeafData : Type 0 where
  pub contents : Text
  pub leaf_io_latency : ℕ
  pub leaf_cpu_consumed : ℕ

pub record DbData : Type 0 where
  pub request_id : ℕ
  pub contents : Text
  pub leaf_latency : ℕ
  pub io_latency : ℕ
  pub cpu_consumed : ℕ

pub data Done : Type 0 where
  done : (cb : ℕ) → Done
  result : (cb : ℕ) → DbData → Done

pub record Db : Type 0 where
  pub leafs : List Leaf
  pub cur_leaf : ℕ
  pub sockets : ℕ
  pub queue : List Task
  pub calls : List Call
  pub answers : List Done

unfoldable pub start_db : List Leaf → Db
start_db leafs = record {
  leafs = leafs;
  cur_leaf = 0;
  sockets = 0;
  queue = [];
  calls = [];
  answers = [];
}

-- `getLeaf`: the remainder by zero is undefined.
pub get_leaf : Db → Option (ℕ × Db)
get_leaf db =
    let cur = add32 db.cur_leaf 1 % length db.leafs in
    if length db.leafs == 0 then none else some (cur, record db { cur_leaf = cur })

pub async_tm_write : (cb : ℕ) (filename data_ : Text) → Db → Db
async_tm_write cb filename data_ db = record db {
  queue = db.queue ++ write_task cb filename data_ ∷ [];
}

pub async_tm_read : (now cb request_id : ℕ) (filename : Text) (size : ℕ) → Db → Option Db
unfolding get_leaf
async_tm_read now cb request_id filename size db = do
  (leafp, db') ← get_leaf db
  some (record db' { queue = db'.queue ++ read_task cb request_id filename size leafp now ∷ [] })

-- The `for` loop of a write's lambda: the leafs after it, the number of the next connection, and
-- the clients to write to.
pub connect_all : ℕ → List Leaf → Option (List Leaf × (ℕ × List ℕ))
unfolding connection
connect_all sockets [] = some ([], (sockets, []))
connect_all sockets (l ∷ ls) = do
  (clientp, (l', sockets')) ← connection sockets l
  (ls', (sockets2, clients)) ← connect_all sockets' ls
  some (l' ∷ ls', (sockets2, clientp ∷ clients))

pub run_task : Task → Db → Option Db
unfolding connect_all connection
run_task (write_task cb filename data_) db = do
  (leafs, (sockets, clients)) ← connect_all db.sockets db.leafs
  some (record db {
    leafs = leafs;
    sockets = sockets;
    calls = db.calls ++ map (λ c. future_write c cb filename data_) clients;
  })
run_task (read_task cb request_id filename size leaf s) db = do
  leafp ← get_elem? db.leafs leaf
  (clientp, (l, sockets)) ← connection db.sockets leafp
  some (record db {
    leafs = set db.leafs leaf l;
    sockets = sockets;
    calls = db.calls ++ future_read clientp cb request_id filename size s ∷ [];
  })

-- The event base runs the first lambda of its queue.
pub run_next : List Task → Db → Option Db
unfolding run_task
run_next [] db = some db
run_next (t ∷ ts) db = run_task t (record db { queue = ts })

pub run_queue : Db → Option Db
unfolding run_next
run_queue db = run_next db.queue db

-- The future of `collectAll` is ready.
pub on_collected : ℕ → Db → Db
on_collected cb db = record db { answers = db.answers ++ done cb ∷ [] }

-- A leaf's reply to a read, with what it asked.
pub on_read : (now cb request_id s : ℕ) → LeafData → Db → Db
on_read now cb request_id s r db = record db {
  answers =
      db.answers
      ++ result cb (record {
        request_id = request_id;
        contents = r.contents;
        leaf_latency = sub64 now s;
        io_latency = r.leaf_io_latency;
        cpu_consumed = r.leaf_cpu_consumed;
      })
        ∷ [];
}

abbrev pub disconnect_at : ℕ → List Leaf → List Leaf
disconnect_at i [] = []
disconnect_at zero (l ∷ ls) = set_disconnected l ∷ ls
disconnect_at (suc i) (l ∷ ls) = l ∷ disconnect_at i ls

pub data Event : Type 0 where
  write : (cb : ℕ) → (filename data_ : Text) → Event
  read : (now cb request_id : ℕ) → (filename : Text) → (size : ℕ) → Event
  run : Event
  collected : (cb : ℕ) → Event
  read_replied : (now cb request_id s : ℕ) → LeafData → Event
  closed : (leaf : ℕ) → Event

-- One event; the lambdas run one after another on the event base.
pub handle : Event → Db → Option Db
unfolding async_tm_write async_tm_read run_queue on_collected on_read set_disconnected
handle (write cb filename data_) db = some (async_tm_write cb filename data_ db)
handle (read now cb request_id filename size) db = async_tm_read now cb request_id filename size db
handle run db = run_queue db
handle (collected cb) db = some (on_collected cb db)
handle (read_replied now cb request_id s r) db = some (on_read now cb request_id s r db)
handle (closed leaf) db = some (record db { leafs = disconnect_at leaf db.leafs })

pub handle_all : List Event → Db → Option Db
unfolding handle
handle_all [] db = some db
handle_all (e ∷ es) db = handle e db >>= λ db'. handle_all es db'
