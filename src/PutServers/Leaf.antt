-- ===== src/PutServers/Leaf.antt =====
-- `LeafHandler` of fbthrift/exp2/LEAF/LeafServer.cpp: a put goes through the thread manager, whose
-- threads take jobs in any order, and back to the event base.
pub mod Bags
use thrift_bench.Prelude.{ℕ, ◌+◌, zero, suc, ◌≡◌, List, [], ◌∷◌, ◌++◌, sub64, refl}
use thrift_bench.PutServers.Service.{LeafBenchmarkData, LeafService}

-- The lambda for the thread manager, and the one for the event base.
pub record Job : Type 0 where
  pub cb : ℕ
  pub reqid : ℕ
  pub s : ℕ

pub record Task : Type 0 where
  pub cb : ℕ
  pub reqid : ℕ
  pub cpu : ℕ
  pub s : ℕ

pub record LeafHandler : Type 0 where
  pub pool : List Job
  pub queue : List Task
  pub results : List (ℕ × LeafBenchmarkData)

pub new_handler : LeafHandler
new_handler = record { pool = []; queue = []; results = [] }

-- Up to the call of `add`, with the time that is read first.
pub async_tm_key_put : (s cb : ℕ) → LeafBenchmarkData → LeafHandler → LeafHandler
async_tm_key_put s cb ldb h = record h {
  pool = h.pool ++ (record { cb = cb; reqid = ldb.request_id; s = s }) ∷ [];
}

-- What a thread does with a job: it burns time between two readings of the clock.
pub burn : (cs ce : ℕ) → Job → Task
burn cs ce j = record { cb = j.cb; reqid = j.reqid; cpu = sub64 ce cs; s = j.s }

-- What the event base does: the reply.
pub reply : (e : ℕ) → Task → LeafBenchmarkData
reply e t = record {
  request_id = t.reqid;
  leaf_latency = sub64 e t.s;
  io_latency = 0;
  cpu_consumed = t.cpu;
  contents = [];
  data_size = 0;
}

-- A thread takes the k-th job; the lists are those before and after it.
pub work_at : ℕ → (cs ce : ℕ) → List Job → List Task → List Job × List Task
unfolding burn
work_at k cs ce [] ts = ([], ts)
work_at zero cs ce (j ∷ js) ts = (js, ts ++ burn cs ce j ∷ [])
work_at (suc k) cs ce (j ∷ js) ts = let r = work_at k cs ce js ts in (j ∷ r.0, r.1)

deliver : ℕ → List Task → LeafHandler → LeafHandler
unfolding reply
deliver e [] h = h
deliver e (t ∷ ts) h = record h { queue = ts; results = h.results ++ (t.cb, reply e t) ∷ [] }

pub data Event : Type 0 where
  put : (s cb : ℕ) → LeafBenchmarkData → Event
  work : (k cs ce : ℕ) → Event
  loop_once : (e : ℕ) → Event

pub handle : Event → LeafHandler → LeafHandler
unfolding async_tm_key_put work_at deliver
handle (put s cb ldb) h = async_tm_key_put s cb ldb h
handle (work k cs ce) h =
    let r = work_at k cs ce h.pool h.queue in record h { pool = r.0; queue = r.1 }
handle (loop_once e) h = deliver e h.queue h

pub handle_all : List Event → LeafHandler → LeafHandler
unfolding handle
handle_all [] h = h
handle_all (e ∷ es) h = handle_all es (handle e h)

-- The answer to one put, by the four readings of the clock.
unfoldable pub answer : ℕ × ℕ × ℕ × ℕ → LeafBenchmarkData → LeafBenchmarkData
unfolding burn reply
answer (s, cs, ce, e) ldb = reply e (burn cs ce (record { cb = 0; reqid = ldb.request_id; s = s }))

pub answer-request_id :
    (t : ℕ × ℕ × ℕ × ℕ) (ldb : LeafBenchmarkData) → (answer t ldb).request_id ≡ ldb.request_id
unfolding answer
answer-request_id (s, cs, ce, e) ldb = refl

unfoldable pub leaf_service : LeafService
leaf_service = record { Timing = ℕ × ℕ × ℕ × ℕ; answer = answer; same_id = answer-request_id }
