-- ===== src/KeyServer.antt =====
-- The handler of thrift/exp2/thrift-server.cpp, which thrift/exp1/thrift-server.cpp and
-- fbthrift/exp1/GaneshaDBServer.cpp have too, and the choice of a server in its `main`.
mod Tests
pub mod Answers
pub mod Ganesha
use thrift_bench.Prelude.{
  ℕ, zero, suc, ◌+◌, ◌^◌, ◌≡◌, Bool, true, false, ◌||◌, not, Option, none, some, List, [], ◌∷◌,
  ◌==◌, if◌then◌else◌, replicate, sub64,
}
use thrift_bench.Prelude.Text.{Text, codes, same_text}

-- The structure of the interface file. Sizes below zero, which it allows, are left out.
pub record BenchmarkData : Type 0 where
  pub request_id : ℕ
  pub client_latency : ℕ
  pub db_latency : ℕ
  pub dict_latency : ℕ
  pub leaf_latency : ℕ
  pub io_latency : ℕ
  pub bypass_dict : Bool
  pub bypass_cpu : Bool
  pub bypass_leaf : Bool
  pub bypass_io : Bool
  pub contents : Text
  pub data_size : ℕ
  pub empty_data_on_resp : Bool

-- The private fields.
pub record BenchmarkHandler : Type 0 where
  pub cached_size : ℕ
  pub cached : Text

-- With `data_size(0)`, as the constructors in thrift/ have it; the one in fbthrift/exp1 leaves
-- the size to chance.
unfoldable pub new_handler : BenchmarkHandler
new_handler = record { cached_size = 0; cached = [] }

-- All but the data.
unfoldable pub copy_benchmark_data : (dest src : BenchmarkData) → BenchmarkData
copy_benchmark_data dest src = record {
  request_id = src.request_id;
  client_latency = src.client_latency;
  db_latency = src.db_latency;
  dict_latency = src.dict_latency;
  leaf_latency = src.leaf_latency;
  io_latency = src.io_latency;
  bypass_dict = src.bypass_dict;
  bypass_cpu = src.bypass_cpu;
  bypass_leaf = src.bypass_leaf;
  bypass_io = src.bypass_io;
  contents = dest.contents;
  data_size = src.data_size;
  empty_data_on_resp = src.empty_data_on_resp;
}

-- The data is made anew only for another size; the handler and what it returns.
unfoldable pub init_data : ℕ → BenchmarkHandler → BenchmarkHandler × Text
init_data size h =
    let h' =
      if h.cached_size == size
      then h
      else record { cached_size = size; cached = replicate size b'A' } in
    (h', h'.cached)

-- Each handler reads the clock first and last. `ret` is the structure that it fills.
unfoldable pub key_put : (s e : ℕ) (ret bd : BenchmarkData) → BenchmarkData
unfolding copy_benchmark_data
key_put s e ret bd = record (copy_benchmark_data ret bd) {
  contents = [];
  data_size = 0;
  db_latency = sub64 e s;
}

pub key_get :
    (s e : ℕ) (ret bd : BenchmarkData) → BenchmarkHandler → BenchmarkHandler × BenchmarkData
unfolding copy_benchmark_data init_data
key_get s e ret bd h =
    let ret1 = copy_benchmark_data ret bd in
    let r = init_data ret1.data_size h in
    (r.0, record ret1 { contents = r.1; db_latency = sub64 e s })

pub data Request : Type 0 where
  put get : (s e : ℕ) → (ret bd : BenchmarkData) → Request

-- The replies to requests, one after another.
pub serve : List Request → BenchmarkHandler → List BenchmarkData
unfolding key_put key_get
serve [] h = []
serve (put s e ret bd ∷ rs) h = key_put s e ret bd ∷ serve rs h
serve (get s e ret bd ∷ rs) h = let r = key_get s e ret bd h in r.1 ∷ serve rs r.0

pub data Server : Type 0 where
  non_blocking threaded thread_pool : Server

-- `boost::algorithm::to_lower` is a parameter.
module _ (to_lower : Text → Text) where
  pub validate_server_type : Text → Bool
  validate_server_type value =
      let v = to_lower value in
      same_text v (codes "nonblocking")
      || same_text v (codes "threaded")
      || same_text v (codes "threadpool")

  -- The server that `main` makes, and whether it has started the thread manager before; `none` is
  -- the assertion.
  pub make_server : Text → Option (Bool × Server)
  make_server server_type =
      let stype = to_lower server_type in
      let started = not (same_text stype (codes "threaded")) in
      if same_text stype (codes "nonblocking")
      then some (started, non_blocking)
      else if same_text stype (codes "threaded")
      then some (started, threaded)
      else if same_text stype (codes "threadpool")
      then some (started, thread_pool)
      else none
