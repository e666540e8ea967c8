-- ===== src/KeyServer/Ganesha.antt =====
-- The handler of fbthrift/exp1/GaneshaDBServer.cpp, whose constructor leaves `data_size` to chance.
pub mod Chance
pub mod Threads
use thrift_bench.Prelude.{ℕ, ◌≡◌, List, [], ◌∷◌, ◌++◌, ◌==◌, if◌then◌else◌, replicate, sub64, false}
use thrift_bench.Prelude.Text.{Text}
use thrift_bench.KeyServer.{BenchmarkData, BenchmarkHandler}

-- `BenchmarkHandler()`; `chance` is what the memory of `data_size` holds.
pub new_handler : (chance : ℕ) → BenchmarkHandler
new_handler chance = record { cached_size = chance; cached = [] }

-- `BenchmarkData _ret`
abbrev pub new_data : BenchmarkData
new_data = record {
  request_id = 0;
  client_latency = 0;
  db_latency = 0;
  dict_latency = 0;
  leaf_latency = 0;
  io_latency = 0;
  bypass_dict = false;
  bypass_cpu = false;
  bypass_leaf = false;
  bypass_io = false;
  contents = [];
  data_size = 0;
  empty_data_on_resp = false;
}

-- All but the data.
pub copy_benchmark_data : (dest src : BenchmarkData) → BenchmarkData
copy_benchmark_data dest src = record src { contents = dest.contents }

pub init_data : (size : ℕ) → BenchmarkHandler → BenchmarkHandler × Text
init_data size h =
    let h' =
      if h.cached_size == size
      then h
      else record { cached_size = size; cached = replicate size b'A' } in
    (h', h'.cached)

-- A callback and what it was given.
pub record Result : Type 0 where
  pub callback : ℕ
  pub ret : BenchmarkData

pub async_tm_key_put : (s e callback : ℕ) → (bench : BenchmarkData) → Result
unfolding copy_benchmark_data
async_tm_key_put s e callback bench =
    let ret = copy_benchmark_data new_data bench in
    record {
      callback = callback;
      ret = record ret { contents = []; data_size = 0; db_latency = sub64 e s };
    }

pub async_tm_key_get :
    (s e callback : ℕ) → (bench : BenchmarkData) → BenchmarkHandler → BenchmarkHandler × Result
unfolding copy_benchmark_data init_data
async_tm_key_get s e callback bench h =
    let ret = copy_benchmark_data new_data bench in
    let r = init_data ret.data_size h in
    (
      r.0,
      record { callback = callback; ret = record ret { contents = r.1; db_latency = sub64 e s } },
    )

pub data Request : Type 0 where
  put get : (s e callback : ℕ) → (bench : BenchmarkData) → Request

-- What the callbacks are given, for requests one after another.
pub serve : List Request → BenchmarkHandler → List Result
unfolding async_tm_key_put async_tm_key_get
serve [] h = []
serve (put s e callback bench ∷ rs) h = async_tm_key_put s e callback bench ∷ serve rs h
serve (get s e callback bench ∷ rs) h =
    let r = async_tm_key_get s e callback bench h in r.1 ∷ serve rs r.0
