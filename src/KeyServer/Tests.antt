-- ===== src/KeyServer/Tests.antt =====
-- Tests of the model of the handler, and instances of its theorems.
use thrift_bench.Prelude.{ℕ, ◌≡◌, refl, true, false, List, [], ◌∷◌, map}
use thrift_bench.Prelude.Text.{codes}
use thrift_bench.KeyServer.{BenchmarkData, new_handler, Request, put, get, serve, init_data}
use thrift_bench.KeyServer.Answers.{IsFilled, answer, serve-answer}
use thrift_bench.Prelude.{arith}
use thrift_bench.KeyServer.{BenchmarkHandler}
use thrift_bench.KeyServer.Ganesha
use thrift_bench.KeyServer.Ganesha.Chance.{answers, serve-answers}
use thrift_bench.KeyServer.Ganesha.Threads.{run}
use thrift_bench.KeyServer.Ganesha.Threads.Races.{asks, has, run-mixed}

abbrev request : ℕ → BenchmarkData
request size = record {
  request_id = 7;
  client_latency = 0;
  db_latency = 0;
  dict_latency = 0;
  leaf_latency = 0;
  io_latency = 0;
  bypass_dict = false;
  bypass_cpu = false;
  bypass_leaf = false;
  bypass_io = false;
  contents = [];
  data_size = size;
  empty_data_on_resp = false;
}

abbrev requests : List Request
requests =
    get 1 4 (request 0) (request 2)
    ∷ put 5 6 (request 0) (request 3)
    ∷ get 7 9 (request 0) (request 2)
    ∷ []

serve-answer_example : serve requests new_handler ≡ map answer requests
unfolding IsFilled new_handler
serve-answer_example = serve-answer requests new_handler refl

-- A handler whose size is not initialised, and happens to be the first size asked for, returns no
-- data.
uninitialised : (init_data 2 (record { cached_size = 2; cached = [] })).1 ≡ []
unfolding init_data
uninitialised = refl

-- The size that the memory holds, twice; another; and the first again.
abbrev chancy : List Ganesha.Request
chancy =
    Ganesha.get 1 4 1 (request 2)
    ∷ Ganesha.put 5 6 2 (request 3)
    ∷ Ganesha.get 7 9 3 (request 1)
    ∷ Ganesha.get 10 11 4 (request 2)
    ∷ []

serve-answers_example : Ganesha.serve chancy (Ganesha.new_handler 2) ≡ answers true 2 chancy
serve-answers_example = serve-answers 2 chancy

contents_of : List Ganesha.Result → List (List ℕ)
contents_of [] = []
contents_of (r ∷ rs) = r.ret.contents ∷ contents_of rs

chancy_contents : contents_of (answers true 2 chancy) ≡ [] ∷ [] ∷ codes "A" ∷ codes "AA" ∷ []
unfolding contents_of
chancy_contents = refl

abbrev small : BenchmarkHandler
small = record { cached_size = 0; cached = [] }

run-mixed_example :
    (schedule : List ℕ) × (run schedule (asks 2 ∷ asks 1 ∷ []) small ≡ (
      has 2 (codes "A") ∷ has 1 (codes "A") ∷ [],
      record { cached_size = 2; cached = codes "A" },
    ))
    × ((Ganesha.init_data 2 (run schedule (asks 2 ∷ asks 1 ∷ []) small).1).1 ≡ codes "A")
run-mixed_example =
    run-mixed 2 1 small (λ e. absurd (omega (arith, e))) (λ e. absurd (omega (arith, e)))
