-- ===== src/StorageRpc/Server/Echoed.antt =====
-- The echo benchmark of the client against the server's own handler.
use thrift_bench.Prelude.{
  ℕ, ◌^◌, ◌≤◌, ◌<◌, ◌≡◌, refl, false, none, some, List, [], ◌∷◌, length, map, replicate,
  length-replicate, All, arith, lookup,
}
use thrift_bench.StorageRpc.Stats.{Collector}
use thrift_bench.StorageRpc.Echo.{Config, Loop, Turn, benchmark_echo, going}
use thrift_bench.StorageRpc.Echo.Counts.{IsSane}
use thrift_bench.StorageRpc.Echo.Ends.{Echoes, benchmark_echo-ends}
use thrift_bench.StorageRpc.Server.{async_tm_echo}

-- The length of the data that comes back for a request of the client, a block of the letter A.
pub echoed : Config → ℕ → ℕ
unfolding async_tm_echo
echoed c request_id = length (async_tm_echo request_id (replicate c.block_size b'A')).contents

-- The turns in which the server answers these requests at these times.
pub served : Config → List (List ℕ × ℕ) → List Turn
unfolding echoed
served c [] = []
served c ((ids, now) ∷ ts) = record { replies = map (echoed c) ids; now = now } ∷ served c ts

echoed-All : (c : Config) (ids : List ℕ) → All (λ len. len ≡ c.block_size) (map (echoed c) ids)
unfolding echoed
echoed-All c [] = tt
echoed-All c (id ∷ ids) = (length-replicate {A = ℕ} c.block_size b'A', echoed-All c ids)

length-echoed : (c : Config) (ids : List ℕ) → length (map (echoed c) ids) ≡ length ids
length-echoed c [] = refl
length-echoed c (id ∷ ids) = omega (arith, length-echoed c ids)

served-Echoes :
    (c : Config) (ts : List (List ℕ × ℕ))
    → All (λ t. 1 ≤ length t.0) ts
    → All (λ t. Echoes c t × (1 ≤ length t.replies)) (served c ts)
unfolding served
served-Echoes c [] h = tt
served-Echoes c ((ids, now) ∷ ts) h =
    ((echoed-All c ids, omega (arith, h.0, length-echoed c ids)), served-Echoes c ts h.1)

length-served : (c : Config) (ts : List (List ℕ × ℕ)) → length (served c ts) ≡ length ts
unfolding served
length-served c [] = refl
length-served c ((ids, now) ∷ ts) = omega (arith, length-served c ts)

-- A limited run of the client against the server, with a queue depth from 1 to below 2^31 and fewer
-- than 2^62 requests, for a client that is not there yet. The server answers any requests in any
-- order, at least one in each turn of the client's event loop. As many turns as requests are enough
-- for the run to end by its test with all the replies that were asked for, and the assertion on the
-- size of the data holds of each.
pub benchmark_echo-served :
    (c : Config) (id now : ℕ) (ts : List (List ℕ × ℕ)) (stats : Collector)
    → IsSane c
    → c.unlimited ≡ false
    → c.requests < 2 ^ 62
    → lookup id stats ≡ none
    → All (λ t. 1 ≤ length t.0) ts
    → c.requests ≤ length ts
    → (stats' : Collector) × (l : Loop) × (benchmark_echo c id now (served c ts) stats
        ≡ some (stats', l))
      × (going c l ≡ false)
      × (c.requests ≤ l.req_complete)
benchmark_echo-served c id now ts stats sane lim fits absent h enough =
    let (stats', l, returns, stops, complete, accounted, quota, known) =
      benchmark_echo-ends c id now (served c ts) stats sane lim fits absent (served-Echoes c ts h)
        (omega (arith, length-served c ts)) in
    (stats', l, returns, stops, complete)
