-- ===== src/Serialize/Tests.antt =====
-- Tests of the model of serialize/Serialize.cpp, and an instance of its theorem.
use thrift_bench.Prelude.{ℕ, ◌≡◌, refl, arith, Option, none, some, List, [], ◌∷◌, replicate}
use thrift_bench.Prelude.Text.{Text}
use thrift_bench.Serialize.{
  WriteRequest, Serializer, k_iterations, bm_binary_serialize, bm_compact_serialize,
  bm_binary_deserialize, bm_compact_deserialize, write_request,
}
use thrift_bench.Serialize.Runs.{
  measured, Reads, in_rounds, serialize_timed, deserialize_timed, deserialize_untimed,
  benchmarks-hollow,
}

abbrev zeros : WriteRequest
zeros = record { reqid = 0; size = 0; offset = 0; hits = 0; miss = 0; contents = [] }

abbrev read_fields : Text → Option WriteRequest
read_fields (a ∷ b ∷ c ∷ d ∷ e ∷ xs) =
    some (record { reqid = a; size = b; offset = c; hits = d; miss = e; contents = xs })
read_fields xs = none

-- The fields one after another.
abbrev fields : Serializer
fields = record {
  serialize = λ r. r.reqid ∷ r.size ∷ r.offset ∷ r.hits ∷ r.miss ∷ r.contents;
  deserialize = read_fields;
}

fields-Reads : Reads fields
fields-Reads r = refl

abbrev no_data : ℕ → List ℕ
no_data capacity = []

benchmarks-hollow_example :
    (bm_binary_serialize zeros no_data fields fields 3 (measured 1024 k_iterations [] [])
      ≡ some (
          measured 1024 k_iterations
            (in_rounds 3 (serialize_timed zeros no_data (λ n. refl) fields k_iterations))
            (in_rounds 3 [])))
    × (bm_compact_serialize zeros no_data fields fields 3 (measured 1024 k_iterations [] [])
        ≡ some (
            measured 1024 k_iterations
              (in_rounds 3 (serialize_timed zeros no_data (λ n. refl) fields k_iterations))
              (in_rounds 3 [])))
    × (bm_binary_deserialize zeros no_data fields fields 3 (measured 1024 k_iterations [] [])
        ≡ some (
            measured 1024 k_iterations
              (in_rounds 3 (deserialize_timed zeros no_data (λ n. refl) fields k_iterations))
              (in_rounds 3 (deserialize_untimed zeros no_data (λ n. refl) fields))))
    × (bm_compact_deserialize zeros no_data fields fields 3 (measured 1024 k_iterations [] [])
        ≡ some (
            measured 1024 k_iterations
              (in_rounds 3 (deserialize_timed zeros no_data (λ n. refl) fields k_iterations))
              (in_rounds 3 (deserialize_untimed zeros no_data (λ n. refl) fields))))
benchmarks-hollow_example =
    benchmarks-hollow zeros no_data (λ n. refl) fields fields 1024 k_iterations 3 fields-Reads
      fields-Reads (omega arith)

-- With a buffer of that length the request would have the data.
filled : (write_request zeros (λ n. replicate n 7) 3).contents ≡ 7 ∷ 7 ∷ 7 ∷ []
unfolding write_request
filled = refl
