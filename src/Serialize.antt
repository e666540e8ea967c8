-- ===== src/Serialize.antt =====
-- The benchmarks of serialize/Serialize.cpp. What the benchmark library keeps for them is a log of the
-- work done while its clock runs, and one of the other work.
mod Tests
pub mod Runs
use thrift_bench.Prelude.{
  ℕ, zero, suc, ◌*◌, ◌^◌, Bool, true, false, Option, List, [], ◌∷◌, ◌++◌, if◌then◌else◌, ◌>>=◌,
  none, some, next_int,
}
use thrift_bench.Prelude.Text.{Text}

-- The structure of the interface file; `contents` is what `data` holds.
pub record WriteRequest : Type 0 where
  pub reqid : ℕ
  pub size : ℕ
  pub offset : ℕ
  pub hits : ℕ
  pub miss : ℕ
  pub contents : List ℕ

-- The result of a call of a serializer, where `none` is an exception, and the end of an object with
-- what it holds.
pub data Work : Type 0 where
  serialized : Text → Work
  deserialized : Option WriteRequest → Work
  ends_write : WriteRequest → Work
  ends_text : Text → Work

-- `benchmark::State`
pub record State : Type 0 where
  pub range0 : ℕ
  pub range1 : ℕ
  pub timing : Bool
  pub timed : List Work
  pub untimed : List Work

abbrev pub k_iterations : ℕ
k_iterations = 2 ^ 14

abbrev pause_timing : State → State
pause_timing s = record s { timing = false }

abbrev resume_timing : State → State
resume_timing s = record s { timing = true }

pub work : Work → State → State
work w s =
    if s.timing
    then record s { timed = s.timed ++ w ∷ [] }
    else record s { untimed = s.untimed ++ w ∷ [] }

-- The inner loop, with the calls left and its counter, an `int`.
pub repeat_work : (left j : ℕ) → Work → State → Option State
unfolding work next_int
repeat_work zero j w s = some s
repeat_work (suc n) j w s = next_int j >>= λ j'. repeat_work n j' w (work w s)

-- The outer loop.
pub times : ℕ → (State → Option State) → State → Option State
times zero f s = some s
times (suc n) f s = f s >>= λ s'. times n f s'

-- `BinarySerializer` or `CompactSerializer`
pub record Serializer : Type 0 where
  pub serialize : WriteRequest → Text
  pub deserialize : Text → Option WriteRequest

-- Parameters: the request that the generated constructor makes, and what a buffer of
-- `IOBuf::create` holds.
module _ (fresh : WriteRequest) (create : ℕ → List ℕ) where
  pub write_request : (capacity : ℕ) → WriteRequest
  write_request capacity = record fresh {
    reqid = 1000;
    size = 16 * 1024;
    offset = 1024 * 1024 * 1024;
    contents = create capacity;
  }

  -- One round of the outer loop, for a serializer: at its end, with the clock running, its objects
  -- end.
  pub serialize_round : Serializer → State → Option State
  unfolding write_request work repeat_work
  serialize_round c s = do
    let write = write_request (pause_timing s).range0
    let s' = resume_timing (pause_timing s)
    s2 ← repeat_work s'.range1 0 (serialized (c.serialize write)) s'
    some (work (ends_write write) s2)

  pub deserialize_round : Serializer → State → Option State
  unfolding write_request work repeat_work
  deserialize_round c s = do
    let write = write_request (pause_timing s).range0
    let text = c.serialize write
    let s' = resume_timing (work (serialized text) (pause_timing s))
    s2 ← repeat_work s'.range1 0 (deserialized (c.deserialize text)) s'
    some (work (ends_write write) (work (ends_text text) s2))

-- Each benchmark, for so many rounds as the library asks for.
module _ (fresh : WriteRequest) (create : ℕ → List ℕ) (binary compact : Serializer) where
  pub bm_binary_serialize : ℕ → State → Option State
  unfolding serialize_round times
  bm_binary_serialize iterations s = times iterations (serialize_round fresh create binary) s

  pub bm_compact_serialize : ℕ → State → Option State
  unfolding serialize_round times
  bm_compact_serialize iterations s = times iterations (serialize_round fresh create compact) s

  pub bm_binary_deserialize : ℕ → State → Option State
  unfolding deserialize_round times
  bm_binary_deserialize iterations s = times iterations (deserialize_round fresh create binary) s

  pub bm_compact_deserialize : ℕ → State → Option State
  unfolding deserialize_round times
  bm_compact_deserialize iterations s = times iterations (deserialize_round fresh create compact) s
