-- ===== src/Serialize/Runs.antt =====
-- What the benchmarks of the serializers measure.
use thrift_bench.Prelude.{
  ℕ, zero, suc, ◌+◌, ◌^◌, ◌<◌, Option, next_int-fits, ◌≡◌, sym, ap, ◌∙◌, true, some, List, [], ◌∷◌,
  ◌++◌, replicate, append_assoc, arith,
}
use mathlib.Core.List.{append-nil}
use thrift_bench.Serialize.{
  Serializer, WriteRequest, Work, serialized, deserialized, ends_write, ends_text, State, work,
  times, repeat_work, write_request, serialize_round, deserialize_round, bm_binary_serialize,
  bm_compact_serialize, bm_binary_deserialize, bm_compact_deserialize,
}

-- While the clock runs.
abbrev pub measured : (r0 r1 : ℕ) → (timed untimed : List Work) → State
measured r0 r1 timed untimed = record {
  range0 = r0;
  range1 = r1;
  timing = true;
  timed = timed;
  untimed = untimed;
}

append-replicate :
    (ws : List Work) (k : ℕ) (w : Work)
    → (ws ++ w ∷ []) ++ replicate k w ≡ ws ++ replicate (suc k) w
append-replicate ws k w = append_assoc ws (w ∷ []) (replicate k w)

repeat_work-measured :
    (r0 r1 k j : ℕ) (w : Work) (ts us : List Work)
    → j + k < 2 ^ 31
    → repeat_work k j w (measured r0 r1 ts us) ≡ some (measured r0 r1 (ts ++ replicate k w) us)
unfolding repeat_work work
repeat_work-measured r0 r1 zero j w ts us small =
    ap (λ l. some (measured r0 r1 l us)) (sym (append-nil ts))
repeat_work-measured r0 r1 (suc k) j w ts us small = rw (next_int-fits j (omega arith)) (
    repeat_work-measured r0 r1 k (j + 1) w (ts ++ w ∷ []) us (omega arith)
    ∙ ap (λ l. some (measured r0 r1 l us)) (append-replicate ts k w))

-- The work of `n` rounds, each of which does this.
abbrev pub in_rounds : ℕ → List Work → List Work
in_rounds zero ws = []
in_rounds (suc n) ws = ws ++ in_rounds n ws

-- What a round does in the state that the log describes, and what it adds to the log.
abbrev pub Adds : (r0 r1 : ℕ) (ws vs : List Work) → (State → Option State) → Type 0
Adds r0 r1 ws vs f =
    (ts us : List Work) → f (measured r0 r1 ts us) ≡ some (measured r0 r1 (ts ++ ws) (us ++ vs))

times-Adds :
    (r0 r1 : ℕ) (ws vs : List Work) (f : State → Option State)
    → Adds r0 r1 ws vs f
    → (n : ℕ) → Adds r0 r1 (in_rounds n ws) (in_rounds n vs) (times n f)
unfolding times
times-Adds r0 r1 ws vs f one zero ts us =
    λ i. some (measured r0 r1 (sym (append-nil ts) i) (sym (append-nil us) i))
times-Adds r0 r1 ws vs f one (suc n) ts us = rw (one ts us) (
    times-Adds r0 r1 ws vs f one n (ts ++ ws) (us ++ vs) ∙ (λ i. some (
      measured r0 r1 (append_assoc ts ws (in_rounds n ws) i)
        (append_assoc us vs (in_rounds n vs) i))))

-- A serializer reads what it has written.
abbrev pub Reads : Serializer → Type 0
Reads c = (r : WriteRequest) → c.deserialize (c.serialize r) ≡ some r

-- The request without data.
abbrev pub hollow : WriteRequest → WriteRequest
hollow fresh = record fresh { reqid = 1000; size = 16384; offset = 1073741824; contents = [] }

-- A new buffer holds nothing, whatever its capacity.
module _ (fresh : WriteRequest) (create : ℕ → List ℕ)
    (empty : (capacity : ℕ) → create capacity ≡ []) where
  write_request-hollow : (capacity : ℕ) → write_request fresh create capacity ≡ hollow fresh
  unfolding write_request
  write_request-hollow capacity = λ i. record fresh {
    reqid = 1000;
    size = 16384;
    offset = 1073741824;
    contents = empty capacity i;
  }

  -- What a round does while the clock runs, and what while it stands.
  abbrev pub serialize_timed : Serializer → ℕ → List Work
  serialize_timed c r1 =
      replicate r1 (serialized (c.serialize (hollow fresh))) ++ ends_write (hollow fresh) ∷ []

  abbrev pub deserialize_timed : Serializer → ℕ → List Work
  deserialize_timed c r1 =
      replicate r1 (deserialized (some (hollow fresh)))
      ++ ends_text (c.serialize (hollow fresh)) ∷ ends_write (hollow fresh) ∷ []

  abbrev pub deserialize_untimed : Serializer → List Work
  deserialize_untimed c = serialized (c.serialize (hollow fresh)) ∷ []

  serialize_round-hollow :
      (c : Serializer) (r0 r1 : ℕ)
      → r1 < 2 ^ 31
      → Adds r0 r1 (serialize_timed c r1) [] (serialize_round fresh create c)
  unfolding serialize_round work
  serialize_round-hollow c r0 r1 small ts us =
      let write = write_request fresh create r0 in
      let w = serialized (c.serialize write) in
      rw (repeat_work-measured r0 r1 r1 0 w ts us (omega arith)) (λ i. some (
        measured r0 r1
          ((append_assoc ts (replicate r1 w) (ends_write write ∷ [])
              ∙ ap (λ r. ts ++ (replicate r1 (serialized (c.serialize r)) ++ ends_write r ∷ []))
                  (write_request-hollow r0))
            i)
          (sym (append-nil us) i)))

  deserialize_round-hollow :
      (c : Serializer) (r0 r1 : ℕ)
      → Reads c
      → r1 < 2 ^ 31
      → Adds r0 r1
          (deserialize_timed c r1)
          (deserialize_untimed c)
          (deserialize_round fresh create c)
  unfolding deserialize_round work
  deserialize_round-hollow c r0 r1 reads small ts us =
      let write = write_request fresh create r0 in
      let text = c.serialize write in
      let w = deserialized (c.deserialize text) in
      let after = ts ++ replicate r1 w in
      rw (repeat_work-measured r0 r1 r1 0 w ts (us ++ serialized text ∷ []) (omega arith)) (λ i.
        some (
          measured r0 r1
            ((append_assoc after (ends_text text ∷ []) (ends_write write ∷ [])
                ∙ append_assoc ts (replicate r1 w) (ends_text text ∷ ends_write write ∷ [])
                ∙ ap
                    (λ o.
                      ts
                      ++ (replicate r1 (deserialized o) ++ ends_text text ∷ ends_write write ∷ []))
                    (reads write)
                ∙ ap
                    (λ r.
                      ts
                      ++ (replicate r1 (deserialized (some r))
                          ++ ends_text (c.serialize r) ∷ ends_write r ∷ []))
                    (write_request-hollow r0))
              i)
            (us ++ serialized (c.serialize (write_request-hollow r0 i)) ∷ [])))

  -- Each benchmark of a serializer that reads what it has written, with buffers that are empty when
  -- they are made, for any first range, a second range below 2^31 and any number of rounds. In each
  -- round the clock runs for the second range's number of calls, all with one result, and for the end
  -- of the objects of the round; a benchmark that deserializes makes its text while the clock stands.
  -- The request of all of them has no data, whatever the first range is.
  pub benchmarks-hollow :
      (binary compact : Serializer) (r0 r1 n : ℕ)
      → Reads binary
      → Reads compact
      → r1 < 2 ^ 31
      → (bm_binary_serialize fresh create binary compact n (measured r0 r1 [] [])
          ≡ some (measured r0 r1 (in_rounds n (serialize_timed binary r1)) (in_rounds n [])))
        × (bm_compact_serialize fresh create binary compact n (measured r0 r1 [] [])
            ≡ some (measured r0 r1 (in_rounds n (serialize_timed compact r1)) (in_rounds n [])))
        × (bm_binary_deserialize fresh create binary compact n (measured r0 r1 [] [])
            ≡ some (
                measured r0 r1
                  (in_rounds n (deserialize_timed binary r1))
                  (in_rounds n (deserialize_untimed binary))))
        × (bm_compact_deserialize fresh create binary compact n (measured r0 r1 [] [])
            ≡ some (
                measured r0 r1
                  (in_rounds n (deserialize_timed compact r1))
                  (in_rounds n (deserialize_untimed compact))))
  unfolding bm_binary_serialize bm_compact_serialize bm_binary_deserialize bm_compact_deserialize
  benchmarks-hollow binary compact r0 r1 n reads_binary reads_compact small =
      (writes binary, writes compact, reads binary reads_binary, reads compact reads_compact)
    where
      writes :
          (c : Serializer)
          → times n (serialize_round fresh create c) (measured r0 r1 [] [])
            ≡ some (measured r0 r1 (in_rounds n (serialize_timed c r1)) (in_rounds n []))
      writes c =
          times-Adds r0 r1 (serialize_timed c r1) [] (serialize_round fresh create c)
            (serialize_round-hollow c r0 r1 small) n [] []

      reads :
          (c : Serializer)
          → Reads c
          → times n (deserialize_round fresh create c) (measured r0 r1 [] [])
            ≡ some (
                measured r0 r1
                  (in_rounds n (deserialize_timed c r1))
                  (in_rounds n (deserialize_untimed c)))
      reads c r =
          times-Adds r0 r1 (deserialize_timed c r1) (deserialize_untimed c)
            (deserialize_round fresh create c) (deserialize_round-hollow c r0 r1 r small) n [] []
