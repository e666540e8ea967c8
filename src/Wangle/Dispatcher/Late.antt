-- ===== src/Wangle/Dispatcher/Late.antt =====
-- A response that comes after its request has timed out.
use thrift_bench.Prelude.{
  ℕ, ◌≡◌, refl, sym, ap, ◌∙◌, Option, none, some, List, [], ◌∷◌, ◌++◌, ◌>>=◌, lookup, true, false,
  erase-Distinct, ◌==◌, if◌then◌else◌, All, arith,
}
use mathlib.Core.Path.{subst}
use mathlib.Core.Option.{some-injective, none-ne-some}
use thrift_bench.Wangle.Codec.{Message}
use thrift_bench.Wangle.Dispatcher.{
  Dispatcher, new_dispatcher, read, interrupt, Event, calls, reads, expires, handle_all,
}
use thrift_bench.Wangle.Dispatcher.Refine.{
  Table, admit, step, steps, empty, Matches, Agrees, erase-Matches, handle_all-Agrees,
  handle_all-steps,
}

-- The event is no call with this identifier.
abbrev pub IsOther : ℕ → Event → Type 0
IsOther id (calls m) = m.req_id == id ≡ false
IsOther id (reads m) = Unit
IsOther id (expires j) = Unit

-- Nothing waits for the identifier, where the table has not failed.
abbrev Forgot : ℕ → Option Table → Type 0
Forgot id none = Unit
Forgot id (some t) = t.waiting id ≡ none

none_at : (j id : ℕ) (w : Option ℕ) → w ≡ none → (if j == id then none else w) ≡ none
none_at j id w h = ground (arith, h)

admit-Forgot :
    (id : ℕ) (w : Option ℕ) (m : Message) (t : Table)
    → m.req_id == id ≡ false
    → t.waiting id ≡ none
    → Forgot id (admit w m t)
admit-Forgot id none m t other h = rw other h
admit-Forgot id (some p) m t other h = tt

step-Forgot :
    (id : ℕ) (e : Event) (t : Table) → IsOther id e → t.waiting id ≡ none → Forgot id (step e t)
step-Forgot id (calls m) t other h = admit-Forgot id (t.waiting m.req_id) m t other h
step-Forgot id (expires j) t other h = none_at j id (t.waiting id) h
step-Forgot id (reads m) t other h = after (t.waiting m.req_id)
  where
    after :
        (w : Option ℕ)
        → Forgot id (
            w >>= λ p. some (record t {
              waiting = λ j. if m.req_id == j then none else t.waiting j;
              values = t.values ++ (p, m) ∷ [];
            }))
    after none = tt
    after (some p) = none_at m.req_id id (t.waiting id) h

then-Forgot :
    (id : ℕ) (o : Option Table) (es : List Event)
    → Forgot id o
    → ((t : Table) → t.waiting id ≡ none → Forgot id (steps es t))
    → Forgot id (o >>= λ t. steps es t)
then-Forgot id none es h k = tt
then-Forgot id (some t) es h k = k t h

steps-Forgot :
    (id : ℕ) (es : List Event) (t : Table)
    → All (IsOther id) es
    → t.waiting id ≡ none
    → Forgot id (steps es t)
steps-Forgot id [] t other h = h
steps-Forgot id (e ∷ es) t other h =
    then-Forgot id (step e t) es (step-Forgot id e t other.0 h)
      (λ t' h'. steps-Forgot id es t' other.1 h')

unwaited :
    (id : ℕ) (o : Option Dispatcher) (p : Option Table) (d : Dispatcher)
    → Agrees o p
    → Forgot id p
    → o ≡ some d
    → lookup id d.requests ≡ none
unwaited id none p d a f e = cc
unwaited id (some d') none d a f e = absurd a
unwaited id (some d') (some t) d a f e =
    ap (λ (k : Dispatcher). lookup id k.requests) (sym (some-injective d' d e)) ∙ a.same id ∙ f

matched :
    (o : Option Dispatcher) (p : Option Table) (d : Dispatcher)
    → Agrees o p
    → o ≡ some d
    → (t : Table) × Matches d t
matched none p d a e = absurd (none-ne-some d e)
matched (some d') none d a e = absurd a
matched (some d') (some t) d a e = (t, subst (λ k. Matches k t) (some-injective d' d e) a)

-- A request times out after any history, and then come any events but a call with its identifier.
-- If nothing has failed until then, the response to the request fails the `CHECK` of `read`.
pub late-read :
    (es later : List Event) (m : Message) (d d' : Dispatcher)
    → handle_all es new_dispatcher ≡ some d
    → handle_all later (interrupt m.req_id d) ≡ some d'
    → All (IsOther m.req_id) later
    → read m d' ≡ none
unfolding read interrupt
late-read es later m d d' before after other =
    let id = m.req_id in
    let (t, h) =
      matched (handle_all es new_dispatcher) (steps es empty) d (handle_all-steps es) before in
    let t' : Table = record t { waiting = λ j. if id == j then none else t.waiting j } in
    let same : id == id ≡ true = ground arith in
    let agrees = handle_all-Agrees later (interrupt id d) t' (record {
      same = λ j. erase-Matches id d t j h;
      distinct = erase-Distinct id d.requests h.distinct;
      next = h.next;
      values = h.values;
    }) in
    let forgot = steps-Forgot id later t' other (rw same refl) in
    let gone =
      unwaited id (handle_all later (interrupt id d)) (steps later t') d' agrees forgot after in
    rw (gone, read) refl
