-- ===== src/Wangle/Dispatcher/Refine.antt =====
-- The dispatcher against a table: each identifier has a call that waits for it, or none.
use thrift_bench.Prelude.{
  ℕ, ◌+◌, ◌≡◌, refl, sym, ap, ◌∙◌, inl, inr, Option, none, some, List, [], ◌∷◌, ◌++◌, ◌>>=◌, lookup,
  insert, erase, lookup-insert, lookup-erase, Distinct, insert-Distinct, erase-Distinct, ◌==◌,
  if◌then◌else◌, Option-cases,
}
use thrift_bench.Wangle.Codec.{Message}
use thrift_bench.Wangle.Dispatcher.{
  Dispatcher, new_dispatcher, call_with, call, read, interrupt, Event, calls, reads, expires,
  handle, handle_all,
}

pub record Table : Type 0 where
  pub waiting : ℕ → Option ℕ
  pub next : ℕ
  pub values : List (ℕ × Message)

abbrev at : (ℕ → Option ℕ) → ℕ → Option ℕ → ℕ → Option ℕ
at f id w j = if id == j then w else f j

abbrev pub admit : Option ℕ → Message → Table → Option Table
admit (some p) m t = none
admit none m t =
    some (record t { waiting = at t.waiting m.req_id (some t.next); next = t.next + 1 })

-- A call wants that nothing waits for its identifier, a response that something does; a timeout
-- forgets what waits.
abbrev pub step : Event → Table → Option Table
step (calls m) t = admit (t.waiting m.req_id) m t
step (reads m) t = t.waiting m.req_id >>= λ p.
    some (record t { waiting = at t.waiting m.req_id none; values = t.values ++ (p, m) ∷ [] })
step (expires id) t = some (record t { waiting = at t.waiting id none })

abbrev pub steps : List Event → Table → Option Table
steps [] t = some t
steps (e ∷ es) t = step e t >>= λ t'. steps es t'

abbrev pub empty : Table
empty = record { waiting = λ id. none; next = 0; values = [] }

pub record Matches (d : Dispatcher) (t : Table) : Type 0 where
  pub same : (id : ℕ) → lookup id d.requests ≡ t.waiting id
  pub distinct : Distinct d.requests
  pub next : d.next ≡ t.next
  pub values : d.values ≡ t.values

-- Both have failed, or both go on and match.
abbrev pub Agrees : Option Dispatcher → Option Table → Type 0
Agrees none none = Unit
Agrees none (some t) = ⊥
Agrees (some d) none = ⊥
Agrees (some d) (some t) = Matches d t

agree_none : (o : Option Dispatcher) (p : Option Table) → o ≡ none → p ≡ none → Agrees o p
agree_none o p e f = rw e (rw f tt)

agree_some :
    (o : Option Dispatcher) (p : Option Table) (d : Dispatcher) (t : Table)
    → o ≡ some d
    → p ≡ some t
    → Matches d t
    → Agrees o p
agree_some o p d t e f h = rw e (rw f h)

insert-Matches :
    (m : Message) (d : Dispatcher) (t : Table) (j : ℕ)
    → Matches d t
    → lookup j (insert m.req_id d.next d.requests)
      ≡ (if m.req_id == j then some t.next else t.waiting j)
insert-Matches m d t j h = lookup-insert m.req_id j d.next d.requests ∙ λ i.
    if m.req_id == j then some (h.next i) else h.same j i

pub erase-Matches :
    (id : ℕ) (d : Dispatcher) (t : Table) (j : ℕ)
    → Matches d t
    → lookup j (erase id d.requests) ≡ (if id == j then none else t.waiting j)
erase-Matches id d t j h =
    lookup-erase id j d.requests h.distinct ∙ λ i. if id == j then none else h.same j i

call-Agrees :
    (m : Message) (d : Dispatcher) (t : Table) → Matches d t → Agrees (call m d) (step (calls m) t)
unfolding call call_with
call-Agrees m d t h = elim (Option-cases (lookup m.req_id d.requests)) [
  | inl e ↦
      agree_some (call m d) (step (calls m) t)
        (record d {
          requests = insert m.req_id d.next d.requests;
          next = d.next + 1;
          sent = d.sent ++ m ∷ [];
        })
        (record t { waiting = at t.waiting m.req_id (some t.next); next = t.next + 1 })
        (ap (λ w. call_with w m d) e) (ap (λ w. admit w m t) (sym (h.same m.req_id) ∙ e))
        (record {
          same = λ j. insert-Matches m d t j h;
          distinct = insert-Distinct m.req_id d.next d.requests h.distinct;
          next = ap (λ n. n + 1) h.next;
          values = h.values;
        })
  | inr (p, e) ↦
      agree_none (call m d) (step (calls m) t) (ap (λ w. call_with w m d) e)
        (ap (λ w. admit w m t) (sym (h.same m.req_id) ∙ e))
]

read-Agrees :
    (m : Message) (d : Dispatcher) (t : Table) → Matches d t → Agrees (read m d) (step (reads m) t)
unfolding read
read-Agrees m d t h = elim (Option-cases (lookup m.req_id d.requests)) [
  | inl e ↦
      let f : t.waiting m.req_id ≡ none = sym (h.same m.req_id) ∙ e in
      agree_none (read m d) (step (reads m) t) (rw (e, read) refl) (simp f refl)
  | inr (p, e) ↦
      let f : t.waiting m.req_id ≡ some p = sym (h.same m.req_id) ∙ e in
      agree_some (read m d) (step (reads m) t)
        (record d { requests = erase m.req_id d.requests; values = d.values ++ (p, m) ∷ [] })
        (record t { waiting = at t.waiting m.req_id none; values = t.values ++ (p, m) ∷ [] })
        (rw (e, read) refl) (simp f refl)
        (record {
          same = λ j. erase-Matches m.req_id d t j h;
          distinct = erase-Distinct m.req_id d.requests h.distinct;
          next = h.next;
          values = ap (λ vs. vs ++ (p, m) ∷ []) h.values;
        })
]

handle-Agrees :
    (e : Event) (d : Dispatcher) (t : Table) → Matches d t → Agrees (handle e d) (step e t)
unfolding handle interrupt
handle-Agrees (calls m) d t h = call-Agrees m d t h
handle-Agrees (reads m) d t h = read-Agrees m d t h
handle-Agrees (expires id) d t h = record {
  same = λ j. erase-Matches id d t j h;
  distinct = erase-Distinct id d.requests h.distinct;
  next = h.next;
  values = h.values;
}

-- What comes after both agrees, if what comes after matching states does.
then-Agrees :
    (o : Option Dispatcher) (p : Option Table) (es : List Event)
    → Agrees o p
    → ((d : Dispatcher) (t : Table) → Matches d t → Agrees (handle_all es d) (steps es t))
    → Agrees (o >>= λ d'. handle_all es d') (p >>= λ t'. steps es t')
then-Agrees none none es a k = tt
then-Agrees none (some t) es a k = absurd a
then-Agrees (some d) none es a k = absurd a
then-Agrees (some d) (some t) es a k = k d t a

pub handle_all-Agrees :
    (es : List Event) (d : Dispatcher) (t : Table)
    → Matches d t
    → Agrees (handle_all es d) (steps es t)
unfolding handle_all
handle_all-Agrees [] d t h = h
handle_all-Agrees (e ∷ es) d t h =
    then-Agrees (handle e d) (step e t) es (handle-Agrees e d t h) (handle_all-Agrees es)

-- After any calls, responses and timeouts, from a new dispatcher: it has failed, by an exception of
-- `getFuture` or by `CHECK`, just if a call's identifier was waited for or a response's was not;
-- otherwise its map says of each identifier which call waits for it, and its promises have got the
-- values of the responses, each in the promise of the call that waited.
pub handle_all-steps : (es : List Event) → Agrees (handle_all es new_dispatcher) (steps es empty)
unfolding new_dispatcher lookup
handle_all-steps es =
    handle_all-Agrees es new_dispatcher empty
      (record { same = λ id. refl; distinct = tt; next = refl; values = refl })
