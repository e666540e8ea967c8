-- ===== src/Leaf/Aio/Invariant.antt =====
-- What every step of the system keeps.
use thrift_bench.Prelude.{
  ℕ, ◌+◌, ◌≤◌, ◌<◌, ◌≡◌, ◌⊎◌, refl, sym, ap, ◌∙◌, inl, inr, true, false, some, List, [], ◌∷◌, ◌++◌,
  ◌==◌, length, length-append, arith, Bool-cases,
}
use mathlib.Core.Option.{some-injective}
use mathlib.Core.Path.{subst}
use thrift_bench.Leaf.Aio.{Io, Event, aim, set_result, complete_promise, io_result}
use thrift_bench.Leaf.Aio.Inflight.{count, is, take_out_lem}
use thrift_bench.Leaf.Aio.System.{
  System, put, init, push, complete_one, Step, enter, accept, refuse, finish, read, fetch, complete,
  Reach, start, later,
}

abbrev pub users : List Event → List ℕ
users [] = []
users (e ∷ es) = e.user ∷ users es

abbrev pub addresses : List (ℕ × ℕ) → List ℕ
addresses [] = []
addresses ((p, r) ∷ ps) = p ∷ addresses ps

pub count-append : (q : ℕ) (xs ys : List ℕ) → count q (xs ++ ys) ≡ count q xs + count q ys
count-append q [] ys = omega arith
count-append q (x ∷ xs) ys = omega (arith, count-append q xs ys)

pub users-append :
    (q : ℕ) (xs ys : List Event)
    → count q (users (xs ++ ys)) ≡ count q (users xs) + count q (users ys)
users-append q [] ys = omega arith
users-append q (x ∷ xs) ys = omega (arith, users-append q xs ys)

-- `owned`: what is in flight is in exactly one place on its way. `balance`: what was pushed is in
-- flight or done. `once`: no address is in flight twice. `live`: an I/O in flight is unfulfilled.
-- `signalled`: the counter tells how many events there are to fetch.
pub record Inv (s : System) : Type 0 where
  pub owned :
      (q : ℕ)
      → count q s.inflight
        ≡ count q s.entered
          + count q s.running
          + count q s.refused
          + count q (users s.events)
          + count q (users s.batch)
  pub balance : (q : ℕ) → count q s.pushed ≡ count q s.inflight + count q (addresses s.done)
  pub once : (q : ℕ) → count q s.inflight ≤ 1
  pub live :
      (q : ℕ) → 1 ≤ count q s.inflight → ((s.heap q).fulfilled ≡ false) × ((s.heap q).address ≡ q)
  pub signalled : s.signals + s.wanted ≡ length s.events
  pub turn : (s.wanted ≡ 0) ⊎ (s.batch ≡ [])

pub init-Inv : (eventfd : ℕ) (heap : ℕ → Io) → Inv (init eventfd heap)
init-Inv eventfd heap = record {
  owned = λ q. refl;
  balance = λ q. refl;
  once = λ q. omega arith;
  live = λ q (h : 1 ≤ 0). absurd (omega arith);
  signalled = refl;
  turn = inl refl;
}

pub batch_empty : (s : System) → Inv s → 0 < s.wanted → s.batch ≡ []
batch_empty s v h = elim v.turn [ inl e ↦ absurd (omega arith) | inr e ↦ e ]

-- An event at hand is completed: no assertion fails.
pub complete_one_lem :
    (e : Event) (rest : List Event) (s : System)
    → Inv s
    → s.batch ≡ e ∷ rest
    → (t : System) × (ys : List ℕ) × (io : Io) × (complete_one e rest s ≡ some t)
      × (t ≡ record s {
        heap = put s.heap e.user io;
        inflight = ys;
        batch = rest;
        done = (e.user, io_result e) ∷ s.done;
      })
      × ((q : ℕ) → count q ys + is q e.user ≡ count q s.inflight)
      × (io.result ≡ some (io_result e))
      × (io.fulfilled ≡ true)
unfolding complete_one set_result complete_promise
complete_one_lem e rest s v b =
    let same : is e.user e.user ≡ 1 = ground arith in
    let head : count e.user (users s.batch) ≡ is e.user e.user + count e.user (users rest) =
      ap (λ es. count e.user (users es)) b in
    let here : 1 ≤ count e.user s.inflight = omega (arith, v.owned e.user) in
    let (ys, out, c) = take_out_lem e.user s.inflight here in
    let (open_, name) = v.live e.user here in
    let named : (s.heap e.user).address == e.user ≡ true = ground arith in
    (
      _,
      ys,
      record (s.heap e.user) { result = some (io_result e); fulfilled = true },
      rw (out, open_, named) refl,
      refl,
      c,
      refl,
      refl,
    )

pub push-Inv :
    (io : Io) (s : System)
    → Inv s
    → io.fulfilled ≡ false
    → count io.address s.inflight ≡ 0
    → Inv (push io s)
unfolding push aim
push-Inv io s v free new = record {
  owned = λ q. omega (arith, v.owned q, count-append q s.inflight (io.address ∷ []));
  balance = λ q. omega (arith, v.balance q, count-append q s.inflight (io.address ∷ []));
  once = λ q. elim (Bool-cases (q == io.address)) [
    | inl e ↦ ground (arith, count-append q s.inflight (io.address ∷ []), new)
    | inr n ↦ ground (arith, count-append q s.inflight (io.address ∷ []), v.once q)
  ];
  live = λ q h. elim (Bool-cases (io.address == q)) [
    | inl e ↦ rw e (free, ground arith)
    | inr n ↦
        let before : 1 ≤ count q s.inflight =
          ground (arith, count-append q s.inflight (io.address ∷ [])) in
        rw n (v.live q before)
  ];
  signalled = v.signalled;
  turn = v.turn;
}

pub complete_one-Inv :
    (e : Event) (rest : List Event) (s t : System)
    → Inv s
    → s.batch ≡ e ∷ rest
    → complete_one e rest s ≡ some t
    → Inv t
complete_one-Inv e rest s t v b done =
    let (t', ys, io, ok, shape, c, res, ful) = complete_one_lem e rest s v b in
    let p = some-injective t t' (sym done ∙ ok) ∙ shape in
    let head : (q : ℕ) → count q (users s.batch) ≡ is q e.user + count q (users rest) =
      λ q. ap (λ es. count q (users es)) b in
    subst Inv (sym p) (record {
      owned = λ q. omega (arith, v.owned q, c q, head q);
      balance = λ q. omega (arith, v.balance q, c q);
      once = λ q. omega (arith, v.once q, c q);
      live = λ q h. elim (Bool-cases (e.user == q)) [
        | inl same ↦ absurd (ground (arith, v.once q, c q))
        | inr other ↦ rw other (v.live q (omega (arith, c q)))
      ];
      signalled = v.signalled;
      turn = elim v.turn [ inl idle ↦ inl idle | inr empty ↦ absurd (ground (arith, b, empty)) ];
    })

pub Step-Inv : {s t : System} → Step s t → Inv s → Inv t
Step-Inv {s} (enter io free new) v = push-Inv io s v free new
Step-Inv {s} (accept p rest w) v = record {
  owned = λ q. omega (arith, v.owned q, w q);
  balance = v.balance;
  once = v.once;
  live = v.live;
  signalled = v.signalled;
  turn = v.turn;
}
Step-Inv {s} (refuse p rest w) v = record {
  owned = λ q. omega (arith, v.owned q, w q);
  balance = v.balance;
  once = v.once;
  live = v.live;
  signalled = v.signalled;
  turn = v.turn;
}
Step-Inv {s} (finish e rest w) v = record {
  owned = λ q. omega (arith, v.owned q, w q, users-append q s.events (e ∷ []));
  balance = v.balance;
  once = v.once;
  live = v.live;
  signalled = omega (arith, v.signalled, length-append s.events (e ∷ []));
  turn = v.turn;
}
Step-Inv {s} (read some_ idle empty) v = record {
  owned = v.owned;
  balance = v.balance;
  once = v.once;
  live = v.live;
  signalled = omega (arith, v.signalled, idle);
  turn = inr empty;
}
Step-Inv {s} (fetch es rest waiting n split) v = record {
  owned = λ q. omega (
    arith,
    v.owned q,
    ap (λ b. count q (users b)) (batch_empty s v waiting),
    ap (λ b. count q (users b)) split,
    users-append q es rest,
  );
  balance = v.balance;
  once = v.once;
  live = v.live;
  signalled = omega (arith, v.signalled, ap length split, length-append es rest);
  turn = inl refl;
}
Step-Inv {s} (complete e rest {t} b done) v = complete_one-Inv e rest s t v b done

pub Reach-Inv : {eventfd : ℕ} {heap : ℕ → Io} {s : System} → Reach eventfd heap s → Inv s
Reach-Inv {eventfd} {heap} start = init-Inv eventfd heap
Reach-Inv (later r st) = Step-Inv st (Reach-Inv r)
