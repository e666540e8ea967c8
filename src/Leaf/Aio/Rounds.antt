-- ===== src/Leaf/Aio/Rounds.antt =====
-- An I/O at a time: what a submission and a completion make of a system at rest.
use thrift_bench.Prelude.{
  ℕ, ◌+◌, ◌≤◌, ◌≡◌, refl, ap, ◌∙◌, inl, inr, Bool, true, false, List, [], ◌∷◌, ◌++◌, ◌==◌,
  if◌then◌else◌, Bool-cases, arith,
}
use thrift_bench.Leaf.Aio.{Io, Event, aim, io_result}
use thrift_bench.Leaf.Aio.Inflight.{count, is}
use thrift_bench.Leaf.Aio.System.{
  System, Without, push, enter, accept, refuse, finish, read, fetch, complete, Reach, later,
}
use thrift_bench.Leaf.Aio.Invariant.{users, complete_one_lem, Reach-Inv}

-- Nothing is between a thread, the kernel and the event handler.
pub record Quiet (s : System) : Type 0 where
  pub entered : s.entered ≡ []
  pub events : s.events ≡ []
  pub batch : s.batch ≡ []
  pub wanted : s.wanted ≡ 0
  pub signals : s.signals ≡ 0

remove : ℕ → List ℕ → List ℕ
remove p [] = []
remove p (x ∷ xs) = if x == p then xs else x ∷ remove p xs

remove-Without : (p : ℕ) (xs : List ℕ) → 1 ≤ count p xs → Without p xs (remove p xs)
unfolding remove
remove-Without p [] h q = absurd (omega arith)
remove-Without p (x ∷ xs) h q = elim (Bool-cases (x == p)) [
  | inl here ↦ let e : x ≡ p = ground (arith, here) in rw here (omega (arith, ap (λ y. is q y) e))
  | inr there ↦ rw there (omega (arith, remove-Without p xs (ground (arith, there)) q))
]

module _ (eventfd : ℕ) (heap : ℕ → Io) where
  -- A submission: the I/O runs, or is refused for ever.
  pub record Submitted (io : Io) (taken : Bool) (s : System) : Type 0 where
    pub after : System
    pub reach : Reach eventfd heap after
    pub quiet : Quiet after
    pub running :
        (q : ℕ) → count q after.running ≡ count q s.running + (if taken then is q io.address else 0)
    pub refused :
        (q : ℕ) → count q after.refused ≡ count q s.refused + (if taken then 0 else is q io.address)
    pub holds : after.heap io.address ≡ aim s.eventfd io
    pub others : (q : ℕ) → io.address == q ≡ false → after.heap q ≡ s.heap q
    pub same_eventfd : after.eventfd ≡ s.eventfd
    pub same_done : after.done ≡ s.done
    pub pushed : (q : ℕ) → count q after.pushed ≡ count q s.pushed + is q io.address

  enter-Reach :
      (io : Io) (s : System)
      → Reach eventfd heap s
      → Quiet s
      → io.fulfilled ≡ false
      → count io.address s.running + count io.address s.refused ≡ 0
      → Reach eventfd heap (push io s)
  enter-Reach io s r z free new =
      let v = Reach-Inv r in
      let a = io.address in
      later r (
        enter io free (
          omega (
            arith,
            v.owned a,
            new,
            ap (count a) z.entered,
            ap (λ es. count a (users es)) z.events,
            ap (λ es. count a (users es)) z.batch,
          )))

  pub submit-Submitted :
      (io : Io) (taken : Bool) (s : System)
      → Reach eventfd heap s
      → Quiet s
      → io.fulfilled ≡ false
      → count io.address s.running + count io.address s.refused ≡ 0
      → Submitted io taken s
  unfolding push
  submit-Submitted io true s r z free new =
      let self : io.address == io.address ≡ true = ground arith in
      record {
        after = record (push io s) { entered = s.entered; running = io.address ∷ s.running };
        reach =
            later (enter-Reach io s r z free new) (accept io.address s.entered (λ q. omega arith));
        quiet = record {
          entered = z.entered;
          events = z.events;
          batch = z.batch;
          wanted = z.wanted;
          signals = z.signals;
        };
        running = λ q. omega arith;
        refused = λ q. omega arith;
        holds = rw self refl;
        others = λ q e. rw e refl;
        same_eventfd = refl;
        same_done = refl;
        pushed = λ q. omega arith;
      }
  submit-Submitted io false s r z free new =
      let self : io.address == io.address ≡ true = ground arith in
      record {
        after = record (push io s) { entered = s.entered; refused = io.address ∷ s.refused };
        reach =
            later (enter-Reach io s r z free new) (refuse io.address s.entered (λ q. omega arith));
        quiet = record {
          entered = z.entered;
          events = z.events;
          batch = z.batch;
          wanted = z.wanted;
          signals = z.signals;
        };
        running = λ q. omega arith;
        refused = λ q. omega arith;
        holds = rw self refl;
        others = λ q e. rw e refl;
        same_eventfd = refl;
        same_done = refl;
        pushed = λ q. omega arith;
      }

  -- A completion, from the kernel to the promise.
  pub record Completed (e : Event) (s : System) : Type 0 where
    pub after : System
    pub reach : Reach eventfd heap after
    pub quiet : Quiet after
    pub running : (q : ℕ) → count q after.running + is q e.user ≡ count q s.running
    pub same_refused : after.refused ≡ s.refused
    pub others : (q : ℕ) → e.user == q ≡ false → after.heap q ≡ s.heap q
    pub same_eventfd : after.eventfd ≡ s.eventfd
    pub same_pushed : after.pushed ≡ s.pushed
    pub done : after.done ≡ (e.user, io_result e) ∷ s.done

  pub complete-Completed :
      (e : Event) (s : System)
      → Reach eventfd heap s
      → Quiet s
      → 1 ≤ count e.user s.running
      → Completed e s
  complete-Completed e s r z here =
      let rest = remove e.user s.running in
      let w = remove-Without e.user s.running here in
      let s1 : System = record s {
        running = rest;
        events = s.events ++ e ∷ [];
        signals = s.signals + 1;
      } in
      let r1 : Reach eventfd heap s1 = later r (finish e rest w) in
      let s2 : System = record s1 { wanted = s1.signals; signals = 0 } in
      let r2 : Reach eventfd heap s2 = later r1 (read (omega arith) z.wanted z.batch) in
      let s3 : System = record s2 { events = []; wanted = 0; batch = e ∷ [] } in
      let r3 : Reach eventfd heap s3 = later r2 (
        fetch (e ∷ []) [] (omega arith) (omega (arith, z.signals))
          (ap (λ es. es ++ e ∷ []) z.events)) in
      let (t, ys, io, ok, shape, c, res, ful) = complete_one_lem e [] s3 (Reach-Inv r3) refl in
      record {
        after = t;
        reach = later r3 (complete e [] refl ok);
        quiet = record {
          entered = ap (λ k. k.entered) shape ∙ z.entered;
          events = ap (λ k. k.events) shape;
          batch = ap (λ k. k.batch) shape;
          wanted = ap (λ k. k.wanted) shape;
          signals = ap (λ k. k.signals) shape;
        };
        running = λ q. ap (λ k. count q k.running + is q e.user) shape ∙ w q;
        same_refused = ap (λ k. k.refused) shape;
        others = λ q other. ap (λ k. k.heap q) shape ∙ rw other refl;
        same_eventfd = ap (λ k. k.eventfd) shape;
        same_pushed = ap (λ k. k.pushed) shape;
        done = ap (λ k. k.done) shape;
      }
