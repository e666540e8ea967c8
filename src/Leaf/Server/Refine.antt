-- ===== src/Leaf/Server/Refine.antt =====
-- The leaf server over `AsyncIO`: what its requests and completed I/Os are in the system of Leaf/Aio.
pub mod Moves
pub mod Runs
use mathlib.Core.Option.{some-injective, none-ne-some}
use mathlib.Core.Path.{subst}
use thrift_bench.Prelude.{
  ℕ, zero, suc, ◌+◌, ◌≤◌, ◌≡◌, refl, sym, ap, ◌∙◌, inl, inr, Bool, true, false, Option, none, some,
  List, [], ◌∷◌, ◌++◌, ◌>>=◌, length, ◌==◌, if◌then◌else◌, All, All-append, arith, Bool-cases,
}
use thrift_bench.Leaf.Aio.{Io, IoType, Event as AioEvent, aim, new_io}
use thrift_bench.Leaf.Aio.Inflight.{count, is}
use thrift_bench.Leaf.Aio.Invariant.{users, Reach-Inv}
use thrift_bench.Leaf.Aio.System.{System, init, Reach, start}
use thrift_bench.Leaf.Aio.Rounds.{Quiet, submit-Submitted, complete-Completed}
use thrift_bench.Leaf.Server.{
  Os, Callback, Continuation, after_write, after_read, Pending, Job, Task, LeafHandler, new_handler,
  filename_to_path, init_asyncio, int_of, opened, close_fd, write_flags, read_flags, submit,
  async_tm_write, async_tm_read,
}
use thrift_bench.Leaf.Server.Steps.{
  pick_at, continue, complete, work, run_task, Event, asks_write, asks_read, completes, works, runs,
  handle, handle_all,
}
use thrift_bench.Leaf.Server.Places.{weigh, weigh-append, Picks, pick_at-Picks}
use thrift_bench.Leaf.Server.Requests.{IsAble}
use thrift_bench.Leaf.Server.Invariant.{handle_all-Keeps}
use thrift_bench.Leaf.Server.Descriptors.{new_handler-Inv}

-- How often an address is that of an I/O.
abbrev pub at : ℕ → List Pending → ℕ
at a ps = weigh (λ (p : Pending). is a p.io.address) ps

-- How many of the answers of I/Os are at the handler: jobs, tasks and replies.
abbrev pub handed : LeafHandler → ℕ
handed h = length h.pool + (length h.queue + length h.results)

-- How often an I/O with this address is asked for.
abbrev pub asks : ℕ → Event → ℕ
asks q (asks_write address cb filename contents) = is q address
asks q (asks_read address ios stale cb filename size) = is q address
asks q (completes k ioe bytes) = 0
asks q (works k cs ce) = 0
asks q (runs k) = 0

abbrev pub all_asks : ℕ → List Event → ℕ
all_asks q es = weigh (asks q) es

abbrev pub Block : ℕ → System → Pending → Type 0
Block eventfd s p = s.heap p.io.address ≡ aim eventfd p.io

-- A new I/O has an address that no I/O has which runs or was refused, since those are not freed.
abbrev pub IsFresh : Event → LeafHandler → Type 0
IsFresh (asks_write address cb filename contents) h =
    at address h.running + at address h.refused ≡ 0
IsFresh (asks_read address ios stale cb filename size) h =
    at address h.running + at address h.refused ≡ 0
IsFresh (completes k ioe bytes) h = Unit
IsFresh (works k cs ce) h = Unit
IsFresh (runs k) h = Unit

abbrev pub Then : Option LeafHandler → (LeafHandler → Type 0) → Type 0
Then none P = Unit
Then (some h) P = P h

unfoldable pub AreFresh : Os → List Event → LeafHandler → Type 0
unfolding handle
AreFresh os [] h = Unit
AreFresh os (e ∷ es) h = IsFresh e h × Then (handle os e h) (λ h'. AreFresh os es h')

pub then-bind {ℓ} :
    {A : Type ℓ} (o : Option A) (f : A → Option LeafHandler) (P : LeafHandler → Type 0)
    → ((a : A) → o ≡ some a → Then (f a) P)
    → Then (o >>= f) P
then-bind none f P k = tt
then-bind (some a) f P k = k a refl

pub new_io-fields :
    (memalign : ℕ → Option ℕ) (address fd size offset : ℕ) (type : IoType) (io : Io)
    → new_io memalign address fd size offset type ≡ some io
    → (io.address ≡ address) × (io.fulfilled ≡ false)
unfolding new_io
new_io-fields memalign address fd size offset type io e =
    fields (memalign size) _ (λ b. refl) (λ b. refl) e
  where
    fields :
        (o : Option ℕ) (f : ℕ → Io)
        → ((b : ℕ) → (f b).address ≡ address)
        → ((b : ℕ) → (f b).fulfilled ≡ false)
        → (o >>= λ b. some (f b)) ≡ some io
        → (io.address ≡ address) × (io.fulfilled ≡ false)
    fields none f a u e = absurd (none-ne-some io e)
    fields (some b) f a u e =
        let same = some-injective (f b) io e in
        (ap (λ (i : Io). i.address) (sym same) ∙ a b, ap (λ (i : Io). i.fulfilled) (sym same) ∙ u b)

pub is_self : (a : ℕ) → is a a ≡ 1
is_self a = ground arith

-- A write elsewhere on the heap leaves the blocks.
pub blocks_other :
    (eventfd a : ℕ) (s s' : System) (ps : List Pending)
    → at a ps ≡ 0
    → ((q : ℕ) → a == q ≡ false → s'.heap q ≡ s.heap q)
    → All (Block eventfd s) ps
    → All (Block eventfd s') ps
blocks_other eventfd a s s' [] new others h = tt
blocks_other eventfd a s s' (p ∷ ps) new others h =
    let other : a == p.io.address ≡ false = ground (arith, new) in
    (
      others p.io.address other ∙ h.0,
      blocks_other eventfd a s s' ps (omega (arith, new)) others h.1,
    )

module _ (eventfd : ℕ) (heap : ℕ → Io) where
  -- The system has the I/Os of the handler: those that run, each with its control block, and those
  -- that were refused. So many were pushed with an address, and `n` are done.
  pub record Sim (pushes : ℕ → ℕ) (n : ℕ) (h : LeafHandler) : Type 0 where
    pub system : System
    pub reach : Reach eventfd heap system
    pub quiet : Quiet system
    pub running : (q : ℕ) → count q system.running ≡ at q h.running
    pub refused : (q : ℕ) → count q system.refused ≡ at q h.refused
    pub blocks : All (Block eventfd system) h.running
    pub same_eventfd : system.eventfd ≡ eventfd
    pub pushed : (q : ℕ) → count q system.pushed ≡ pushes q
    pub dones : length system.done ≡ n

  pub submit-Sim :
      (os : Os) (p : Pending) (h : LeafHandler) (pushes : ℕ → ℕ) (n address : ℕ)
      → p.io.fulfilled ≡ false
      → p.io.address ≡ address
      → at p.io.address h.running + at p.io.address h.refused ≡ 0
      → Sim pushes n h
      → Sim (λ q. pushes q + is q address) n (submit os p h)
  unfolding submit
  submit-Sim os p h pushes n address free named new m =
      let a = p.io.address in
      let absent : count a m.system.running + count a m.system.refused ≡ 0 =
        omega (arith, m.running a, m.refused a, new) in
      elim (Bool-cases (os.accepts (length h.running) p.fd)) [
        | inl taken ↦
            let s = submit-Submitted eventfd heap p.io true m.system m.reach m.quiet free absent in
            rw taken (record {
              system = s.after;
              reach = s.reach;
              quiet = s.quiet;
              running = λ q. omega (
                arith,
                s.running q,
                m.running q,
                weigh-append (λ (i : Pending). is q i.io.address) h.running (p ∷ []),
              );
              refused = λ q. omega (arith, s.refused q, m.refused q);
              blocks =
                  All-append (Block eventfd s.after) h.running (p ∷ [])
                    (blocks_other eventfd a m.system s.after h.running (omega arith) s.others
                      m.blocks)
                    (s.holds ∙ ap (λ n. aim n p.io) m.same_eventfd, tt);
              same_eventfd = s.same_eventfd ∙ m.same_eventfd;
              pushed = λ q. omega (arith, s.pushed q, m.pushed q, ap (is q) named);
              dones = ap length s.same_done ∙ m.dones;
            })
        | inr turned ↦
            let s = submit-Submitted eventfd heap p.io false m.system m.reach m.quiet free absent in
            rw turned (record {
              system = s.after;
              reach = s.reach;
              quiet = s.quiet;
              running = λ q. omega (arith, s.running q, m.running q);
              refused = λ q. omega (
                arith,
                s.refused q,
                m.refused q,
                weigh-append (λ (i : Pending). is q i.io.address) h.refused (p ∷ []),
              );
              blocks =
                  blocks_other eventfd a m.system s.after h.running (omega arith) s.others m.blocks;
              same_eventfd = s.same_eventfd ∙ m.same_eventfd;
              pushed = λ q. omega (arith, s.pushed q, m.pushed q, ap (is q) named);
              dones = ap length s.same_done ∙ m.dones;
            })
      ]

  pub same-Sim :
      (h h' : LeafHandler) (pushes pushes' : ℕ → ℕ) (n n' : ℕ)
      → h'.running ≡ h.running
      → h'.refused ≡ h.refused
      → ((q : ℕ) → pushes' q ≡ pushes q)
      → n' ≡ n
      → Sim pushes n h
      → Sim pushes' n' h'
  same-Sim h h' pushes pushes' n n' r f k e m = record {
    system = m.system;
    reach = m.reach;
    quiet = m.quiet;
    running = λ q. m.running q ∙ sym (ap (at q) r);
    refused = λ q. m.refused q ∙ sym (ap (at q) f);
    blocks = subst (All (Block eventfd m.system)) (sym r) m.blocks;
    same_eventfd = m.same_eventfd;
    pushed = λ q. m.pushed q ∙ sym (k q);
    dones = m.dones ∙ sym e;
  }

pub handed-submit : (os : Os) (p : Pending) (h : LeafHandler) → handed (submit os p h) ≡ handed h
unfolding submit
handed-submit os p h = elim (Bool-cases (os.accepts (length h.running) p.fd)) [
  | inl taken ↦ rw taken refl
  | inr turned ↦ rw turned refl
]

pub length-weigh {ℓ} : {A : Type ℓ} (xs : List A) → weigh (λ x. 1) xs ≡ length xs
length-weigh [] = refl
length-weigh (x ∷ xs) = omega (arith, length-weigh xs)
