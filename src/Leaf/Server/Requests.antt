-- ===== src/Leaf/Server/Requests.antt =====
-- What a request keeps: which descriptors are open, and where the callbacks are.
use thrift_bench.Prelude.{
  ℕ, ◌+◌, ◌≤◌, ◌≡◌, refl, sym, ap, ◌∙◌, inl, inr, Option, none, some, List, [], ◌∷◌, ◌>>=◌, length,
  ◌==◌, arith, All, All-append, Bool-cases, Option-cases,
}
use mathlib.Core.Bool.{true≢false}
use mathlib.Core.Option.{none-ne-some}
use thrift_bench.Prelude.Bags.{hit, Pair, occurs}
use thrift_bench.Leaf.Aio.{Io, IoType, new_io}
use thrift_bench.Leaf.Aio.Inflight.{count}
use thrift_bench.Leaf.Server.{
  Os, Flags, Callback, Continuation, after_write, after_read, Pending, Task, done, result, Reply,
  LeafHandler, filename_to_path, init_asyncio, int_of, opened, write_flags, read_flags, submit,
  async_tm_write, async_tm_read,
}
use thrift_bench.Leaf.Server.Places.{weigh, weigh-append, has}

abbrev pub HasFd : Pending → Type 0
HasFd p = (fd : ℕ) × (p.fd ≡ some fd)

-- The descriptors that are open are those of the I/Os that run, and of those that were refused.
pub record Inv (h : LeafHandler) : Type 0 where
  pub held :
      (q : ℕ)
      → count q h.fds ≡ weigh (λ p. has q p.fd) h.running + weigh (λ p. has q p.fd) h.refused
  pub once : (q : ℕ) → count q h.fds ≤ 1
  pub valid : All HasFd h.running

abbrev pub pair : Callback → Pair
pair cb = (cb.id, cb.base)

abbrev pub pair_of : Continuation → Pair
pair_of (after_write cb) = pair cb
pair_of (after_read cb size ios) = pair cb

abbrev pub task_pair : Task → Pair
task_pair (done cb) = pair cb
task_pair (result cb buffer size iol cl) = pair cb

abbrev pub total : Pair → LeafHandler → ℕ
total p h =
    weigh (λ i. hit p (pair_of i.continuation)) h.running
    + weigh (λ i. hit p (pair_of i.continuation)) h.refused
    + weigh (λ j. hit p (pair j.cb)) h.pool
    + weigh (λ t. hit p (task_pair t)) h.queue
    + weigh (λ (r : Callback × Reply). hit p (pair r.0)) h.results

-- The handler with one more I/O to submit, whose descriptor has been opened.
record Ready (p : Pending) (h : LeafHandler) : Type 0 where
  pub held :
      (q : ℕ)
      → count q h.fds
        ≡ weigh (λ p. has q p.fd) h.running + weigh (λ p. has q p.fd) h.refused + has q p.fd
  pub once : (q : ℕ) → count q h.fds ≤ 1
  pub valid : All HasFd h.running

-- A step that succeeds and takes in these callbacks.
pub record Keeps (new : List Pair) (h : LeafHandler) (o : Option LeafHandler) : Type 0 where
  pub after : LeafHandler
  pub returns : o ≡ some after
  pub inv : Inv after
  pub moves : (p : Pair) → total p after ≡ total p h + occurs p new

submit-Inv :
    (os : Os) (p : Pending) (h : LeafHandler)
    → Ready p h
    → Inv (submit os p h)
      × ((k : Pair) → total k (submit os p h) ≡ total k h + hit k (pair_of p.continuation))
unfolding submit
submit-Inv os p h v = elim (Bool-cases (os.accepts (length h.running) p.fd)) [
  | inl taken ↦
      let fd : HasFd p = elim (Option-cases p.fd) [
        | inl gone ↦ absurd (
            true≢false (
              sym taken
              ∙ ap (λ o. os.accepts (length h.running) o) gone
              ∙ os.accepts_valid (length h.running)))
        | inr there ↦ there
      ] in
      rw taken (
        record {
          held = λ q.
              omega
                (arith, v.held q, weigh-append (λ (p : Pending). has q p.fd) h.running (p ∷ []));
          once = v.once;
          valid = All-append HasFd h.running (p ∷ []) v.valid (fd, tt);
        },
        λ k. omega (
          arith,
          weigh-append (λ (i : Pending). hit k (pair_of i.continuation)) h.running (p ∷ []),
        ),
      )
  | inr refused ↦ rw refused (
    record {
      held = λ q.
          omega (arith, v.held q, weigh-append (λ (p : Pending). has q p.fd) h.refused (p ∷ []));
      once = v.once;
      valid = v.valid;
    },
    λ k.
        omega (
          arith,
          weigh-append (λ (i : Pending). hit k (pair_of i.continuation)) h.refused (p ∷ []),
        ),
  )
]

-- What the requests need of the system: memory, and a file to write.
pub record IsAble (os : Os) : Type 0 where
  pub allocates : (n : ℕ) → (a : ℕ) × (os.memalign n ≡ some a)
  pub opens : (fds path : List ℕ) → (fd : ℕ) × (os.open_at fds path write_flags ≡ some fd)

-- A descriptor that has just been opened.
count-fresh :
    (os : Os) (path fds : List ℕ) (flags : Flags) (fd q : ℕ)
    → os.open_at fds path flags ≡ some fd
    → count q fds ≤ 1
    → count q (fd ∷ fds) ≤ 1
count-fresh os path fds flags fd q e once =
    let new = os.open_fresh fds path flags fd e in
    elim (Bool-cases (fd == q)) [
      | inl same ↦
          let s : fd ≡ q = ground (arith, same) in
          rw same (omega (arith, new, ap (λ x. count x fds) s))
      | inr other ↦ rw other (omega (arith, once))
    ]

-- The I/O is made where there is memory.
pub new_io-made :
    (memalign : ℕ → Option ℕ) (address fd size offset : ℕ) (type : IoType) (bufp : ℕ)
    → memalign size ≡ some bufp
    → (io : Io) × (new_io memalign address fd size offset type ≡ some io)
unfolding new_io
new_io-made memalign address fd size offset type bufp e = made (memalign size) _ bufp e
  where
    made :
        (o : Option ℕ) (f : ℕ → Io) (b : ℕ)
        → o ≡ some b
        → (io : Io) × ((o >>= λ b. some (f b)) ≡ some io)
    made none f b e = absurd (none-ne-some b e)
    made (some a) f b e = (f a, refl)

submit-Keeps :
    (os : Os) (p : Pending) (h before : LeafHandler)
    → Ready p h
    → ((k : Pair) → total k h ≡ total k before)
    → Keeps (pair_of p.continuation ∷ []) before (some (submit os p h))
submit-Keeps os p h before ready same =
    let (inv, moves) = submit-Inv os p h ready in
    record {
      after = submit os p h;
      returns = refl;
      inv = inv;
      moves = λ k. omega (arith, moves k, same k);
    }

pub async_tm_write-Keeps :
    (os : Os) (able : IsAble os) (address : ℕ) (cb : Callback) (filename contents : List ℕ)
    (h : LeafHandler)
    → Inv h
    → Keeps (pair cb ∷ []) h (async_tm_write os address cb filename contents h)
unfolding async_tm_write
async_tm_write-Keeps os able address cb filename contents h v =
    let (fd, opens) = able.opens h.fds (filename_to_path h filename) in
    let (bufp, allocates) = able.allocates (length contents) in
    let (io, makes) =
      new_io-made os.memalign address fd (length contents) 0 IoType.write bufp allocates in
    rw (opens, makes)
      (submit-Keeps os
        (record { fd = some fd; io = io; buffer = contents; continuation = after_write cb })
        (record h { asyncio_base = init_asyncio cb h.asyncio_base; fds = fd ∷ h.fds }) h
        (record {
          held = λ q. omega (arith, v.held q);
          once = λ q.
              count-fresh os (filename_to_path h filename) h.fds write_flags fd q opens (v.once q);
          valid = v.valid;
        })
        (λ k. refl))

-- The descriptors with that of a read, if its file is there.
opened-Ready :
    (os : Os) (path : List ℕ) (p : Pending) (base : Option ℕ) (h : LeafHandler)
    → Inv h
    → os.open_at h.fds path read_flags ≡ p.fd
    → Ready p (record h { asyncio_base = base; fds = opened p.fd h.fds })
opened-Ready os path p base h v e = elim (Option-cases p.fd) [
  | inl missing ↦
      rw missing (record { held = λ q. omega (arith, v.held q); once = v.once; valid = v.valid })
  | inr there ↦ rw there.1 (record {
    held = λ q. omega (arith, v.held q);
    once = λ q. count-fresh os path h.fds read_flags there.0 q (e ∙ there.1) (v.once q);
    valid = v.valid;
  })
]

pub async_tm_read-Keeps :
    (os : Os) (able : IsAble os) (address ios : ℕ) (stale : List ℕ) (cb : Callback)
    (filename : List ℕ) (size : ℕ) (h : LeafHandler)
    → Inv h
    → Keeps (pair cb ∷ []) h (async_tm_read os address ios stale cb filename size h)
unfolding async_tm_read
async_tm_read-Keeps os able address ios stale cb filename size h v =
    let path = filename_to_path h filename in
    let fd = os.open_at h.fds path read_flags in
    let (bufp, allocates) = able.allocates size in
    let (io, makes) =
      new_io-made os.memalign address (int_of fd) size 0 IoType.read bufp allocates in
    let p : Pending = record {
      fd = fd;
      io = io;
      buffer = stale;
      continuation = after_read cb size ios;
    } in
    let base = init_asyncio cb h.asyncio_base in
    rw makes (
      submit-Keeps os p (record h { asyncio_base = base; fds = opened fd h.fds }) h
        (opened-Ready os path p base h v refl) (λ k. refl))
