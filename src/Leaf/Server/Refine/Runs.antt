-- ===== src/Leaf/Server/Refine/Runs.antt =====
-- The leaf server over `AsyncIO`: whole histories of its events.
use mathlib.Core.Path.{subst}
use thrift_bench.Prelude.{
  ℕ, ◌+◌, ◌≤◌, ◌≡◌, refl, ap, Option, none, some, List, [], ◌∷◌, ◌>>=◌, length, All, arith,
}
use thrift_bench.Leaf.Aio.{Io}
use thrift_bench.Leaf.Aio.Inflight.{count}
use thrift_bench.Leaf.Aio.Invariant.{users, addresses, Reach-Inv}
use thrift_bench.Leaf.Aio.System.{System, init, Reach, start}
use thrift_bench.Leaf.Server.{Os, LeafHandler, new_handler}
use thrift_bench.Leaf.Server.Steps.{Event, handle, handle_all}
use thrift_bench.Leaf.Server.Requests.{IsAble}
use thrift_bench.Leaf.Server.Invariant.{handle_all-Keeps}
use thrift_bench.Leaf.Server.Descriptors.{new_handler-Inv}
use thrift_bench.Leaf.Server.Refine.{at, Block, AreFresh, Then, Sim, handed, asks, all_asks}
use thrift_bench.Leaf.Server.Refine.Moves.{Tied, retie, Then-map, handle-Sim}

module _ (eventfd : ℕ) (heap : ℕ → Io) where
  -- Two facts on a result, put together.
  bind-Then :
      (o : Option LeafHandler) (f : LeafHandler → Option LeafHandler) (P Q R : LeafHandler → Type 0)
      → Then o P
      → Then o Q
      → ((h : LeafHandler) → P h → Q h → Then (f h) R)
      → Then (o >>= f) R
  bind-Then none f P Q R p q k = tt
  bind-Then (some h) f P Q R p q k = k h p q

  handle_all-Sim :
      (os : Os) (es : List Event) (h : LeafHandler) (pushes : ℕ → ℕ)
      → AreFresh os es h
      → Tied eventfd heap pushes h
      → Then (handle_all os es h) (Tied eventfd heap (λ q. pushes q + all_asks q es))
  unfolding handle_all AreFresh
  handle_all-Sim os [] h pushes fresh m =
      retie eventfd heap pushes (λ q. pushes q + 0) h (λ q. omega arith) m
  handle_all-Sim os (e ∷ es) h pushes fresh m =
      let first : ℕ → ℕ = λ q. pushes q + asks q e in
      let both : ℕ → ℕ = λ q. pushes q + all_asks q (e ∷ es) in
      bind-Then (handle os e h) (handle_all os es) (Tied eventfd heap first) (AreFresh os es)
        (Tied eventfd heap both) (handle-Sim eventfd heap os e h pushes fresh.0 m) fresh.1
        (λ h' p q.
          Then-map (Tied eventfd heap (λ q. first q + all_asks q es)) (Tied eventfd heap both)
            (handle_all os es h')
            (λ h2 t. retie eventfd heap (λ q. first q + all_asks q es) both h2 (λ q. omega arith) t)
            (handle_all-Sim os es h' first q p))

  new_handler-Sim : (path : List ℕ) → Tied eventfd heap (λ q. 0) (new_handler path)
  unfolding new_handler
  new_handler-Sim path = record {
    system = init eventfd heap;
    reach = start;
    quiet = record { entered = refl; events = refl; batch = refl; wanted = refl; signals = refl };
    running = λ q. refl;
    refused = λ q. refl;
    blocks = tt;
    same_eventfd = refl;
    pushed = λ q. refl;
    dones = refl;
  }

Then-some :
    (P : LeafHandler → Type 0) (o : Option LeafHandler) (h : LeafHandler)
    → o ≡ some h
    → Then o P
    → P h
Then-some P o h e t = subst (λ x. Then x P) e t

-- A system with memory that can open any file for writing, where a new `IO` gets an address that no
-- `IO` has which runs or was refused. After any events, no assertion has failed, and the threads of
-- `AsyncIO` and the kernel can have reached a state with the I/Os of the handler: those that run
-- are, each with its control block, those that the kernel has, those that `io_submit` refused are
-- the other ones in `inflight_`, and no address is there twice. In that state each address was
-- pushed as often as the requests asked for an I/O with it, so that each of these I/Os runs, was
-- refused or is done; and as many I/Os are done as there are jobs, tasks and replies at the handler.
pub handle_all-Reach :
    (os : Os) (able : IsAble os) (path : List ℕ) (es : List Event) (eventfd : ℕ) (heap : ℕ → Io)
    → AreFresh os es (new_handler path)
    → (h : LeafHandler) × (s : System) × (handle_all os es (new_handler path) ≡ some h)
      × Reach eventfd heap s
      × ((q : ℕ) → count q s.running ≡ at q h.running)
      × ((q : ℕ) → count q s.refused ≡ at q h.refused)
      × ((q : ℕ)
          → (count q s.inflight ≡ at q h.running + at q h.refused) × (count q s.inflight ≤ 1))
      × All (Block eventfd s) h.running
      × ((q : ℕ)
          → (count q s.pushed ≡ all_asks q es)
            × (all_asks q es ≡ at q h.running + at q h.refused + count q (addresses s.done)))
      × (length s.done ≡ length h.pool + (length h.queue + length h.results))
handle_all-Reach os able path es eventfd heap fresh =
    let k = handle_all-Keeps os able es (new_handler path) (new_handler-Inv path) in
    let m =
      Then-some (λ h. Sim eventfd heap (λ q. 0 + all_asks q es) (handed h) h)
        (handle_all os es (new_handler path)) k.after k.returns
        (handle_all-Sim eventfd heap os es (new_handler path) (λ q. 0) fresh
          (new_handler-Sim eventfd heap path)) in
    let v = Reach-Inv m.reach in
    let inside : (q : ℕ) → count q m.system.inflight ≡ at q k.after.running + at q k.after.refused =
      λ q. omega (
        arith,
        v.owned q,
        m.running q,
        m.refused q,
        ap (count q) m.quiet.entered,
        ap (λ es. count q (users es)) m.quiet.events,
        ap (λ es. count q (users es)) m.quiet.batch,
      ) in
    (
      k.after,
      m.system,
      k.returns,
      m.reach,
      m.running,
      m.refused,
      λ q. (inside q, v.once q),
      m.blocks,
      λ q. (omega (arith, m.pushed q), omega (arith, m.pushed q, v.balance q, inside q)),
      m.dones,
    )
