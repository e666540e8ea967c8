-- ===== src/Leaf/Tests.antt =====
-- Tests of the models of fbthrift/exp3/LEAF, and instances of their theorems.
use thrift_bench.Prelude.{
  ℕ, ◌+◌, ◌≤◌, ◌≡◌, refl, true, false, none, some, sym, ◌∙◌, List, [], ◌∷◌, length, arith,
}
use thrift_bench.Leaf.Aio.{
  new_io, Io, Event, read, aim, io_result, set_result, complete_promise, take_out,
}
use thrift_bench.Leaf.Aio.Inflight.{count, is}
use thrift_bench.Leaf.Aio.System.{
  System, init, put, complete, push, complete_one, enter, accept, refuse, finish,
  read as read_count, fetch, Reach, start, later,
}
use thrift_bench.Leaf.Aio.Safety.{complete_one-Reach, inflight-Reach}
use thrift_bench.Leaf.Aio.Invariant.{addresses, users}
use thrift_bench.Prelude.{◌++◌, All, Option, if◌then◌else◌, Bool, ltb, ◌||◌, inl, inr, Bool-cases}
use mathlib.Core.Option.{some-injective, none-ne-some}
use thrift_bench.Prelude.Bags.{bag}
use thrift_bench.Leaf.Server.{Os, Flags, Callback, LeafHandler, new_handler}
use thrift_bench.Leaf.Server.Steps.{
  Event as ServerEvent, asks_write, asks_read, completes, runs, handle_all,
}
use thrift_bench.Leaf.Server.Invariant.{asked}
use thrift_bench.Leaf.Server.Requests.{IsAble}
use thrift_bench.Leaf.Server.Descriptors.{fds_of, count_some, answered, waiting, handle_all-fds}
use thrift_bench.Leaf.Server.Drain.{handle_all-drains}
use thrift_bench.Leaf.Server.Refine.{at, Block, AreFresh, all_asks}
use thrift_bench.Leaf.Server.Refine.Runs.{handle_all-Reach}

abbrev io_at : ℕ → Io
io_at p = record {
  address = p;
  bufp = 8192;
  offset = 0;
  size = 4096;
  fd = 4;
  type = read;
  result = none;
  iocb = none;
  fulfilled = false;
}

abbrev two_in : System
unfolding push
two_in = push (io_at 9) (push (io_at 7) (init 3 io_at))

two_in-Reach : Reach 3 io_at two_in
unfolding push
two_in-Reach = later (later start (enter (io_at 7) refl refl)) (enter (io_at 9) refl refl)

abbrev done_event : Event
done_event = record { user = 7; res = 4096; res2 = 0 }

-- The kernel takes 7 and completes it, and refuses 9; the event is fetched.
abbrev fetched : System
unfolding push
fetched = record two_in { entered = []; refused = 9 ∷ []; batch = done_event ∷ [] }

fetched-Reach : Reach 3 io_at fetched
unfolding push
fetched-Reach =
    later
      (later
        (later
          (later (later two_in-Reach (accept 7 (9 ∷ []) (λ q. omega arith)))
            (refuse 9 [] (λ q. omega arith)))
          (finish done_event [] (λ q. omega arith)))
        (read_count (omega arith) refl refl))
      (fetch (done_event ∷ []) [] (omega arith) refl refl)

complete_one-Reach_example :
    (t : System) × (complete_one done_event [] fetched ≡ some t)
    × (t.done ≡ (7, io_result done_event) ∷ fetched.done)
    × ((q : ℕ) → count q t.inflight + is q 7 ≡ count q fetched.inflight)
    × ((t.heap 7).result ≡ some (io_result done_event))
    × ((t.heap 7).fulfilled ≡ true)
unfolding push
complete_one-Reach_example = complete_one-Reach fetched-Reach done_event [] refl

abbrev done_io : Io
done_io = record (aim 3 (io_at 7)) { result = some 4096; fulfilled = true }

-- The completion of 7 is through; 9 is still in flight.
abbrev rested : System
unfolding push
rested = record fetched {
  heap = put fetched.heap 7 done_io;
  inflight = 9 ∷ [];
  batch = [];
  done = (7, 4096) ∷ [];
}

rested-Reach : Reach 3 io_at rested
unfolding push complete_one take_out set_result complete_promise io_result aim
rested-Reach = later fetched-Reach (complete done_event [] {t = rested} refl refl)

inflight-Reach_example :
    (count 9 rested.pushed
      ≡ count 9 rested.entered
        + (count 9 rested.running
            + (count 9 rested.refused
                + (count 9 (users rested.events)
                    + (count 9 (users rested.batch) + count 9 (addresses rested.done))))))
    × (count 9 rested.inflight + count 9 (addresses rested.done) ≡ count 9 rested.pushed)
    × (count 9 rested.inflight ≤ 1)
unfolding push
inflight-Reach_example = inflight-Reach rested-Reach 9

-- The last element takes the place of the one that is taken out.
take_out_order : take_out 5 (4 ∷ 5 ∷ 6 ∷ 7 ∷ []) ≡ some (4 ∷ 7 ∷ 6 ∷ [])
unfolding take_out
take_out_order = refl

-- A system that gives the number after the highest descriptor, opens any file to write and none to
-- read if its name has not two characters, and takes two I/Os.
abbrev above : List ℕ → ℕ
above [] = 3
above (fd ∷ fds) = if ltb (above fds) (fd + 1) then fd + 1 else above fds

below-above : (fds : List ℕ) (fd : ℕ) → above fds ≤ fd → count fd fds ≡ 0
below-above [] fd h = refl
below-above (f ∷ fds) fd h = ground (arith, below-above fds fd (ground (arith, h)))

abbrev open_new : List ℕ → List ℕ → Flags → Option ℕ
open_new fds path flags = if flags.create || ltb 2 (length path) then some (above fds) else none

open_new-fresh :
    (fds path : List ℕ) (flags : Flags) (fd : ℕ)
    → open_new fds path flags ≡ some fd
    → count fd fds ≡ 0
open_new-fresh fds path flags fd e = elim (Bool-cases (flags.create || ltb 2 (length path))) [
  | inl opens ↦
      let same : above fds ≡ fd =
        some-injective (above fds) fd ((λ i. if sym opens i then some (above fds) else none) ∙ e) in
      below-above fds fd (omega (arith, same))
  | inr fails ↦ absurd (none-ne-some fd ((λ i. if sym fails i then some (above fds) else none) ∙ e))
]

abbrev takes_two : ℕ → Option ℕ → Bool
takes_two n none = false
takes_two n (some fd) = ltb n 2

abbrev small_os : Os
small_os = record {
  open_at = open_new;
  open_fresh = open_new-fresh;
  accepts = takes_two;
  accepts_valid = λ n. refl;
  memalign = λ n. some 4096;
}

small_os-IsAble : IsAble small_os
small_os-IsAble = record { allocates = λ n. (4096, refl); opens = λ fds path. (above fds, refl) }

abbrev caller : ℕ → Callback
caller id = record { id = id; base = 1 }

-- A write; a read of a file that is not there; two more writes, of which the second is refused; and
-- the first completes.
abbrev server_history : List ServerEvent
server_history =
    asks_write 64 (caller 1) (1 ∷ []) (7 ∷ 8 ∷ [])
    ∷ asks_read 65 10 (0 ∷ 0 ∷ []) (caller 2) [] 2
    ∷ asks_write 66 (caller 3) (2 ∷ []) (9 ∷ [])
    ∷ asks_write 67 (caller 4) (3 ∷ []) (9 ∷ [])
    ∷ completes 0 20 []
    ∷ runs 0
    ∷ []

handle_all-fds_example :
    (h : LeafHandler) × (handle_all small_os server_history (new_handler (47 ∷ [])) ≡ some h)
    × ((q : ℕ)
        → (count q h.fds ≡ count_some q (fds_of h.running) + count_some q (fds_of h.refused))
          × (count q h.fds ≤ 1))
handle_all-fds_example = handle_all-fds small_os small_os-IsAble (47 ∷ []) server_history

server_history-AreFresh : AreFresh small_os server_history (new_handler [])
unfolding AreFresh handle_all new_handler new_io
server_history-AreFresh = (refl, (refl, (refl, (refl, (tt, (tt, tt))))))

handle_all-Reach_example :
    (h : LeafHandler) × (s : System) × (handle_all small_os server_history (new_handler [])
      ≡ some h)
    × Reach 3 io_at s
    × ((q : ℕ) → count q s.running ≡ at q h.running)
    × ((q : ℕ) → count q s.refused ≡ at q h.refused)
    × ((q : ℕ) → (count q s.inflight ≡ at q h.running + at q h.refused) × (count q s.inflight ≤ 1))
    × All (Block 3 s) h.running
    × ((q : ℕ)
        → (count q s.pushed ≡ all_asks q server_history)
          × (all_asks q server_history
              ≡ at q h.running + at q h.refused + count q (addresses s.done)))
    × (length s.done ≡ length h.pool + (length h.queue + length h.results))
handle_all-Reach_example =
    handle_all-Reach small_os small_os-IsAble [] server_history 3 io_at server_history-AreFresh

handle_all-drains_example :
    (more : List ServerEvent) × (h : LeafHandler) × (h' : LeafHandler) × (handle_all small_os
        server_history
        (new_handler [])
      ≡ some h)
    × (handle_all small_os more h ≡ some h')
    × (asked more ≡ [])
    × (h'.running ≡ [])
    × (h'.pool ≡ [])
    × (h'.queue ≡ [])
    × (h'.refused ≡ h.refused)
    × (bag (answered h'.results ++ waiting h.refused) ≡ bag (asked server_history))
handle_all-drains_example = handle_all-drains small_os small_os-IsAble [] server_history
