-- ===== src/Leaf/Aio.antt =====
-- fbthrift/exp3/LEAF/AsyncIO.h and AsyncIO.cpp: I/Os in flight, and their completion. An `IO` is named
-- by its address. A failed assertion is `none`.
pub mod Inflight
pub mod System
pub mod Invariant
pub mod Safety
pub mod Rounds
use Prim.Native.Nat.{bit_or}
use thrift_bench.Prelude.{
  ℕ, zero, suc, ◌+◌, ◌-◌, ◌*◌, ◌%◌, ◌^◌, ◌≤◌, ◌<◌, ◌≡◌, Bool, true, false, not, Option, none, some,
  List, [], ◌∷◌, ◌++◌, ltb, leb, ◌==◌, if◌then◌else◌, ◌>>=◌, ◌>>◌, assert, length, get_elem?, set,
  take, replicate,
}

pub data IoType : Type 0 where
  read write : IoType

-- `struct iocb`, as far as `io_prep_pread`, `io_prep_pwrite`, `io_set_eventfd` and `ioSubmit` fill it.
pub record Iocb : Type 0 where
  pub opcode : IoType
  pub fd : ℕ
  pub buffer : ℕ
  pub size : ℕ
  pub offset : ℕ
  pub resfd : Option ℕ
  pub user : Option ℕ  -- `data`

-- `result` is missing until it is set; `fulfilled` is `p_.isFulfilled()`.
pub record Io : Type 0 where
  pub address : ℕ
  pub bufp : ℕ
  pub offset : ℕ
  pub size : ℕ
  pub fd : ℕ
  pub type : IoType
  pub result : Option ℕ
  pub iocb : Option Iocb
  pub fulfilled : Bool

prepare : Io → Io
prepare io = record io {
  iocb = some (record {
    opcode = io.type;
    fd = io.fd;
    buffer = io.bufp;
    size = io.size;
    offset = io.offset;
    resfd = none;
    user = none;
  });
}

-- The constructor; `memalign` is `posix_memalign`, which gives an address or fails.
unfoldable pub new_io : (ℕ → Option ℕ) → (address fd size offset : ℕ) → IoType → Option Io
unfolding prepare
new_io memalign address fd size offset type = do
  bufp ← memalign size
  some (
      prepare (record {
        address = address;
        bufp = bufp;
        offset = offset;
        size = size;
        fd = fd;
        type = type;
        result = none;
        iocb = none;
        fulfilled = false;
      }))

unfoldable pub set_result : ℕ → Io → Option Io
set_result result io = do assert (not io.fulfilled); some (record io { result = some result })

unfoldable pub complete_promise : ℕ → Io → Option Io
complete_promise iop io = do
  assert (not io.fulfilled)
  assert (io.address == iop)
  some (record io { fulfilled = true })

abbrev with_iocb : Option Iocb → (Iocb → Iocb) → Option Iocb
with_iocb none f = none
with_iocb (some cb) f = some (f cb)

-- `ioSubmit` between the mutex and the call of `io_submit`.
unfoldable pub aim : ℕ → Io → Io
aim eventfd io = record io {
  iocb = with_iocb io.iocb (λ cb. record cb { user = some io.address; resfd = some eventfd });
}

-- `struct io_event`
pub record Event : Type 0 where
  pub user : ℕ
  pub res : ℕ
  pub res2 : ℕ

-- `ioResult`, as a 64-bit pattern.
unfoldable pub io_result : Event → ℕ
io_result e = bit_or (e.res2 * 2 ^ 32 % 2 ^ 64) e.res

-- The members of `inflight_` by address.
pub find_index : ℕ → List ℕ → Option ℕ
find_index p [] = none
find_index p (x ∷ xs) = if x == p then some 0 else (find_index p xs >>= λ i. some (suc i))

back : List ℕ → Option ℕ
back xs = get_elem? xs (length xs - 1)

pop_back : List ℕ → List ℕ
pop_back xs = take (length xs - 1) xs

swap_back : ℕ → List ℕ → Option (List ℕ)
unfolding back
swap_back i xs = do a ← get_elem? xs i; b ← back xs; some (set (set xs i b) (length xs - 1) a)

-- What `iosCompleted` does under the mutex for one event, and the assertions round it: the address
-- is looked up, swapped to the back if there are at least two, and taken off there.
unfoldable pub take_out : ℕ → List ℕ → Option (List ℕ)
unfolding find_index swap_back pop_back
take_out p xs = do
  i ← find_index p xs
  ys ← if leb 2 (length xs) then swap_back i xs else some xs
  q ← back ys
  assert (q == p)
  some (pop_back ys)
