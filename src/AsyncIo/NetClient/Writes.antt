-- ===== src/AsyncIo/NetClient/Writes.antt =====
-- AsyncIO/net-client.cpp: the life of the requests and of the write callbacks that `requests_send`
-- makes on its stack. A callback is named by the number of its request. `none` is a callback that is
-- called after its end, or a request that is deleted and not there.
pub mod Late
use thrift_bench.Prelude.{
  ℕ, ◌+◌, Bool, true, false, Option, none, some, List, [], ◌∷◌, ◌++◌, ◌>>=◌, ◌>>◌, assert, ◌==◌,
  ◌||◌, if◌then◌else◌,
}

-- `live` are the callbacks on the stack, `requests` those allocated, `pending` what the socket has yet
-- to write.
pub record Writes : Type 0 where
  pub next : ℕ
  pub live : List ℕ
  pub requests : List ℕ
  pub pending : List ℕ

pub new_writes : Writes
new_writes = record { next = 1; live = []; requests = []; pending = [] }

abbrev member : ℕ → List ℕ → Bool
member x [] = false
member x (y ∷ ys) = y == x || member x ys

abbrev remove : ℕ → List ℕ → List ℕ
remove x [] = []
remove x (y ∷ ys) = if y == x then ys else y ∷ remove x ys

-- `request_sent`
pub request_sent : ℕ → Writes → Option Writes
request_sent reqp w = do
  assert (member reqp w.requests)
  some (record w { requests = remove reqp w.requests })

-- `writeSuccess` of the callback.
pub write_success : ℕ → Writes → Option Writes
unfolding request_sent
write_success wcb w = do assert (member wcb w.live); request_sent wcb w

-- `socket_->write`, which is a parameter: it writes at once and calls back, or keeps the callback.
pub write : (at_once : Bool) → (wcb : ℕ) → Writes → Option Writes
unfolding write_success
write at_once wcb w =
    if at_once then write_success wcb w else some (record w { pending = w.pending ++ wcb ∷ [] })

-- The body of the loop of `requests_send`, at whose end the callback ends.
pub send_write : (at_once : Bool) → Writes → Option Writes
unfolding write
send_write at_once w = do
  w' ←
      write at_once w.next
        (record w { next = w.next + 1; requests = w.next ∷ w.requests; live = w.next ∷ [] })
  some (record w' { live = [] })

-- The socket has written the oldest of what it keeps.
pub written : List ℕ → Writes → Option Writes
unfolding write_success
written [] w = some w
written (wcb ∷ wcbs) w = write_success wcb (record w { pending = wcbs })

pub data Event : Type 0 where
  sends : (at_once : Bool) → Event
  writes : Event

pub handle : Event → Writes → Option Writes
unfolding send_write written
handle (sends at_once) w = send_write at_once w
handle writes w = written w.pending w

pub handle_all : List Event → Writes → Option Writes
unfolding handle
handle_all [] w = some w
handle_all (e ∷ es) w = handle e w >>= λ w'. handle_all es w'
