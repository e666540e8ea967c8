-- ===== src/Wangle/Dispatcher.antt =====
-- `MsgClientDispatcher` of wangle/client.cpp. A promise is the number of the call that made it.
pub mod Refine
pub mod Late
use thrift_bench.Prelude.{
  ℕ, ◌+◌, Option, none, some, List, [], ◌∷◌, ◌++◌, ◌>>=◌, lookup, insert, erase,
}
use thrift_bench.Wangle.Codec.{Message}

-- `requests_`, what the pipeline was given to write, and the values of the promises.
pub record Dispatcher : Type 0 where
  pub requests : List (ℕ × ℕ)
  pub next : ℕ
  pub sent : List Message
  pub values : List (ℕ × Message)

unfoldable pub new_dispatcher : Dispatcher
new_dispatcher = record { requests = []; next = 0; sent = []; values = [] }

-- `operator()`. Where the map has a promise for the identifier, its future has been taken, and
-- `getFuture` throws.
unfoldable pub call_with : Option ℕ → Message → Dispatcher → Option Dispatcher
call_with (some p) m d = none
call_with none m d = some (record d {
  requests = insert m.req_id d.next d.requests;
  next = d.next + 1;
  sent = d.sent ++ m ∷ [];
})

unfoldable pub call : Message → Dispatcher → Option Dispatcher
unfolding call_with
call m d = call_with (lookup m.req_id d.requests) m d

-- `read`: `CHECK` aborts where the identifier is not there.
unfoldable pub read : Message → Dispatcher → Option Dispatcher
read m d = do
  p ← lookup m.req_id d.requests
  some (record d { requests = erase m.req_id d.requests; values = d.values ++ (p, m) ∷ [] })

-- The interrupt handler of a request, which a timeout of `ExpiringFilter` calls.
unfoldable pub interrupt : ℕ → Dispatcher → Dispatcher
interrupt id d = record d { requests = erase id d.requests }

pub data Event : Type 0 where
  calls reads : Message → Event
  expires : (id : ℕ) → Event

unfoldable pub handle : Event → Dispatcher → Option Dispatcher
unfolding call read interrupt
handle (calls m) d = call m d
handle (reads m) d = read m d
handle (expires id) d = some (interrupt id d)

unfoldable pub handle_all : List Event → Dispatcher → Option Dispatcher
unfolding handle
handle_all [] d = some d
handle_all (e ∷ es) d = handle e d >>= λ d'. handle_all es d'
