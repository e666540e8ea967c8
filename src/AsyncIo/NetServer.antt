-- ===== src/AsyncIo/NetServer.antt =====
-- AsyncIO/net-server.cpp: the echo of one accepted connection. A write callback is named by a
-- number and owns the buffer that it was made with; `live` are those that have not been freed.
pub mod Echo
pub mod Threads
use thrift_bench.Prelude.{
  ℕ, ◌+◌, ◌≡◌, Bool, true, false, Option, none, some, List, [], ◌∷◌, ◌++◌, map, ◌==◌, if◌then◌else◌,
  ◌>>=◌, ◌>>◌, assert, take,
}
use thrift_bench.AsyncIo.Request.{request_size, Delivery}

pub record WriteCallback : Type 0 where
  pub name : ℕ
  pub mbufp : List ℕ

pub record Connection : Type 0 where
  pub live : List WriteCallback
  pub next : ℕ
  pub wire : List (List ℕ)  -- the calls of `socket->write`

pub fresh : Connection
fresh = record { live = []; next = 0; wire = [] }

-- `readDataAvailable`. A null buffer would be read through.
pub read_data_available : Delivery → Connection → Option Connection
read_data_available d c = do
  assert (d.size == request_size)
  buf ← d.buffer
  some (record c {
    live = record { name = c.next; mbufp = buf } ∷ c.live;
    next = c.next + 1;
    wire = c.wire ++ take d.size buf ∷ [];
  })

remove : ℕ → List WriteCallback → List WriteCallback
remove n [] = []
remove n (w ∷ ws) = if w.name == n then ws else w ∷ remove n ws

-- `writeSuccess` deletes the callback, and the buffer with it.
pub write_success : ℕ → Connection → Connection
unfolding remove
write_success n c = record c { live = remove n c.live }

-- `writeErr` has an empty body.
pub write_err : ℕ → Connection → Connection
write_err n c = c

-- The event loop's deliveries, in order.
pub echo : List Delivery → Connection → Option Connection
echo [] c = some c
echo (d ∷ ds) c = read_data_available d c >>= λ c'. echo ds c'

-- `SAcceptCallback`: whether a handler is set, and what it is called with.
pub connection_accepted : Bool → ℕ → Option (List ℕ)
connection_accepted set fd = do assert set; some (fd ∷ [])
