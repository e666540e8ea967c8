-- ===== src/DomainSocket/Socket.antt =====
-- `Connect` of fbthrift/domain-socket/Client.cpp and `CreateUnixDomainSocket` of Server.cpp beside
-- it. The answers of the system calls are parameters.
pub mod Buffers
use thrift_bench.Prelude.{
  ℕ, zero, suc, ◌+◌, ◌*◌, ◌/◌, ◌^◌, ◌≡◌, Bool, true, false, Option, none, some, List, [], ◌∷◌,
  if◌then◌else◌,
}

abbrev pub k_buffer_size : ℕ
k_buffer_size = 8 * 1024 * 1024

-- The sizes that `setsockopt` is asked for, until it accepts one: `fuel` is how many of the twelve
-- rounds are left, `i` the counter.
pub set_sndbuf : (accepts : ℕ → Bool) (fuel i : ℕ) → List ℕ
set_sndbuf accepts zero i = []
set_sndbuf accepts (suc fuel) i =
    let sndbuf = k_buffer_size / 2 ^ i in
    let rest = set_sndbuf accepts fuel (i + 1) in sndbuf ∷ (if accepts sndbuf then [] else rest)

-- What the function returns (`none` is -1), the sizes it asked for, and the descriptors that it
-- leaves open.
pub record Opened : Type 0 where
  pub returned : Option ℕ
  pub asked : List ℕ
  pub open_ : List ℕ

-- `socket`, then `connect`, then the buffer size.
pub connect : (socket : Option ℕ) (connected : Bool) (accepts : ℕ → Bool) → Opened
unfolding set_sndbuf
connect none connected accepts = record { returned = none; asked = []; open_ = [] }
connect (some fd) false accepts = record { returned = none; asked = []; open_ = fd ∷ [] }
connect (some fd) true accepts = record {
  returned = some fd;
  asked = set_sndbuf accepts 12 0;
  open_ = fd ∷ [];
}

-- `socket`, then `bind`, then the buffer size.
unfoldable pub create_unix_domain_socket :
    (socket : Option ℕ) (bound : Bool) (accepts : ℕ → Bool) → Opened
unfolding set_sndbuf
create_unix_domain_socket none bound accepts = record { returned = none; asked = []; open_ = [] }
create_unix_domain_socket (some fd) false accepts = record {
  returned = none;
  asked = [];
  open_ = fd ∷ [];
}
create_unix_domain_socket (some fd) true accepts = record {
  returned = some fd;
  asked = set_sndbuf accepts 12 0;
  open_ = fd ∷ [];
}

-- The options that are set on the socket, in this order.
pub data Setting : Type 0 where
  send_buf_size recv_buf_size no_delay zero_copy : Setting

-- The client: its descriptor, the settings whose failure was logged, and the channel's buffer.
pub record RpcClient : Type 0 where
  pub fd : ℕ
  pub failed : List Setting
  pub read_buffer_size : ℕ

-- What is logged: those that the socket does not accept.
failures : (sets : Setting → Bool) → List Setting → List Setting
failures sets [] = []
failures sets (s ∷ ss) = let rest = failures sets ss in if sets s then rest else s ∷ rest

-- `CreateAsyncRpcClient`, with what `Connect` has returned; `none` is its assertion.
unfoldable pub create_async_rpc_client :
    (returned : Option ℕ) → (sets : Setting → Bool) → Option RpcClient
unfolding failures
create_async_rpc_client none sets = none
create_async_rpc_client (some fd) sets = some (record {
  fd = fd;
  failed = failures sets (send_buf_size ∷ recv_buf_size ∷ no_delay ∷ zero_copy ∷ []);
  read_buffer_size = k_buffer_size;
})
