-- ===== src/Wangle/Client.antt =====
-- The loops of `main` in wangle/client.cpp.
pub mod Averages
use thrift_bench.Prelude.{
  ℕ, ◌+◌, ◌/◌, ◌^◌, Option, none, some, List, [], ◌∷◌, ◌++◌, ◌>>=◌, ◌>>◌, assert, ◌==◌, not, add64,
  sub64, if◌then◌else◌,
}

-- What a response brings: its identifier, the time that was sent with it, and the time when it comes.
pub record Reply : Type 0 where
  pub req_id : ℕ
  pub client_send : ℕ
  pub current : ℕ

pub record Session : Type 0 where
  pub seq : ℕ
  pub latency : ℕ
  pub count : ℕ
  pub printed : List (ℕ × ℕ)

pub start_session : Session
start_session = record { seq = 1; latency = 0; count = 0; printed = [] }

-- The callback of a response, with `CHECK`. A future that ends by an exception, such as a timeout,
-- does not call it.
pub on_reply : ℕ → Option Reply → Session → Option Session
on_reply id none s = some s
on_reply id (some r) s = do
  assert (id == r.req_id)
  some (record s {
    latency = add64 s.latency (sub64 r.current r.client_send);
    count = add64 s.count 1;
  })

-- The body of the `while` loop: one message, and the wait for its future.
pub round : Option Reply → Session → Option Session
unfolding on_reply
round reply s = on_reply s.seq reply (record s { seq = s.seq + 1 })

-- The `while` loop: the rounds that start within five seconds.
pub rounds : List (Option Reply) → Session → Option Session
unfolding round
rounds [] s = some s
rounds (r ∷ rs) s = round r s >>= λ s'. rounds rs s'

-- What is printed for a size; a division by zero ends the program.
pub print_size : ℕ → Session → Option Session
print_size datasize s = do
  assert (not (s.count == 0))
  some (record s { printed = s.printed ++ (datasize, s.latency / s.count) ∷ [] })

-- The `for` loop over the sizes, each with what its rounds bring.
pub sizes : List (ℕ × List (Option Reply)) → Session → Option Session
unfolding rounds print_size
sizes [] s = some s
sizes ((datasize, rs) ∷ more) s = do s' ← rounds rs s; s2 ← print_size datasize s'; sizes more s2
