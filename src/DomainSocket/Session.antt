-- ===== src/DomainSocket/Session.antt =====
-- `main` of fbthrift/domain-socket/Client.cpp with the threads that it starts, which share the
-- collector. `Split`, the names of the commands and the collector are word for word those of
-- StorageRpc/Client.cpp. The threads touch nothing of each other but the collector, at most once in a
-- turn and under its mutex, so that a run is a sequence of lines and turns.
pub mod Threads
pub mod Runs
use thrift_bench.Prelude.{
  ℕ, ◌+◌, Bool, true, false, Option, none, some, List, [], ◌∷◌, ◌>>=◌, ◌>>◌, assert, if◌then◌else◌,
  lookup, insert, add64,
}
use thrift_bench.Prelude.Text.{Text}
use thrift_bench.StorageRpc.Stats.{Collector, client_add, is_none}
use thrift_bench.StorageRpc.Echo.{Config}
use thrift_bench.StorageRpc.Commands.{
  Command, quit, client_add as add_command, client_stop, other, command_of, split,
}
use thrift_bench.DomainSocket.Socket.{Setting, create_async_rpc_client}
use thrift_bench.DomainSocket.Benchmark.{Loop, Turn, start_loop, turn, going, future_send_no_data}

-- A thread before its `ClientAdd`, in its loop, and after it.
pub data Stage : Type 0 where
  created : Stage
  looping : Loop → Stage
  ended : Stage

pub record Program : Type 0 where
  pub prompts : Bool
  pub client_id : ℕ
  pub clients : List (ℕ × Stage)
  pub stats : Collector

pub start : Program
start = record { prompts = true; client_id = 0; clients = []; stats = [] }

-- `insert` keeps a thread that is there, and the new one, destroyed while it runs, ends the program.
-- All clients run `BenchmarkSendNoData`.
pub execute : Command → Program → Option Program
execute quit p = some (record p { prompts = false })
execute add_command p = do
  let id = add64 p.client_id 1
  assert (is_none (lookup id p.clients))
  some (record p { client_id = id; clients = insert id created p.clients })
execute client_stop p = some p
execute other p = some p

pub on_tokens : List Text → Program → Option Program
unfolding execute
on_tokens [] p = some p
on_tokens (cmd ∷ rest) p = execute (command_of cmd) p

pub on_line : Text → Program → Option Program
unfolding on_tokens split
on_line line p = split line b' ' >>= λ tokens. on_tokens tokens p

-- The first steps of `BenchmarkSendNoData`, with what `Connect` has returned and the options that the
-- socket accepts, and of its `Benchmark`.
pub begin_thread :
    (fd : Option ℕ) (sets : Setting → Bool) (added now id : ℕ) → Stage → Program → Option Program
unfolding client_add create_async_rpc_client
begin_thread fd sets added now id created p = do
  client ← create_async_rpc_client fd sets
  stats ← client_add added id p.stats
  some (record p { clients = insert id (looping (start_loop now)) p.clients; stats = stats })
begin_thread fd sets added now id (looping l) p = some p
begin_thread fd sets added now id ended p = some p

-- The test of the `while` loop, and its body.
pub turn_thread : Config → (id : ℕ) → Turn → Stage → Program → Option Program
turn_thread c id t created p = some p
turn_thread c id t (looping l) p =
    if going c l
    then (turn c future_send_no_data id t p.stats l >>= λ r.
        some (record p { clients = insert id (looping r.1) p.clients; stats = r.0 }))
    else some (record p { clients = insert id ended p.clients })
turn_thread c id t ended p = some p

pub at_thread : (Stage → Program → Option Program) → Option Stage → Program → Option Program
at_thread f none p = some p
at_thread f (some g) p = f g p

pub data Event : Type 0 where
  types : (line : Text) → Event
  begins : (id : ℕ) (fd : Option ℕ) (sets : Setting → Bool) (added now : ℕ) → Event
  turns : (id : ℕ) → Turn → Event

pub handle : Config → Event → Program → Option Program
unfolding on_line begin_thread turn_thread at_thread
handle c (types line) p = on_line line p
handle c (begins id fd sets added now) p =
    at_thread (begin_thread fd sets added now id) (lookup id p.clients) p
handle c (turns id t) p = at_thread (turn_thread c id t) (lookup id p.clients) p

-- Until `quit`.
pub handle_all : Config → List Event → Program → Option Program
unfolding handle
handle_all c [] p = some p
handle_all c (e ∷ es) p = if p.prompts then (handle c e p >>= λ p'. handle_all c es p') else some p
