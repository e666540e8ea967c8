-- ===== src/StorageRpc/Commands.antt =====
-- The command line of StorageRpc/Client.cpp: `Split` and the loop of `main`.
pub mod Fields
pub mod Session
use thrift_bench.Prelude.{
  ℕ, zero, suc, ◌+◌, ◌-◌, ◌^◌, ◌≡◌, Bool, true, false, Option, none, some, List, [], ◌∷◌, ◌++◌,
  ◌==◌, if◌then◌else◌, ◌>>=◌, length, drop, add64,
}
use thrift_bench.Prelude.Text.{Text, codes, same_text, find, substr}

-- `std::string::npos`, to which the last `e` is compared.
abbrev pub npos : ℕ
npos = 2 ^ 64 - 1

-- The loop of `Split`, with fuel: `none` means that the fuel ran out.
split_loop : ℕ → Text → ℕ → ℕ → List Text → Option (List Text)
split_loop zero str delim s tokens = none
split_loop (suc f) str delim s tokens = elim (find delim str s) [
  | some e ↦
      split_loop f str delim (e + 1)
        (if e == s then tokens else tokens ++ substr str s (e - s) ∷ [])
  | none ↦ some (if npos == s then tokens else tokens ++ drop s str ∷ [])
]

-- Each round passes a delimiter, so one more round than the text is long is enough.
unfoldable pub split : Text → ℕ → Option (List Text)
unfolding split_loop
split str delim = split_loop (suc (length str)) str delim 0 []

pub data Command : Type 0 where
  quit client_add client_stop other : Command

pub command_of : Text → Command
command_of cmd =
    if same_text cmd (codes "quit")
    then quit
    else if same_text cmd (codes "client_add")
    then client_add
    else if same_text cmd (codes "client_stop")
    then client_stop
    else other

-- `client_id`, and the identifiers of the threads in `clients`.
pub record Console : Type 0 where
  pub client_id : ℕ
  pub clients : List ℕ
  pub printed : List Text

pub start : Console
start = record { client_id = 0; clients = []; printed = [] }

-- Whether the loop goes on, and the state after one command.
pub execute : Command → Console → Bool × Console
execute quit c = (false, record c { printed = c.printed ++ codes "Not properly implemented" ∷ [] })
execute client_add c =
    let id = add64 c.client_id 1 in (true, record c { client_id = id; clients = id ∷ c.clients })
execute client_stop c = (true, record c { printed = c.printed ++ codes "Not implemented" ∷ [] })
execute other c = (true, c)

on_tokens : List Text → Console → Bool × Console
unfolding execute command_of
on_tokens [] c = (true, c)
on_tokens (cmd ∷ rest) c = execute (command_of cmd) c

pub on_line : Text → Console → Option (Bool × Console)
unfolding on_tokens split
on_line line c = elim (split line b' ') [ none ↦ none | some tokens ↦ some (on_tokens tokens c) ]

-- The loop of `main` over the lines that are read; true is a loop that still waits for input.
pub main_loop : List Text → Console → Option (Bool × Console)
main_loop [] c = some (true, c)
main_loop (line ∷ lines) c = on_line line c >>= λ r. if r.0 then main_loop lines r.1 else some r
