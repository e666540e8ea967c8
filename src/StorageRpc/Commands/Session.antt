-- ===== src/StorageRpc/Commands/Session.antt =====
-- What a session at the prompt does.
use thrift_bench.Prelude.{
  ℕ, zero, suc, ◌+◌, ◌^◌, ◌≤◌, ◌<◌, ◌≡◌, ◌≢◌, refl, ap, ◌∙◌, Bool, true, false, not, Option, some,
  List, [], ◌∷◌, length, add64, arith, All, map, if◌then◌else◌,
}
use thrift_bench.Prelude.Text.{Text}
use thrift_bench.StorageRpc.Commands.{
  Command, quit, client_add, client_stop, other, command_of, Console, start, execute, on_tokens,
  on_line, main_loop,
}
use thrift_bench.StorageRpc.Commands.Fields.{fields_from, split-fields, fields_from-ne-nil}

abbrev head_or : Text → List Text → Text
head_or d [] = d
head_or d (x ∷ xs) = x

-- The command on a line is its first field, which may be empty.
abbrev pub read_command : Text → Command
read_command line = command_of (head_or [] (fields_from b' ' [] line))

-- How many clients the commands add before the first `quit`, and whether there is one.
abbrev pub added : List Command → ℕ
added [] = 0
added (quit ∷ cs) = 0
added (client_add ∷ cs) = suc (added cs)
added (client_stop ∷ cs) = added cs
added (other ∷ cs) = added cs

abbrev pub quits : List Command → Bool
quits [] = false
quits (quit ∷ cs) = true
quits (client_add ∷ cs) = quits cs
quits (client_stop ∷ cs) = quits cs
quits (other ∷ cs) = quits cs

abbrev pub count_down : ℕ → List ℕ
count_down zero = []
count_down (suc n) = suc n ∷ count_down n

on_tokens-ne-nil :
    (tokens : List Text) (c : Console)
    → tokens ≢ []
    → on_tokens tokens c ≡ execute (command_of (head_or [] tokens)) c
unfolding on_tokens
on_tokens-ne-nil [] c h = absurd (h refl)
on_tokens-ne-nil (t ∷ ts) c h = refl

on_line_lem :
    (line : Text) (c : Console)
    → length line < 2 ^ 63
    → on_line line c ≡ some (execute (read_command line) c)
unfolding on_line
on_line_lem line c h =
    rw (split-fields line b' ' h, on_line)
      (ap some (on_tokens-ne-nil (fields_from b' ' [] line) c (fields_from-ne-nil b' ' [] line)))

-- What the loop does, on commands in place of lines.
record Ends (cs : List Command) (c : Console) (r : Option (Bool × Console)) : Type 0 where
  after : Console
  returns : r ≡ some (not (quits cs), after)
  ids : after.client_id ≡ c.client_id + added cs
  clients : after.clients ≡ count_down after.client_id

execute-Ends :
    (cmd : Command) (cs : List Command) (c : Console) (loop : Console → Option (Bool × Console))
    → c.client_id + 1 < 2 ^ 64
    → c.clients ≡ count_down c.client_id
    → ((c' : Console)
        → c'.client_id ≤ c.client_id + 1
        → c'.clients ≡ count_down c'.client_id
        → Ends cs c' (loop c'))
    → Ends (cmd ∷ cs) c (let r = execute cmd c in if r.0 then loop r.1 else some r)
unfolding execute
execute-Ends quit cs c loop fits known rest = record {
  after = _;
  returns = refl;
  ids = omega arith;
  clients = known;
}
execute-Ends client_add cs c loop fits known rest =
    let next : add64 c.client_id 1 ≡ suc c.client_id = omega arith in
    let r = rest (execute client_add c).1 (omega arith) (rw (next, known) refl) in
    record { after = r.after; returns = r.returns; ids = omega (arith, r.ids); clients = r.clients }
execute-Ends client_stop cs c loop fits known rest =
    let r = rest (execute client_stop c).1 (omega arith) known in
    record { after = r.after; returns = r.returns; ids = r.ids; clients = r.clients }
execute-Ends other cs c loop fits known rest =
    let r = rest c (omega arith) known in
    record { after = r.after; returns = r.returns; ids = r.ids; clients = r.clients }

main_loop-Ends :
    (lines : List Text) (c : Console)
    → All (λ line. length line < 2 ^ 63) lines
    → c.client_id + length lines < 2 ^ 64
    → c.clients ≡ count_down c.client_id
    → Ends (map read_command lines) c (main_loop lines c)
unfolding main_loop
main_loop-Ends [] c h fits known = record {
  after = c;
  returns = refl;
  ids = omega arith;
  clients = known;
}
main_loop-Ends (line ∷ lines) c h fits known = rw (on_line_lem line c h.0) (
    execute-Ends (read_command line) (map read_command lines) c (main_loop lines) (omega arith)
      known
      (λ c' (le : c'.client_id ≤ c.client_id + 1) k. main_loop-Ends lines c' h.1 (omega arith) k))

-- A session of fewer than 2^63 lines, each shorter than 2^63: `Split` comes to an end on each, the
-- loop ends exactly at the first `quit`, and the clients that it has started by then are as many as
-- there were `client_add` lines before, with the identifiers 1, 2, 3 and so on (the last one first).
pub main_loop_lem :
    (lines : List Text)
    → All (λ line. length line < 2 ^ 63) lines
    → length lines < 2 ^ 63
    → (c : Console) × (main_loop lines start ≡ some (not (quits (map read_command lines)), c))
      × (c.client_id ≡ added (map read_command lines))
      × (c.clients ≡ count_down (added (map read_command lines)))
unfolding start
main_loop_lem lines h fits =
    let r = main_loop-Ends lines start h (omega arith) refl in
    let n : r.after.client_id ≡ added (map read_command lines) = omega (arith, r.ids) in
    (r.after, r.returns, n, r.clients ∙ ap count_down n)
