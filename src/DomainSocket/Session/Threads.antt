-- ===== src/DomainSocket/Session/Threads.antt =====
-- The threads of a session and the collector.
use thrift_bench.Prelude.{
  ℕ, ◌+◌, ◌^◌, ◌≤◌, ◌<◌, ◌≡◌, refl, sym, ap, ◌∙◌, inl, inr, Bool, true, false, not, Option, none,
  some, List, [], ◌∷◌, ◌==◌, lookup, insert, lookup-insert, add64, arith, Bool-cases, Option-cases,
}
use mathlib.Core.Option.{none-ne-some}
use mathlib.Core.Bool.{true≢false}
use thrift_bench.Prelude.Text.{Text}
use thrift_bench.StorageRpc.Stats.{Collector, client_add-new, is_none, new_stats}
use thrift_bench.StorageRpc.Echo.{Config}
use thrift_bench.StorageRpc.Commands.{
  Command, quit, client_add as add_command, client_stop, other, command_of,
}
use thrift_bench.DomainSocket.Socket.{Setting, create_async_rpc_client}
use thrift_bench.DomainSocket.Benchmark.{Turn, start_loop, going, future_send_no_data}
use thrift_bench.DomainSocket.Benchmark.Updates.{is_known, turn-Updates}
use thrift_bench.DomainSocket.Session.{
  Stage, created, looping, ended, Program, execute, on_tokens, begin_thread, turn_thread,
}

abbrev pub is_started : Option Stage → Bool
is_started none = false
is_started (some created) = false
is_started (some (looping l)) = true
is_started (some ended) = true

-- No thread has an identifier that is not yet given, and the collector has the threads that have
-- begun.
pub record Inv (p : Program) : Type 0 where
  pub fresh : (id : ℕ) → p.client_id < id → lookup id p.clients ≡ none
  pub begun : (id : ℕ) → is_started (lookup id p.clients) ≡ is_known p.stats id

pub record Handled (n : ℕ) (r : Option Program) : Type 0 where
  pub after : Program
  pub returns : r ≡ some after
  pub inv : Inv after
  pub ids : after.client_id ≤ n

is_known-none : (stats : Collector) (id : ℕ) → lookup id stats ≡ none → is_known stats id ≡ false
is_known-none stats id e = rw e refl

-- A thread in another stage.
put-Inv :
    (p : Program) (id : ℕ) (g g' : Stage) (stats : Collector)
    → Inv p
    → lookup id p.clients ≡ some g
    → is_known stats id ≡ is_started (some g')
    → ((q : ℕ) → id == q ≡ false → is_known stats q ≡ is_known p.stats q)
    → Inv (record p { clients = insert id g' p.clients; stats = stats })
put-Inv p id g g' stats v at here others = record {
  fresh = λ q new. elim (Bool-cases (id == q)) [
    | inl same ↦
        let e : id ≡ q = ground (arith, same) in
        absurd (none-ne-some g (sym (v.fresh id (omega (arith, new, e))) ∙ at))
    | inr apart ↦ rw (lookup-insert id q g' p.clients, apart) (v.fresh q new)
  ];
  begun = λ q. elim (Bool-cases (id == q)) [
    | inl same ↦
        let e : id ≡ q = ground (arith, same) in
        rw (lookup-insert id q g' p.clients, same) (sym here ∙ ap (is_known stats) e)
    | inr apart ↦ rw (lookup-insert id q g' p.clients, apart) (v.begun q ∙ sym (others q apart))
  ];
}

execute-Handled :
    (n : ℕ) (cmd : Command) (p : Program)
    → Inv p
    → p.client_id ≤ n
    → n + 1 < 2 ^ 64
    → Handled (n + 1) (execute cmd p)
unfolding execute
execute-Handled n quit p v le fits = record {
  after = record p { prompts = false };
  returns = refl;
  inv = record { fresh = v.fresh; begun = v.begun };
  ids = omega arith;
}
execute-Handled n add_command p v le fits =
    let id = add64 p.client_id 1 in
    let next : id ≡ p.client_id + 1 = omega arith in
    let none_there = v.fresh id (omega (arith, next)) in
    record {
      after = record p { client_id = id; clients = insert id created p.clients };
      returns = rw none_there refl;
      inv = record {
        fresh = λ q new.
            let apart : id == q ≡ false = ground (arith, new) in
            rw (lookup-insert id q created p.clients, apart) (v.fresh q (omega (arith, new, next)));
        begun = λ q. elim (Bool-cases (id == q)) [
          | inl same ↦
              let e : id ≡ q = ground (arith, same) in
              rw (lookup-insert id q created p.clients, same)
                (ap is_started (sym (ap (λ k. lookup k p.clients) (sym e) ∙ none_there))
                  ∙ v.begun q)
          | inr apart ↦ rw (lookup-insert id q created p.clients, apart) (v.begun q)
        ];
      };
      ids = omega (arith, next);
    }
execute-Handled n client_stop p v le fits = record {
  after = p;
  returns = refl;
  inv = v;
  ids = omega arith;
}
execute-Handled n other p v le fits = record {
  after = p;
  returns = refl;
  inv = v;
  ids = omega arith;
}

pub on_tokens-Handled :
    (n : ℕ) (tokens : List Text) (p : Program)
    → Inv p
    → p.client_id ≤ n
    → n + 1 < 2 ^ 64
    → Handled (n + 1) (on_tokens tokens p)
unfolding on_tokens
on_tokens-Handled n [] p v le fits = record {
  after = p;
  returns = refl;
  inv = v;
  ids = omega arith;
}
on_tokens-Handled n (cmd ∷ rest) p v le fits = execute-Handled n (command_of cmd) p v le fits

pub begin_thread-Handled :
    (n fd : ℕ) (sets : Setting → Bool) (added now id : ℕ) (g : Stage) (p : Program)
    → Inv p
    → p.client_id ≤ n
    → lookup id p.clients ≡ some g
    → Handled (n + 1) (begin_thread (some fd) sets added now id g p)
unfolding begin_thread create_async_rpc_client
begin_thread-Handled n fd sets added now id created p v le at =
    let waits : is_known p.stats id ≡ false = sym (v.begun id) ∙ ap is_started at in
    elim (Option-cases (lookup id p.stats)) [
      | inl new ↦ record {
        after = record p {
          clients = insert id (looping (start_loop now)) p.clients;
          stats = insert id (new_stats added) p.stats;
        };
        returns = rw (client_add-new added id p.stats new) refl;
        inv =
            put-Inv p id created (looping (start_loop now)) (insert id (new_stats added) p.stats) v
              at
              (let self : id == id ≡ true = ground arith in
                rw (lookup-insert id id (new_stats added) p.stats, self) refl)
              (λ q apart. rw (lookup-insert id q (new_stats added) p.stats, apart) refl);
        ids = omega arith;
      }
      | inr (s, e) ↦ absurd (true≢false (ap (λ o. not (is_none o)) (sym e) ∙ waits))
    ]
begin_thread-Handled n fd sets added now id (looping l) p v le at = record {
  after = p;
  returns = refl;
  inv = v;
  ids = omega arith;
}
begin_thread-Handled n fd sets added now id ended p v le at = record {
  after = p;
  returns = refl;
  inv = v;
  ids = omega arith;
}

pub turn_thread-Handled :
    (c : Config) (n id : ℕ) (t : Turn) (g : Stage) (p : Program)
    → Inv p
    → p.client_id ≤ n
    → lookup id p.clients ≡ some g
    → Handled (n + 1) (turn_thread c id t g p)
unfolding turn_thread
turn_thread-Handled c n id t created p v le at = record {
  after = p;
  returns = refl;
  inv = v;
  ids = omega arith;
}
turn_thread-Handled c n id t (looping l) p v le at =
    let begun : is_known p.stats id ≡ true = sym (v.begun id) ∙ ap is_started at in
    elim (Bool-cases (going c l)) [
      | inl go ↦ elim (Option-cases (lookup id p.stats)) [
        | inl missing ↦ absurd (true≢false (sym begun ∙ is_known-none p.stats id missing))
        | inr (s, e) ↦
            let u = turn-Updates c future_send_no_data id t p.stats l s e in
            record {
              after = record p { clients = insert id (looping u.loop) p.clients; stats = u.after };
              returns = rw (go, u.returns) refl;
              inv =
                  put-Inv p id (looping l) (looping u.loop) u.after v at (u.same id ∙ begun)
                    (λ q apart. u.same q);
              ids = omega arith;
            }
      ]
      | inr stop ↦ record {
        after = record p { clients = insert id ended p.clients };
        returns = rw stop refl;
        inv = put-Inv p id (looping l) ended p.stats v at begun (λ q apart. refl);
        ids = omega arith;
      }
    ]
turn_thread-Handled c n id t ended p v le at = record {
  after = p;
  returns = refl;
  inv = v;
  ids = omega arith;
}
