-- ===== src/DomainSocket/Session/Runs.antt =====
-- Sessions: the lines and the turns of the threads in any order.
use thrift_bench.Prelude.{
  ◌>>=◌, ℕ, ◌+◌, ◌^◌, ◌≤◌, ◌<◌, ◌≡◌, refl, ◌∙◌, inl, inr, Option, none, some, List, [], ◌∷◌,
  if◌then◌else◌, lookup, length, arith, All, Bool-cases,
}
use thrift_bench.StorageRpc.Echo.{Config}
use thrift_bench.StorageRpc.Commands.Fields.{split-fields, fields_from}
use thrift_bench.DomainSocket.Benchmark.Updates.{is_known}
use thrift_bench.DomainSocket.Session.{
  Stage, Program, start, on_line, begin_thread, turn_thread, at_thread, Event, types, begins, turns,
  handle, handle_all,
}
use thrift_bench.DomainSocket.Session.Threads.{
  is_started, Inv, Handled, on_tokens-Handled, begin_thread-Handled, turn_thread-Handled,
}

at_thread-Handled :
    (n : ℕ) (f : Stage → Program → Option Program) (o : Option Stage) (p : Program)
    → Inv p
    → p.client_id ≤ n
    → ((g : Stage) → o ≡ some g → Handled (n + 1) (f g p))
    → Handled (n + 1) (at_thread f o p)
unfolding at_thread
at_thread-Handled n f none p v le k = record {
  after = p;
  returns = refl;
  inv = v;
  ids = omega arith;
}
at_thread-Handled n f (some g) p v le k = k g refl

-- The lines are ones that `Split` can index, and the clients can connect.
abbrev pub IsOpen : Event → Type 0
IsOpen (types line) = length line < 2 ^ 63
IsOpen (begins id none sets added now) = ⊥
IsOpen (begins id (some fd) sets added now) = Unit
IsOpen (turns id t) = Unit

handle-Handled :
    (c : Config) (n : ℕ) (e : Event) (p : Program)
    → IsOpen e
    → Inv p
    → p.client_id ≤ n
    → n + 1 < 2 ^ 64
    → Handled (n + 1) (handle c e p)
unfolding handle on_line
handle-Handled c n (types line) p open_ v le fits =
    rw (split-fields line b' ' open_) (on_tokens-Handled n (fields_from b' ' [] line) p v le fits)
handle-Handled c n (begins id none sets added now) p open_ v le fits = absurd open_
handle-Handled c n (begins id (some fd) sets added now) p open_ v le fits =
    at_thread-Handled n (begin_thread (some fd) sets added now id) (lookup id p.clients) p v le
      (λ g at. begin_thread-Handled n fd sets added now id g p v le at)
handle-Handled c n (turns id t) p open_ v le fits =
    at_thread-Handled n (turn_thread c id t) (lookup id p.clients) p v le
      (λ g at. turn_thread-Handled c n id t g p v le at)

handle_all-Handled :
    (c : Config) (n : ℕ) (es : List Event) (p : Program)
    → All IsOpen es
    → Inv p
    → p.client_id ≤ n
    → n + length es < 2 ^ 64
    → Handled (n + length es) (handle_all c es p)
unfolding handle_all
handle_all-Handled c n [] p open_ v le fits = record {
  after = p;
  returns = refl;
  inv = v;
  ids = omega arith;
}
handle_all-Handled c n (e ∷ es) p open_ v le fits = elim (Bool-cases p.prompts) [
  | inl on ↦
      let h = handle-Handled c n e p open_.0 v le (omega arith) in
      let r = handle_all-Handled c (n + 1) es h.after open_.1 h.inv h.ids (omega arith) in
      record {
        after = r.after;
        returns =
            (λ i. if on i then (h.returns i >>= λ p'. handle_all c es p') else some p) ∙ r.returns;
        inv = r.inv;
        ids = omega (arith, r.ids);
      }
  | inr off ↦ record {
    after = p;
    returns = λ i. if off i then (handle c e p >>= λ p'. handle_all c es p') else some p;
    inv = v;
    ids = omega arith;
  }
]

-- A session of fewer than 2^64 steps, with lines shorter than 2^63, clients that can connect, and
-- their threads in any order, whatever the replies and the queue depth: no assertion of the collector fails and none
-- of its lookups, no identifier is given to two threads, and the collector has a client just if its
-- thread has begun.
pub handle_all-threads :
    (c : Config) (es : List Event)
    → All IsOpen es
    → length es < 2 ^ 64
    → (p : Program) × (handle_all c es start ≡ some p)
      × ((id : ℕ) → is_started (lookup id p.clients) ≡ is_known p.stats id)
      × ((id : ℕ) → p.client_id < id → lookup id p.clients ≡ none)
      × (p.client_id ≤ length es)
unfolding start lookup
handle_all-threads c es open_ fits =
    let r =
      handle_all-Handled c 0 es start open_ (record { fresh = λ id h. refl; begun = λ id. refl })
        (omega arith) (omega arith) in
    (r.after, r.returns, r.inv.begun, r.inv.fresh, omega (arith, r.ids))
