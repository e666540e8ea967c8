-- ===== src/AsyncIo/NetClient/Writes/Late.antt =====
-- When a write callback outlives its frame.
use thrift_bench.Prelude.{
  ℕ, suc, ◌+◌, ◌≡◌, refl, ap, ◌∙◌, true, false, Option, none, some, List, [], ◌∷◌, ◌++◌, ◌>>=◌,
  ◌==◌, length, length-append, arith,
}
use thrift_bench.AsyncIo.NetClient.Writes.{
  Writes, new_writes, request_sent, write_success, write, send_write, written, Event, sends, writes,
  handle, handle_all,
}

-- The requests allocated at the end, the newest first, where the first `n` requests are sent before
-- these events and the socket has kept the writes of `held`: each that it keeps adds the number of its
-- request. `none` is where it writes one of them later.
abbrev pub allocated : (n : ℕ) (held : List ℕ) → List Event → Option (List ℕ)
allocated n held [] = some held
allocated n held (sends true ∷ es) = allocated (n + 1) held es
allocated n held (sends false ∷ es) = allocated (n + 1) ((n + 1) ∷ held) es
allocated n [] (writes ∷ es) = allocated n [] es
allocated n (id ∷ held) (writes ∷ es) = none

-- Between the events no callback is alive, and what is allocated is what the socket keeps.
record Idle (n : ℕ) (held : List ℕ) (w : Writes) : Type 0 where
  numbered : w.next ≡ n + 1
  none_live : w.live ≡ []
  requests : w.requests ≡ held
  pending : length w.pending ≡ length held

abbrev pub requests_of : Option Writes → Option (List ℕ)
requests_of o = o >>= λ w. some w.requests

written-none : (w : Writes) (ids : List ℕ) → length ids ≡ 0 → written ids w ≡ some w
unfolding written
written-none w [] e = refl
written-none w (id ∷ ids) e = absurd (omega arith)

-- The callback is no longer there.
written-dead :
    (w : Writes) (ids : List ℕ) (n : ℕ) → length ids ≡ suc n → w.live ≡ [] → written ids w ≡ none
unfolding written write_success
written-dead w [] n e dead = absurd (omega arith)
written-dead w (id ∷ ids) n e dead = rw dead refl

send_write-once :
    (n : ℕ) (held : List ℕ) (w : Writes)
    → Idle n held w
    → (w' : Writes) × (send_write true w ≡ some w') × Idle (n + 1) held w'
unfolding send_write write write_success request_sent
send_write-once n held w i =
    let self : w.next == w.next ≡ true = ground arith in
    (
      record w { next = w.next + 1; live = [] },
      simp self refl,
      record {
        numbered = omega (arith, i.numbered);
        none_live = refl;
        requests = i.requests;
        pending = i.pending;
      },
    )

send_write-later :
    (n : ℕ) (held : List ℕ) (w : Writes)
    → Idle n held w
    → (w' : Writes) × (send_write false w ≡ some w') × Idle (n + 1) ((n + 1) ∷ held) w'
unfolding send_write write
send_write-later n held w i = (
  record {
    next = w.next + 1;
    live = [];
    requests = w.next ∷ w.requests;
    pending = w.pending ++ w.next ∷ [];
  },
  refl,
  record {
    numbered = omega (arith, i.numbered);
    none_live = refl;
    requests = λ k. i.numbered k ∷ i.requests k;
    pending = omega (arith, i.pending, length-append w.pending (w.next ∷ []));
  },
)

handle_all-Idle :
    (es : List Event) (n : ℕ) (held : List ℕ) (w : Writes)
    → Idle n held w
    → requests_of (handle_all es w) ≡ allocated n held es
unfolding handle_all handle
handle_all-Idle [] n held w i = ap some i.requests
handle_all-Idle (sends true ∷ es) n held w i =
    let (w', returns, i') = send_write-once n held w i in
    ap (λ o. requests_of (o >>= handle_all es)) returns ∙ handle_all-Idle es (n + 1) held w' i'
handle_all-Idle (sends false ∷ es) n held w i =
    let (w', returns, i') = send_write-later n held w i in
    ap (λ o. requests_of (o >>= handle_all es)) returns
    ∙ handle_all-Idle es (n + 1) ((n + 1) ∷ held) w' i'
handle_all-Idle (writes ∷ es) n [] w i =
    rw (written-none w w.pending i.pending) (handle_all-Idle es n [] w i)
handle_all-Idle (writes ∷ es) n (id ∷ held) w i =
    rw (written-dead w w.pending (length held) i.pending i.none_live) refl

-- For any requests that are sent, each written at once or kept by the socket, and any writes that the
-- socket finishes later: a callback is called after its end just where the socket finishes a write
-- that it has kept, since it ends with the loop's body. Otherwise no request is deleted that is not
-- there, and the requests still allocated are exactly those whose writes were kept, by the numbers
-- that count the requests from 1: each request that was written at once is deleted.
pub handle_all-allocated :
    (es : List Event) → requests_of (handle_all es new_writes) ≡ allocated 0 [] es
unfolding new_writes
handle_all-allocated es =
    handle_all-Idle es 0 [] new_writes
      (record { numbered = refl; none_live = refl; requests = refl; pending = refl })
