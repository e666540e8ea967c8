-- ===== src/AsyncIo/NetServer/Threads/Streams.antt =====
-- What the threads of the server have done with the bytes of their connections.
use thrift_bench.Prelude.{
  ℕ, ◌≡◌, ◌⊎◌, refl, sym, ap, ◌∙◌, inl, inr, Bool, true, false, Option, none, some, List, [], ◌∷◌,
  ◌++◌, append_assoc, ◌==◌, if◌then◌else◌, lookup, insert, lookup-insert, length, map, concat,
  concat-append, All, All-append, arith, Bool-cases,
}
use thrift_bench.AsyncIo.Request.{request_size}
use thrift_bench.AsyncIo.Request.Chunks.{Allocates, IsReady, whole, pending, on_readable}
use thrift_bench.AsyncIo.Request.Framing.{on_readable-Framed}
use thrift_bench.AsyncIo.NetServer.Echo.{echo_lem}
use thrift_bench.AsyncIo.NetServer.Threads.{
  Thread, Event, accepts, arrives, reads, ends, read_thread,
}

-- The thread has written back the bytes of its connection in whole requests, but for those that are
-- pending or not yet read.
pub record Echoes (t : Thread) (bytes : List ℕ) : Type 0 where
  pub ready : IsReady t.callback
  pub size : t.callback.req_size ≡ request_size
  pub blocks : All (λ b. length b ≡ request_size) t.state.wire
  pub in_order : concat t.state.wire ++ (pending t.callback ++ t.stream) ≡ bytes

-- What has arrived on a descriptor since it was last accepted, until its connection ends.
abbrev pub add_bytes : List ℕ → Option (List ℕ) → Option (List ℕ)
add_bytes bytes none = none
add_bytes bytes (some bs) = some (bs ++ bytes)

abbrev pub received_one : (fd : ℕ) → Event → Option (List ℕ) → Option (List ℕ)
received_one fd (accepts g) acc = if g == fd then some [] else acc
received_one fd (arrives g bytes) acc = if g == fd then add_bytes bytes acc else acc
received_one fd (reads g k) acc = acc
received_one fd (ends g) acc = if g == fd then none else acc

abbrev pub received : (fd : ℕ) → List Event → Option (List ℕ) → Option (List ℕ)
received fd [] acc = acc
received fd (e ∷ es) acc = received fd es (received_one fd e acc)

abbrev pub Fits : Option Thread → Option (List ℕ) → Type 0
Fits o b =
    ((o ≡ none) × (b ≡ none))
    ⊎ ((t : Thread) × (bytes : List ℕ) × (o ≡ some t) × (b ≡ some bytes) × Echoes t bytes)

-- A new thread for a descriptor, and the others as they were.
pub insert-Fits :
    (fd : ℕ) (t : Thread) (bytes : List ℕ) (threads : List (ℕ × Thread))
    (before after : ℕ → Option (List ℕ))
    → Echoes t bytes
    → after fd ≡ some bytes
    → ((q : ℕ) → fd == q ≡ false → after q ≡ before q)
    → ((q : ℕ) → Fits (lookup q threads) (before q))
    → (q : ℕ) → Fits (lookup q (insert fd t threads)) (after q)
insert-Fits fd t bytes threads before after h here others fits q = elim (Bool-cases (fd == q)) [
  | inl same ↦
      let e : fd ≡ q = ground (arith, same) in
      inr (
        t,
        bytes,
        lookup-insert fd q t threads ∙ (λ i. if same i then some t else lookup q threads),
        ap after (sym e) ∙ here,
        h,
      )
  | inr apart ↦
      let keeps : lookup q (insert fd t threads) ≡ lookup q threads =
        lookup-insert fd q t threads ∙ (λ i. if apart i then some t else lookup q threads) in
      elim (fits q) [
        | inl (no_thread, no_bytes) ↦ inl (keeps ∙ no_thread, others q apart ∙ no_bytes)
        | inr (u, bs, at, there, k) ↦ inr (u, bs, keeps ∙ at, others q apart ∙ there, k)
      ]
]

module _ (malloc : ℕ → Option (List ℕ)) (cloexec : ℕ → Bool) (allocates : Allocates malloc)
    (closes : (fd : ℕ) → cloexec fd ≡ true) where
  pub record Read (bytes : List ℕ) (r : Option Thread) : Type 0 where
    pub after : Thread
    pub returns : r ≡ some after
    pub echoes : Echoes after bytes

  pub read_thread-Read :
      (k : ℕ) (t : Thread) (bytes : List ℕ)
      → Echoes t bytes
      → Read bytes (read_thread malloc cloexec k t)
  unfolding read_thread
  read_thread-Read k t bytes h =
      let f = on_readable-Framed malloc allocates k t.stream t.callback h.ready in
      let all : All (λ b. length b ≡ request_size) f.frames = rw h.size at f.whole_size in
      let (c, echoed, wire, live) = echo_lem f.frames t.state all in
      let cut : on_readable malloc k t.stream t.callback
          ≡ some (f.after, map (whole request_size) f.frames, f.rest) =
        f.returns ∙ ap (λ n. some (f.after, map (whole n) f.frames, f.rest)) h.size in
      record {
        after = record { stream = f.rest; callback = f.after; state = c };
        returns = rw cut (rw echoed refl);
        echoes = record {
          ready = f.ready;
          size = f.same_size ∙ h.size;
          blocks = rw wire (All-append _ t.state.wire f.frames h.blocks all);
          in_order =
              ap (λ w. concat w ++ (pending f.after ++ f.rest)) wire
              ∙ ap (λ l. l ++ (pending f.after ++ f.rest)) (concat-append t.state.wire f.frames)
              ∙ append_assoc (concat t.state.wire) (concat f.frames) (pending f.after ++ f.rest)
              ∙ ap (λ l. concat t.state.wire ++ l) f.in_order
              ∙ h.in_order;
        };
      }
