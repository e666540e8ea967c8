-- ===== src/AsyncIo/NetServer/Threads/Runs.antt =====
-- The server's threads in any order of their steps.
use thrift_bench.Prelude.{
  ℕ, ◌≡◌, refl, sym, ap, ◌∙◌, inl, inr, Bool, true, false, Option, none, some, List, [], ◌∷◌, ◌++◌,
  append_assoc, ◌==◌, if◌then◌else◌, lookup, insert, erase, lookup-erase, Distinct, insert-Distinct,
  erase-Distinct, concat, arith, Bool-cases,
}
use mathlib.Core.Path.{subst}
use thrift_bench.AsyncIo.Request.{new_callback, read_eof, register_read_callback}
use thrift_bench.AsyncIo.Request.Chunks.{Allocates, pending}
use thrift_bench.AsyncIo.NetServer.{fresh, connection_accepted}
use thrift_bench.AsyncIo.NetServer.Threads.{
  Thread, Event, accepts, arrives, reads, ends, end_at, accept, arrive_at, read_at, handle,
  handle_all,
}
use thrift_bench.AsyncIo.NetServer.Threads.Streams.{
  add_bytes, received_one, received, Fits, insert-Fits, read_thread-Read,
}

module _ (malloc : ℕ → Option (List ℕ)) (cloexec : ℕ → Bool) (allocates : Allocates malloc)
    (closes : (fd : ℕ) → cloexec fd ≡ true) where
  record Handled (after_bytes : ℕ → Option (List ℕ)) (r : Option (List (ℕ × Thread))) : Type 0 where
    after : List (ℕ × Thread)
    returns : r ≡ some after
    fits : (q : ℕ) → Fits (lookup q after) (after_bytes q)
    distinct : Distinct after

  accept-Handled :
      (fd : ℕ) (threads : List (ℕ × Thread)) (acc : ℕ → Option (List ℕ))
      → ((q : ℕ) → Fits (lookup q threads) (acc q))
      → Distinct threads
      → Handled
          (λ q. received_one q (accepts fd) (acc q))
          (handle malloc cloexec (accepts fd) threads)
  unfolding handle accept connection_accepted new_callback fresh register_read_callback
  accept-Handled fd threads acc fits d =
      let t : Thread = record {
        stream = [];
        callback = record {
          req_size = 4096;
          raw_bufp = none;
          bytes_read = 0;
          registered = true;
          terminated = false;
        };
        state = fresh;
      } in
      let self : fd == fd ≡ true = ground arith in
      record {
        after = insert fd t threads;
        returns = rw (closes fd) refl;
        fits =
            insert-Fits fd t [] threads acc (λ q. received_one q (accepts fd) (acc q))
              (record {
                ready = record {
                  connected = refl;
                  room = omega arith;
                  small = omega arith;
                  block = refl;
                };
                size = refl;
                blocks = tt;
                in_order = refl;
              })
              (λ i. if self i then some [] else acc fd)
              (λ q apart i. if apart i then some [] else acc q) fits;
        distinct = insert-Distinct fd t threads d;
      }

  ends-Handled :
      (fd : ℕ) (threads : List (ℕ × Thread)) (acc : ℕ → Option (List ℕ))
      → ((q : ℕ) → Fits (lookup q threads) (acc q))
      → Distinct threads
      → Handled (λ q. received_one q (ends fd) (acc q)) (handle malloc cloexec (ends fd) threads)
  unfolding handle end_at read_eof
  ends-Handled fd threads acc fits d = elim (fits fd) [
    | inl (no_thread, no_bytes) ↦ record {
      after = threads;
      returns = rw no_thread refl;
      fits = λ q. elim (Bool-cases (fd == q)) [
        | inl same ↦
            let e : fd ≡ q = ground (arith, same) in
            inl
              (ap (λ k. lookup k threads) (sym e) ∙ no_thread, λ i. if same i then none else acc q)
        | inr apart ↦
            subst (Fits (lookup q threads)) (λ i. if sym apart i then none else acc q) (fits q)
      ];
      distinct = d;
    }
    | inr (t, bs, at, there, h) ↦ record {
      after = erase fd threads;
      returns = ap (λ o. some (end_at malloc cloexec fd o threads)) at;
      fits = λ q. elim (Bool-cases (fd == q)) [
        | inl same ↦ inl (
          lookup-erase fd q threads d ∙ (λ i. if same i then none else lookup q threads),
          λ i. if same i then none else acc q,
        )
        | inr apart ↦
            let keeps : lookup q (erase fd threads) ≡ lookup q threads =
              lookup-erase fd q threads d ∙ (λ i. if apart i then none else lookup q threads) in
            subst (λ o. Fits o (if fd == q then none else acc q)) (sym keeps)
              (subst (Fits (lookup q threads)) (λ i. if sym apart i then none else acc q) (fits q))
      ];
      distinct = erase-Distinct fd threads d;
    }
  ]

  handle-Handled :
      (e : Event) (threads : List (ℕ × Thread)) (acc : ℕ → Option (List ℕ))
      → ((q : ℕ) → Fits (lookup q threads) (acc q))
      → Distinct threads
      → Handled (λ q. received_one q e (acc q)) (handle malloc cloexec e threads)
  unfolding handle arrive_at read_at
  handle-Handled (accepts fd) threads acc fits d = accept-Handled fd threads acc fits d
  handle-Handled (arrives fd bytes) threads acc fits d = elim (fits fd) [
    | inl (no_thread, no_bytes) ↦ record {
      after = threads;
      returns = rw no_thread refl;
      fits = λ q. elim (Bool-cases (fd == q)) [
        | inl same ↦
            let e : fd ≡ q = ground (arith, same) in
            inl (
              ap (λ k. lookup k threads) (sym e) ∙ no_thread,
              (λ i. if same i then add_bytes bytes (acc q) else acc q)
                  ∙ ap (add_bytes bytes) (ap acc (sym e) ∙ no_bytes),
            )
        | inr apart ↦
            subst (Fits (lookup q threads))
              (λ i. if sym apart i then add_bytes bytes (acc q) else acc q) (fits q)
      ];
      distinct = d;
    }
    | inr (t, bs, at, there, h) ↦
        let self : fd == fd ≡ true = ground arith in
        let t' : Thread = record t { stream = t.stream ++ bytes } in
        record {
          after = insert fd t' threads;
          returns = ap (λ o. some (arrive_at malloc cloexec fd bytes o threads)) at;
          fits =
              insert-Fits fd t' (bs ++ bytes) threads acc
                (λ q. received_one q (arrives fd bytes) (acc q))
                (record {
                  ready = h.ready;
                  size = h.size;
                  blocks = h.blocks;
                  in_order =
                      ap (λ l. concat t.state.wire ++ l)
                        (sym (append_assoc (pending t.callback) t.stream bytes))
                      ∙ sym (
                          append_assoc (concat t.state.wire) (pending t.callback ++ t.stream) bytes)
                      ∙ ap (λ l. l ++ bytes) h.in_order;
                })
                (λ i. if self i then add_bytes bytes (there i) else acc fd)
                (λ q apart i. if apart i then add_bytes bytes (acc q) else acc q) fits;
          distinct = insert-Distinct fd t' threads d;
        }
  ]
  handle-Handled (reads fd k) threads acc fits d = elim (fits fd) [
    | inl (no_thread, no_bytes) ↦ record {
      after = threads;
      returns = rw no_thread refl;
      fits = fits;
      distinct = d;
    }
    | inr (t, bs, at, there, h) ↦
        let r = read_thread-Read malloc cloexec allocates closes k t bs h in
        record {
          after = insert fd r.after threads;
          returns = ap (λ o. read_at malloc cloexec fd k o threads) at ∙ rw r.returns refl;
          fits = insert-Fits fd r.after bs threads acc acc r.echoes there (λ q apart. refl) fits;
          distinct = insert-Distinct fd r.after threads d;
        }
  ]
  handle-Handled (ends fd) threads acc fits d = ends-Handled fd threads acc fits d

  handle_all-Handled :
      (es : List Event) (threads : List (ℕ × Thread)) (acc : ℕ → Option (List ℕ))
      → ((q : ℕ) → Fits (lookup q threads) (acc q))
      → Distinct threads
      → Handled (λ q. received q es (acc q)) (handle_all malloc cloexec es threads)
  unfolding handle_all
  handle_all-Handled [] threads acc fits d = record {
    after = threads;
    returns = refl;
    fits = fits;
    distinct = d;
  }
  handle_all-Handled (e ∷ es) threads acc fits d =
      let h = handle-Handled e threads acc fits d in
      let r = handle_all-Handled es h.after (λ q. received_one q e (acc q)) h.fits h.distinct in
      record {
        after = r.after;
        returns = rw h.returns r.returns;
        fits = r.fits;
        distinct = r.distinct;
      }

  -- A server where `malloc` has memory and `fcntl` succeeds, after any connections, bytes that arrive
  -- on them in pieces of any sizes, readings and ends, in any order: no assertion has failed, there is
  -- a thread just for the connections that were accepted and have not ended, and each has written back the bytes that
  -- arrived on its own connection, in order and unchanged, in whole requests, but for the last ones,
  -- which are pending or not yet read.
  pub handle_all-streams :
      (es : List Event)
      → (threads : List (ℕ × Thread)) × (handle_all malloc cloexec es [] ≡ some threads)
        × ((fd : ℕ) → Fits (lookup fd threads) (received fd es none))
  unfolding lookup
  handle_all-streams es =
      let r = handle_all-Handled es [] (λ q. none) (λ q. inl (refl, refl)) tt in
      (r.after, r.returns, r.fits)
