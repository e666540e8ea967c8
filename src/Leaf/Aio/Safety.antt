-- ===== src/Leaf/Aio/Safety.antt =====
-- What holds of every interleaving of submissions and completions.
use thrift_bench.Prelude.{ℕ, ◌+◌, ◌≤◌, ◌≡◌, ap, ◌∙◌, true, some, List, ◌∷◌, ◌==◌, arith}
use thrift_bench.Leaf.Aio.{Io, Event, io_result}
use thrift_bench.Leaf.Aio.Inflight.{count, is}
use thrift_bench.Leaf.Aio.System.{System, complete_one, Reach}
use thrift_bench.Leaf.Aio.Invariant.{users, addresses, complete_one_lem, Reach-Inv}

-- In every state that the threads and the kernel can reach in any order, the assertions of
-- `iosCompleted` hold: the I/O of the next event is found in flight and is not fulfilled, so the
-- round goes through, and it takes that I/O and no other out of flight.
pub complete_one-Reach :
    {eventfd : ℕ} {heap : ℕ → Io} {s : System}
    → Reach eventfd heap s
    → (e : Event) (rest : List Event) → s.batch ≡ e ∷ rest
    → (t : System) × (complete_one e rest s ≡ some t)
      × (t.done ≡ (e.user, io_result e) ∷ s.done)
      × ((q : ℕ) → count q t.inflight + is q e.user ≡ count q s.inflight)
      × ((t.heap e.user).result ≡ some (io_result e))
      × ((t.heap e.user).fulfilled ≡ true)
complete_one-Reach {s = s} r e rest b =
    let v = Reach-Inv r in
    let self : e.user == e.user ≡ true = ground arith in
    let (t, ys, io, ok, shape, c, res, ful) = complete_one_lem e rest s v b in
    (
      t,
      ok,
      ap (λ t. t.done) shape,
      λ q. ap (λ t. count q t.inflight + is q e.user) shape ∙ c q,
      ap (λ t. (t.heap e.user).result) shape ∙ rw self res,
      ap (λ t. (t.heap e.user).fulfilled) shape ∙ rw self ful,
    )

-- In every state that the threads and the kernel can reach in any order, each submission of an I/O
-- is in one place: about to be entered, at the kernel, refused by `io_submit`, done by the kernel
-- and not yet fetched, fetched, or completed. The I/O is in flight if one of its submissions is in
-- any of these places but the last, and then it is there once.
pub inflight-Reach :
    {eventfd : ℕ} {heap : ℕ → Io} {s : System}
    → Reach eventfd heap s
    → (q : ℕ)
    → (count q s.pushed
        ≡ count q s.entered
          + (count q s.running
              + (count q s.refused
                  + (count q (users s.events)
                      + (count q (users s.batch) + count q (addresses s.done))))))
      × (count q s.inflight + count q (addresses s.done) ≡ count q s.pushed)
      × (count q s.inflight ≤ 1)
inflight-Reach r q =
    let v = Reach-Inv r in
    (omega (arith, v.balance q, v.owned q), omega (arith, v.balance q), omega (arith, v.once q))
