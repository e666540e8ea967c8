-- ===== src/DbServer/Handler/Rounds.antt =====
-- The reads go round the leafs.
use thrift_bench.Prelude.{
  ℕ, ◌+◌, ◌^◌, ◌%◌, ◌≤◌, ◌<◌, ◌≡◌, refl, some, List, [], ◌∷◌, ◌++◌, length, arith, All, inr,
}
use thrift_bench.Prelude.Text.{Text}
use thrift_bench.DbServer.Handler.{
  Leaf, Db, start_db, async_tm_read, read_task, Event, handle_all, new_leaf,
}
use thrift_bench.DbServer.Handler.Safety.{handle_all-Handled, get_leaf-Inv, reads}
use thrift_bench.DbServer.Handler.Leafs.{IsConsistent}

-- The leafs that `main` makes of addresses and ports.
unfoldable pub leafs_of : List (Text × ℕ) → List Leaf
unfolding new_leaf
leafs_of [] = []
leafs_of (a ∷ as_) = new_leaf a.0 a.1 ∷ leafs_of as_

pub leafs_of-Consistent :
    (as_ : List (Text × ℕ)) → All IsConsistent (leafs_of as_) × (length (leafs_of as_) ≡ length as_)
unfolding leafs_of
leafs_of-Consistent [] = (tt, refl)
leafs_of-Consistent (a ∷ as_) =
    let r = leafs_of-Consistent as_ in ((inr (refl, refl), r.0), omega (arith, r.1))

-- A server with at least one leaf and fewer than 2^32, after any sequence of reads and writes that
-- arrive, lambdas that the event base runs, replies and closed channels. No assertion has failed,
-- each leaf has a client just if it is connected, and the next read is queued for the leaf whose
-- number is one more than the number of reads so far, modulo the number of leafs.
pub handle_all-rounds :
    (as_ : List (Text × ℕ)) (es : List Event) (now cb request_id : ℕ) (filename : Text) (size : ℕ)
    → 1 ≤ length as_
    → length as_ < 2 ^ 32
    → (db : Db) × (handle_all es (start_db (leafs_of as_)) ≡ some db)
      × All IsConsistent db.leafs
      × (length db.leafs ≡ length as_)
      × (async_tm_read now cb request_id filename size db
          ≡ some (record db {
            cur_leaf = (reads es 0 + 1) % length as_;
            queue =
                db.queue
                ++ read_task cb request_id filename size ((reads es 0 + 1) % length as_) now ∷ [];
          }))
unfolding async_tm_read start_db leafs_of
handle_all-rounds as_ es now cb request_id filename size pos small =
    let (consistent, count) = leafs_of-Consistent as_ in
    let h =
      handle_all-Handled (length as_) 0 es (start_db (leafs_of as_)) pos small
        (record { consistent = consistent; size = count; cur = omega (arith, pos); tasks = tt }) in
    (
      h.after,
      h.returns,
      h.inv.consistent,
      h.inv.size,
      rw (get_leaf-Inv (length as_) (reads es 0) h.after pos small h.inv) refl,
    )
