-- ===== src/DbServer/Handler/Safety.antt =====
-- No assertion of the handler fails.
use thrift_bench.Prelude.{
  ℕ, ◌+◌, ◌^◌, ◌%◌, ◌≤◌, ◌<◌, ◌≡◌, refl, ◌∙◌, false, Option, some, List, [], ◌∷◌, ◌++◌, ◌==◌,
  length, set, add32, map, arith, All, All-append,
}
use native.Mathlib.Nat.{mod-lt, mod-add-mod}
use thrift_bench.DbServer.Handler.{
  Task, write_task, read_task, Db, get_leaf, async_tm_write, async_tm_read, run_task, run_next,
  run_queue, on_collected, on_read, disconnect_at, Event, write, read, run, collected, read_replied,
  closed, handle, handle_all, future_write, future_read,
}
use thrift_bench.DbServer.Handler.Leafs.{
  InRange, Inv, connection-Connected, connect_all-ConnectedAll, get_elem?-Some, set-Consistent,
  disconnect_at-Consistent,
}

-- The state that a handler leaves.
pub record Handled (n r : ℕ) (o : Option Db) : Type 0 where
  pub after : Db
  pub returns : o ≡ some after
  pub inv : Inv n r after

run_task-Handled :
    (n r : ℕ) (t : Task) (db : Db) → InRange n t → Inv n r db → Handled n r (run_task t db)
unfolding run_task
run_task-Handled n r (write_task cb filename data_) db range v =
    let c = connect_all-ConnectedAll db.sockets db.leafs v.consistent in
    record {
      after = record db {
        leafs = c.leafs;
        sockets = c.sockets;
        calls = db.calls ++ map (λ k. future_write k cb filename data_) c.clients;
      };
      returns = rw c.returns refl;
      inv = record { consistent = c.holds; size = c.size ∙ v.size; cur = v.cur; tasks = v.tasks };
    }
run_task-Handled n r (read_task cb request_id filename size leaf s) db range v =
    let (l, found, holds) = get_elem?-Some leaf db.leafs (omega (arith, v.size)) v.consistent in
    let c = connection-Connected db.sockets l holds in
    let w = set-Consistent leaf c.leaf db.leafs c.holds v.consistent in
    record {
      after = record db {
        leafs = set db.leafs leaf c.leaf;
        sockets = c.sockets';
        calls = db.calls ++ future_read c.clientp cb request_id filename size s ∷ [];
      };
      returns = rw found (rw c.returns refl);
      inv = record { consistent = w.0; size = w.1 ∙ v.size; cur = v.cur; tasks = v.tasks };
    }

run_next-Handled :
    (n r : ℕ) (q : List Task) (db : Db)
    → All (InRange n) q
    → Inv n r db
    → Handled n r (run_next q db)
unfolding run_next
run_next-Handled n r [] db tasks v = record { after = db; returns = refl; inv = v }
run_next-Handled n r (t ∷ ts) db tasks v =
    run_task-Handled n r t (record db { queue = ts }) tasks.0
      (record { consistent = v.consistent; size = v.size; cur = v.cur; tasks = tasks.1 })

-- The leaf of the next read.
pub get_leaf-Inv :
    (n r : ℕ) (db : Db)
    → 1 ≤ n
    → n < 2 ^ 32
    → Inv n r db
    → get_leaf db ≡ some ((r + 1) % n, record db { cur_leaf = (r + 1) % n })
unfolding get_leaf
get_leaf-Inv n r db pos small v =
    let some_leaf : length db.leafs == 0 ≡ false = ground (arith, v.size) in
    let below = mod-lt r {m = n} (omega arith) in
    let unwrapped : add32 db.cur_leaf 1 ≡ r % n + 1 = omega (arith, v.cur, below) in
    rw (some_leaf, unwrapped, v.size, mod-add-mod r n 1) refl

bump : Event → ℕ → ℕ
bump (write cb filename data_) r = r
bump (read now cb request_id filename size) r = r + 1
bump run r = r
bump (collected cb) r = r
bump (read_replied now cb request_id s d) r = r
bump (closed leaf) r = r

-- The reads among the events, onto `r`.
pub reads : List Event → ℕ → ℕ
unfolding bump
reads [] r = r
reads (e ∷ es) r = reads es (bump e r)

handle-Handled :
    (n r : ℕ) (e : Event) (db : Db)
    → 1 ≤ n
    → n < 2 ^ 32
    → Inv n r db
    → Handled n (bump e r) (handle e db)
unfolding handle bump run_queue on_collected
handle-Handled n r (write cb filename data_) db pos small v = record {
  after = async_tm_write cb filename data_ db;
  returns = refl;
  inv = record {
    consistent = v.consistent;
    size = v.size;
    cur = v.cur;
    tasks = All-append _ db.queue (write_task cb filename data_ ∷ []) v.tasks (tt, tt);
  };
}
handle-Handled n r (read now cb request_id filename size) db pos small v =
    let next = (r + 1) % n in
    let task = read_task cb request_id filename size next now in
    record {
      after = record db { cur_leaf = next; queue = db.queue ++ task ∷ [] };
      returns = rw (get_leaf-Inv n r db pos small v, async_tm_read) refl;
      inv = record {
        consistent = v.consistent;
        size = v.size;
        cur = refl;
        tasks =
            All-append _ db.queue (task ∷ []) v.tasks (mod-lt (r + 1) {m = n} (omega arith), tt);
      };
    }
handle-Handled n r run db pos small v = run_next-Handled n r db.queue db v.tasks v
handle-Handled n r (collected cb) db pos small v = record {
  after = on_collected cb db;
  returns = refl;
  inv = record { consistent = v.consistent; size = v.size; cur = v.cur; tasks = v.tasks };
}
handle-Handled n r (read_replied now cb request_id s d) db pos small v = record {
  after = on_read now cb request_id s d db;
  returns = refl;
  inv = record { consistent = v.consistent; size = v.size; cur = v.cur; tasks = v.tasks };
}
handle-Handled n r (closed leaf) db pos small v =
    let d = disconnect_at-Consistent leaf db.leafs v.consistent in
    record {
      after = record db { leafs = disconnect_at leaf db.leafs };
      returns = refl;
      inv = record { consistent = d.0; size = d.1 ∙ v.size; cur = v.cur; tasks = v.tasks };
    }

pub handle_all-Handled :
    (n r : ℕ) (es : List Event) (db : Db)
    → 1 ≤ n
    → n < 2 ^ 32
    → Inv n r db
    → Handled n (reads es r) (handle_all es db)
unfolding handle_all reads
handle_all-Handled n r [] db pos small v = record { after = db; returns = refl; inv = v }
handle_all-Handled n r (e ∷ es) db pos small v =
    let h = handle-Handled n r e db pos small v in
    let k = handle_all-Handled n (bump e r) es h.after pos small h.inv in
    record { after = k.after; returns = rw h.returns k.returns; inv = k.inv }
