-- ===== src/DbServer/Handler/Bases/Runs.antt =====
-- What a lambda on an event base does with the clients.
use thrift_bench.Prelude.{
  ℕ, ◌+◌, ◌-◌, ◌≡◌, refl, ap, ◌∙◌, Option, some, List, [], ◌∷◌, ◌++◌, length, get_elem?, set, drop,
  drop-append, replicate, map, arith,
}
use thrift_bench.Prelude.Text.{Text}
use thrift_bench.DbServer.Handler.{
  Leaf, Call, future_write, future_read, write_task, read_task, Db, connection, connect_all,
  run_task,
}
use thrift_bench.DbServer.Handler.Bases.{Shared, clientp_of, bases_of, run_on}

pub record Ran (base : ℕ) (leafs : List Leaf) (more : ℕ) (bs : List ℕ) (s : Shared)
    (r : Option Shared) : Type 0 where
  pub after : Shared
  pub returns : r ≡ some after
  pub leafs_after : after.db.leafs ≡ leafs
  pub sockets : after.db.sockets ≡ s.db.sockets + more
  pub bases : after.bases ≡ s.bases ++ replicate more base
  pub made : after.made ≡ s.made ++ map (λ b. (base, b)) bs

clients-map :
    (f : ℕ → Call)
    → ((c : ℕ) → clientp_of (f c) ≡ c)
    → (cs : List ℕ) → map clientp_of (map f cs) ≡ cs
clients-map f h [] = refl
clients-map f h (c ∷ cs) = λ i. h c i ∷ clients-map f h cs i

-- The calls of a lambda that has made some more.
new_clients :
    (old new : List Call) (cs : List ℕ)
    → map clientp_of new ≡ cs
    → map clientp_of (drop (length old) (old ++ new)) ≡ cs
new_clients old new cs e = ap (map clientp_of) (drop-append old new) ∙ e

sub_same : (k more : ℕ) → k + more - k ≡ more
sub_same k more = omega arith

pub run_on-write :
    (base cb : ℕ) (filename data_ : Text) (s : Shared) (leafs : List Leaf) (more : ℕ)
    (cs bs : List ℕ)
    → connect_all s.db.sockets s.db.leafs ≡ some (leafs, (s.db.sockets + more, cs))
    → bases_of (s.bases ++ replicate more base) cs ≡ some bs
    → Ran base leafs more bs s (run_on base (write_task cb filename data_) s)
unfolding run_on run_task
run_on-write base cb filename data_ s leafs more cs bs e owned =
    let f : ℕ → Call = λ k. future_write k cb filename data_ in
    let new = new_clients s.db.calls (map f cs) cs (clients-map f (λ k. refl) cs) in
    let db' : Db = record s.db {
      leafs = leafs;
      sockets = s.db.sockets + more;
      calls = s.db.calls ++ map f cs;
    } in
    record {
      after = record {
        db = db';
        bases = s.bases ++ replicate more base;
        made = s.made ++ map (λ b. (base, b)) bs;
      };
      returns = rw e (rw (sub_same s.db.sockets more, new) (rw owned refl));
      leafs_after = refl;
      sockets = refl;
      bases = refl;
      made = refl;
    }

pub run_on-read :
    (base cb request_id : ℕ) (filename : Text) (size leaf start : ℕ) (s : Shared) (l l' : Leaf)
    (more c b : ℕ)
    → get_elem? s.db.leafs leaf ≡ some l
    → connection s.db.sockets l ≡ some (c, (l', s.db.sockets + more))
    → get_elem? (s.bases ++ replicate more base) c ≡ some b
    → Ran base
        (set s.db.leafs leaf l')
        more
        (b ∷ [])
        s
        (run_on base (read_task cb request_id filename size leaf start) s)
unfolding run_on run_task bases_of
run_on-read base cb request_id filename size leaf start s l l' more c b found e owned =
    let new =
      new_clients s.db.calls (future_read c cb request_id filename size start ∷ []) (c ∷ []) refl in
    record {
      after = record {
        db = record s.db {
          leafs = set s.db.leafs leaf l';
          sockets = s.db.sockets + more;
          calls = s.db.calls ++ future_read c cb request_id filename size start ∷ [];
        };
        bases = s.bases ++ replicate more base;
        made = s.made ++ (base, b) ∷ [];
      };
      returns = rw found (rw e (rw (sub_same s.db.sockets more, new) (rw owned refl)));
      leafs_after = refl;
      sockets = refl;
      bases = refl;
      made = refl;
    }
