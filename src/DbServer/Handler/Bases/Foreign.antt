-- ===== src/DbServer/Handler/Bases/Foreign.antt =====
-- Whether the calls on the leafs are made on the event bases of their clients.
use thrift_bench.Prelude.{
  ℕ, suc, ◌≡◌, refl, sym, ap, ◌∙◌, inr, some, List, [], ◌∷◌, ◌++◌, append_assoc, append-nil, length,
  replicate, set, All, arith,
}
use native.Mathlib.Nat.{add-zero}
use thrift_bench.Prelude.Text.{Text}
use thrift_bench.DbServer.Handler.{Leaf, Task, write_task, read_task, new_leaf}
use thrift_bench.DbServer.Handler.Leafs.{InRange}
use thrift_bench.DbServer.Handler.Rounds.{leafs_of}
use thrift_bench.DbServer.Handler.Bases.{
  Shared, start_shared, run_on, Event, runs_on, handle, handle_all,
}
use thrift_bench.DbServer.Handler.Bases.Clients.{IsOwn, Fits, IsOwn-append}
use thrift_bench.DbServer.Handler.Bases.Runs.{run_on-write, run_on-read}
use thrift_bench.DbServer.Handler.Bases.Owners.{
  calls, get_elem?-All, set-All, Has, Kept, kept, write-Own, connection-own, connect_all-own,
}

append-Own :
    (b : ℕ) (bases : List ℕ) (ls : List Leaf)
    → All (IsOwn b bases) ls
    → All (IsOwn b (bases ++ [])) ls
append-Own b bases [] h = tt
append-Own b bases (l ∷ ls) h = (IsOwn-append b bases [] l h.0, append-Own b bases ls h.1)

-- A lambda on any base, where all leafs have clients of the base `b`.
run_on-Own :
    (n base b : ℕ) (t : Task) (s : Shared)
    → InRange n t
    → Has (IsOwn b) n s
    → Kept (IsOwn b) n base b (calls n t) s (run_on base t s)
run_on-Own n base b (write_task cb filename data_) s lt h =
    let bases = s.bases ++ [] in
    let own = append-Own b s.bases s.db.leafs h.leafs in
    let (cs, keeps, owns) = connect_all-own s.db.sockets b bases s.db.leafs own in
    kept (IsOwn b) n base b n s.db.leafs 0 s own h.size h.count (
      run_on-write base cb filename data_ s s.db.leafs 0 cs (replicate n b)
        (keeps ∙ ap (λ k. some (s.db.leafs, (k, cs))) (sym (add-zero s.db.sockets)))
        (owns ∙ ap (λ k. some (replicate k b)) h.size))
run_on-Own n base b (read_task cb request_id filename size leaf start) s lt h =
    let bases = s.bases ++ [] in
    let own = append-Own b s.bases s.db.leafs h.leafs in
    let (l, found, holds) =
      get_elem?-All (IsOwn b bases) leaf s.db.leafs (omega (arith, lt, h.size)) own in
    let (c, keeps, owned) = connection-own s.db.sockets b bases l holds in
    let w = set-All (IsOwn b bases) leaf l s.db.leafs holds own in
    kept (IsOwn b) n base b 1 (set s.db.leafs leaf l) 0 s w.0 (w.1 ∙ h.size) h.count (
      run_on-read base cb request_id filename size leaf start s l l 0 c b found
        (keeps ∙ ap (λ k. some (c, (l, k))) (sym (add-zero s.db.sockets))) owned)

leafs_of-Fits :
    (b : ℕ) (as_ : List (Text × ℕ))
    → All (Fits b []) (leafs_of as_) × (length (leafs_of as_) ≡ length as_)
unfolding leafs_of new_leaf
leafs_of-Fits b [] = (tt, refl)
leafs_of-Fits b (a ∷ as_) = let r = leafs_of-Fits b as_ in ((inr (refl, refl), r.0), ap suc r.1)

start-Has :
    (b : ℕ) (as_ : List (Text × ℕ)) → Has (Fits b) (length as_) (start_shared (leafs_of as_))
unfolding start_shared
start-Has b as_ = let r = leafs_of-Fits b as_ in record { leafs = r.0; size = r.1; count = refl }

abbrev pub lambdas : List (ℕ × Task) → List Event
lambdas [] = []
lambdas ((base, t) ∷ ts) = runs_on base t ∷ lambdas ts

-- The calls of lambdas that run on their bases and use clients of `b`.
abbrev pub foreign : (b n : ℕ) → List (ℕ × Task) → List (ℕ × ℕ)
foreign b n [] = []
foreign b n ((base, t) ∷ ts) = replicate (calls n t) (base, b) ++ foreign b n ts

handle_all-Own :
    (n b : ℕ) (ts : List (ℕ × Task)) (s : Shared)
    → All (λ t. InRange n t.1) ts
    → Has (IsOwn b) n s
    → (s' : Shared) × (handle_all (lambdas ts) s ≡ some s') × (s'.made ≡ s.made ++ foreign b n ts)
unfolding handle_all handle
handle_all-Own n b [] s lt h = (s, refl, sym (append-nil s.made))
handle_all-Own n b ((base, t) ∷ ts) s lt h =
    let k = run_on-Own n base b t s lt.0 h in
    let (s', returns, made) = handle_all-Own n b ts k.after lt.1 k.holds in
    (
      s',
      rw k.returns returns,
      made
          ∙ ap (λ l. l ++ foreign b n ts) k.made
          ∙ append_assoc s.made (replicate (calls n t) (base, b)) (foreign b n ts),
    )

-- A write that comes first to a server, on the event base `b`, then any reads and writes on any
-- bases, while no channel closes: no assertion of the code fails, but each of their calls on a leaf
-- uses a client of `b`, on whatever base its lambda runs.
pub handle_all-foreign :
    (as_ : List (Text × ℕ)) (b cb : ℕ) (filename data_ : Text) (ts : List (ℕ × Task))
    → All (λ (t : ℕ × Task). InRange (length as_) t.1) ts
    → (s : Shared) × (handle_all
          (runs_on b (write_task cb filename data_) ∷ lambdas ts)
          (start_shared (leafs_of as_))
        ≡ some s)
      × (s.made ≡ replicate (length as_) (b, b) ++ foreign b (length as_) ts)
unfolding handle_all handle start_shared
handle_all-foreign as_ b cb filename data_ ts lt =
    let n = length as_ in
    let k = write-Own n b cb filename data_ (start_shared (leafs_of as_)) (start-Has b as_) in
    let (s, returns, made) = handle_all-Own n b ts k.after lt k.holds in
    (s, rw k.returns returns, made ∙ ap (λ l. l ++ foreign b n ts) k.made)
