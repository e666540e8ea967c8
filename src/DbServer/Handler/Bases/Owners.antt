-- ===== src/DbServer/Handler/Bases/Owners.antt =====
-- On which event bases the calls of the lambdas are made, and whose clients they use.
use thrift_bench.Prelude.{
  ℕ, zero, suc, ◌+◌, ◌<◌, ◌≡◌, refl, sym, ap, ◌∙◌, Option, some, List, [], ◌∷◌, ◌++◌, length,
  get_elem?, set, replicate, map, All, arith, length-append, length-replicate,
}
use mathlib.Core.Path.{subst}
use thrift_bench.Prelude.Text.{Text}
use thrift_bench.DbServer.Handler.{Leaf, Task, write_task, read_task, connection, connect_all}
use thrift_bench.DbServer.Handler.Bases.{Shared, bases_of, run_on}
use thrift_bench.DbServer.Handler.Bases.Clients.{IsOwn, Fits, connect_all-OpenedAll}
use thrift_bench.DbServer.Handler.Bases.Runs.{Ran, run_on-write}

-- The calls of a lambda, with `n` leafs.
abbrev pub calls : ℕ → Task → ℕ
calls n (write_task cb filename data_) = n
calls n (read_task cb request_id filename size leaf s) = 1

pub get_elem?-All :
    (P : Leaf → Type 0) (i : ℕ) (ls : List Leaf)
    → i < length ls
    → All P ls
    → (l : Leaf) × (get_elem? ls i ≡ some l) × P l
get_elem?-All P i [] lt h = absurd (omega arith)
get_elem?-All P zero (l ∷ ls) lt h = (l, refl, h.0)
get_elem?-All P (suc i) (l ∷ ls) lt h = get_elem?-All P i ls (omega arith) h.1

pub set-All :
    (P : Leaf → Type 0) (i : ℕ) (l : Leaf) (ls : List Leaf)
    → P l
    → All P ls
    → All P (set ls i l) × (length (set ls i l) ≡ length ls)
set-All P i l [] c h = (tt, refl)
set-All P zero l (k ∷ ls) c h = ((c, h.1), refl)
set-All P (suc i) l (k ∷ ls) c h = let r = set-All P i l ls c h.1 in ((h.0, r.0), ap suc r.1)

map-replicate :
    (base n b : ℕ) → map {B = ℕ × ℕ} (λ (c : ℕ). (base, c)) (replicate n b) ≡ replicate n (base, b)
map-replicate base zero b = refl
map-replicate base (suc n) b = ap (λ l. (base, b) ∷ l) (map-replicate base n b)

-- There are `n` leafs, each of which fits; every connection has its base.
pub record Has (P : List ℕ → Leaf → Type 0) (n : ℕ) (s : Shared) : Type 0 where
  pub leafs : All (P s.bases) s.db.leafs
  pub size : length s.db.leafs ≡ n
  pub count : s.db.sockets ≡ length s.bases

pub record Kept (P : List ℕ → Leaf → Type 0) (n base b m : ℕ) (s : Shared) (r : Option Shared)
    : Type 0 where
  pub after : Shared
  pub returns : r ≡ some after
  pub holds : Has P n after
  pub made : after.made ≡ s.made ++ replicate m (base, b)

pub kept :
    (P : List ℕ → Leaf → Type 0) (n base b m : ℕ) (leafs : List Leaf) (more : ℕ) (s : Shared)
    {r : Option Shared}
    → All (P (s.bases ++ replicate more base)) leafs
    → length leafs ≡ n
    → s.db.sockets ≡ length s.bases
    → Ran base leafs more (replicate m b) s r
    → Kept P n base b m s r
kept P n base b m leafs more s h size count r = record {
  after = r.after;
  returns = r.returns;
  holds = record {
    leafs =
        subst (λ bs. All (P bs) r.after.db.leafs) (sym r.bases)
          (subst (All (P (s.bases ++ replicate more base))) (sym r.leafs_after) h);
    size = ap length r.leafs_after ∙ size;
    count = omega (
      arith,
      r.sockets,
      count,
      ap length r.bases,
      length-append s.bases (replicate more base),
      length-replicate more base,
    );
  };
  made = r.made ∙ ap (λ l. s.made ++ l) (map-replicate base m b);
}

-- A write on a base that no client is foreign to: every leaf has a client of that base then.
pub write-Own :
    (n b cb : ℕ) (filename data_ : Text) (s : Shared)
    → Has (Fits b) n s
    → Kept (IsOwn b) n b b n s (run_on b (write_task cb filename data_) s)
write-Own n b cb filename data_ s h =
    let o = connect_all-OpenedAll b s.bases s.db.leafs h.leafs in
    let number : length s.bases + o.more ≡ s.db.sockets + o.more = omega (arith, h.count) in
    let opens : connect_all s.db.sockets s.db.leafs
        ≡ some (o.leafs, (s.db.sockets + o.more, o.clients)) =
      ap (λ k. connect_all k s.db.leafs) h.count
      ∙ o.returns
      ∙ ap (λ k. some (o.leafs, (k, o.clients))) number in
    kept (IsOwn b) n b b n o.leafs o.more s o.own (o.size ∙ h.size) h.count (
      run_on-write b cb filename data_ s o.leafs o.more o.clients (replicate n b) opens
        (o.owned ∙ ap (λ k. some (replicate k b)) h.size))

-- A leaf with a client, whatever the base.
pub connection-own :
    (sockets b : ℕ) (bases : List ℕ) (l : Leaf)
    → IsOwn b bases l
    → (c : ℕ) × (connection sockets l ≡ some (c, (l, sockets))) × (get_elem? bases c ≡ some b)
unfolding connection
connection-own sockets b bases l (on, c, has, own) = (c, rw on (rw has refl), own)

pub connect_all-own :
    (sockets b : ℕ) (bases : List ℕ) (ls : List Leaf)
    → All (IsOwn b bases) ls
    → (cs : List ℕ) × (connect_all sockets ls ≡ some (ls, (sockets, cs)))
      × (bases_of bases cs ≡ some (replicate (length ls) b))
unfolding connect_all bases_of
connect_all-own sockets b bases [] h = ([], refl, refl)
connect_all-own sockets b bases (l ∷ ls) h =
    let (c, keeps, own) = connection-own sockets b bases l h.0 in
    let (cs, keep, owns) = connect_all-own sockets b bases ls h.1 in
    (c ∷ cs, rw keeps (rw keep refl), rw own (rw owns refl))
