-- ===== src/DbServer/Handler/Bases/Clients.antt =====
-- Whose client a leaf has, and what the lambdas of one event base make of the leafs.
use thrift_bench.Prelude.{
  ℕ, suc, ◌+◌, ◌≡◌, ◌⊎◌, refl, sym, ap, ◌∙◌, inl, inr, true, false, Option, none, some, List, [],
  ◌∷◌, ◌++◌, append_assoc, length, get_elem?, get_elem?-append, get_elem?-last, replicate,
  replicate-add, length-append, length-replicate, All, arith,
}
use native.Mathlib.Nat.{add-zero}
use mathlib.Core.Path.{subst}
use thrift_bench.DbServer.Handler.{Leaf, connect, connection, connect_all}
use thrift_bench.DbServer.Handler.Bases.{bases_of}

-- A leaf with a client of an event base.
abbrev pub IsOwn : (b : ℕ) (bases : List ℕ) → Leaf → Type 0
IsOwn b bases l =
    (l.connected ≡ true) × (c : ℕ) × (l.client ≡ some c) × (get_elem? bases c ≡ some b)

abbrev pub Fits : (b : ℕ) (bases : List ℕ) → Leaf → Type 0
Fits b bases l = IsOwn b bases l ⊎ ((l.connected ≡ false) × (l.client ≡ none))

pub IsOwn-append :
    (b : ℕ) (bases more : List ℕ) (l : Leaf) → IsOwn b bases l → IsOwn b (bases ++ more) l
IsOwn-append b bases more l (on, c, has, own) = (on, c, has, get_elem?-append bases more c b own)

pub Fits-append :
    (b : ℕ) (bases more : List ℕ) (ls : List Leaf)
    → All (Fits b bases) ls
    → All (Fits b (bases ++ more)) ls
Fits-append b bases more [] f = tt
Fits-append b bases more (l ∷ ls) f = (one f.0, Fits-append b bases more ls f.1)
  where
    one : Fits b bases l → Fits b (bases ++ more) l
    one (inl own) = inl (IsOwn-append b bases more l own)
    one (inr off) = inr off

-- A leaf that a lambda of the base has connected, if it was not.
pub record Opened (b : ℕ) (bases : List ℕ) (r : Option (ℕ × (Leaf × ℕ))) : Type 0 where
  pub clientp : ℕ
  pub leaf : Leaf
  pub more : ℕ
  pub returns : r ≡ some (clientp, (leaf, length bases + more))
  pub own : IsOwn b (bases ++ replicate more b) leaf
  pub owned : get_elem? (bases ++ replicate more b) clientp ≡ some b

pub connection-Opened :
    (b : ℕ) (bases : List ℕ) (l : Leaf)
    → Fits b bases l
    → Opened b bases (connection (length bases) l)
unfolding connection
connection-Opened b bases l (inl (on, c, has, own)) =
    let owned = get_elem?-append bases [] c b own in
    let keeps : connection (length bases) l ≡ some (c, (l, length bases)) = rw on (rw has refl) in
    record {
      clientp = c;
      leaf = l;
      more = 0;
      returns = keeps ∙ ap (λ n. some (c, (l, n))) (sym (add-zero (length bases)));
      own = (on, c, has, owned);
      owned = owned;
    }
connection-Opened b bases l (inr (off, null)) =
    let owned = get_elem?-last bases b in
    record {
      clientp = length bases;
      leaf = record l { client = some (length bases); connected = true };
      more = 1;
      returns = rw (off, connect) (rw null refl);
      own = (refl, length bases, refl, owned);
      owned = owned;
    }

pub record OpenedAll (b n : ℕ) (bases : List ℕ) (r : Option (List Leaf × (ℕ × List ℕ)))
    : Type 0 where
  pub leafs : List Leaf
  pub more : ℕ
  pub clients : List ℕ
  pub returns : r ≡ some (leafs, (length bases + more, clients))
  pub own : All (IsOwn b (bases ++ replicate more b)) leafs
  pub size : length leafs ≡ n
  pub owned : bases_of (bases ++ replicate more b) clients ≡ some (replicate n b)

pub connect_all-OpenedAll :
    (b : ℕ) (bases : List ℕ) (ls : List Leaf)
    → All (Fits b bases) ls
    → OpenedAll b (length ls) bases (connect_all (length bases) ls)
unfolding connect_all bases_of
connect_all-OpenedAll b bases [] f = record {
  leafs = [];
  more = 0;
  clients = [];
  returns = ap (λ n. some ([], (n, []))) (omega arith);
  own = tt;
  size = refl;
  owned = refl;
}
connect_all-OpenedAll b bases (l ∷ ls) f =
    let o = connection-Opened b bases l f.0 in
    let bases1 = bases ++ replicate o.more b in
    let count : length bases1 ≡ length bases + o.more =
      length-append bases (replicate o.more b)
      ∙ ap (λ n. length bases + n) (length-replicate o.more b) in
    let r = connect_all-OpenedAll b bases1 ls (Fits-append b bases (replicate o.more b) ls f.1) in
    let all : bases1 ++ replicate r.more b ≡ bases ++ replicate (o.more + r.more) b =
      append_assoc bases (replicate o.more b) (replicate r.more b)
      ∙ ap (λ xs. bases ++ xs) (replicate-add o.more r.more b) in
    let again : connect_all (length bases + o.more) ls
        ≡ some (r.leafs, (length bases + (o.more + r.more), r.clients)) =
      ap (λ n. connect_all n ls) (sym count)
      ∙ r.returns
      ∙ ap (λ n. some (r.leafs, (n, r.clients))) (omega (arith, count)) in
    record {
      leafs = o.leaf ∷ r.leafs;
      more = o.more + r.more;
      clients = o.clientp ∷ r.clients;
      returns = rw o.returns (rw again refl);
      own =
          subst (λ xs. All (IsOwn b xs) (o.leaf ∷ r.leafs)) all
            (IsOwn-append b bases1 (replicate r.more b) o.leaf o.own, r.own);
      size = ap suc r.size;
      owned =
          subst (λ xs. bases_of xs (o.clientp ∷ r.clients) ≡ some (replicate (suc (length ls)) b))
            all
            (rw (get_elem?-append bases1 (replicate r.more b) o.clientp b o.owned, r.owned) refl);
    }
