-- ===== src/DbServer/Handler/Leafs.antt =====
-- The handler's invariant, and what its operations do with the leafs.
use thrift_bench.Prelude.{
  ℕ, zero, suc, ◌+◌, ◌%◌, ◌<◌, ◌≡◌, ◌⊎◌, refl, ap, inl, inr, true, false, Option, none, some, List,
  [], ◌∷◌, length, get_elem?, set, arith, All,
}
use thrift_bench.DbServer.Handler.{
  Leaf, connect, set_disconnected, connection, Task, write_task, read_task, Db, connect_all,
  disconnect_at,
}

-- A leaf has a client just if it is connected.
abbrev pub IsConsistent : Leaf → Type 0
IsConsistent l =
    ((l.connected ≡ true) × (c : ℕ) × (l.client ≡ some c))
    ⊎ ((l.connected ≡ false) × (l.client ≡ none))

abbrev pub InRange : ℕ → Task → Type 0
InRange n (write_task cb filename data_) = Unit
InRange n (read_task cb request_id filename size leaf s) = leaf < n

-- After `r` reads, with `n` leafs.
pub record Inv (n r : ℕ) (db : Db) : Type 0 where
  pub consistent : All IsConsistent db.leafs
  pub size : length db.leafs ≡ n
  pub cur : db.cur_leaf ≡ r % n
  pub tasks : All (InRange n) db.queue

pub record Connected (sockets : ℕ) (l : Leaf) (r : Option (ℕ × (Leaf × ℕ))) : Type 0 where
  pub clientp : ℕ
  pub leaf : Leaf
  pub sockets' : ℕ
  pub returns : r ≡ some (clientp, (leaf, sockets'))
  pub holds : IsConsistent leaf

pub connection-Connected :
    (sockets : ℕ) (l : Leaf) → IsConsistent l → Connected sockets l (connection sockets l)
unfolding connection
connection-Connected sockets l (inl (on, c, has)) = record {
  clientp = c;
  leaf = l;
  sockets' = sockets;
  returns = rw on (rw has refl);
  holds = inl (on, c, has);
}
connection-Connected sockets l (inr (off, null)) = record {
  clientp = sockets;
  leaf = record l { client = some sockets; connected = true };
  sockets' = sockets + 1;
  returns = rw (off, connect) (rw null refl);
  holds = inl (refl, sockets, refl);
}

pub record ConnectedAll (n : ℕ) (r : Option (List Leaf × (ℕ × List ℕ))) : Type 0 where
  pub leafs : List Leaf
  pub sockets : ℕ
  pub clients : List ℕ
  pub returns : r ≡ some (leafs, (sockets, clients))
  pub holds : All IsConsistent leafs
  pub size : length leafs ≡ n
  pub each : length clients ≡ n

pub connect_all-ConnectedAll :
    (sockets : ℕ) (ls : List Leaf)
    → All IsConsistent ls
    → ConnectedAll (length ls) (connect_all sockets ls)
unfolding connect_all
connect_all-ConnectedAll sockets [] h = record {
  leafs = [];
  sockets = sockets;
  clients = [];
  returns = refl;
  holds = tt;
  size = refl;
  each = refl;
}
connect_all-ConnectedAll sockets (l ∷ ls) h =
    let c = connection-Connected sockets l h.0 in
    let r = connect_all-ConnectedAll c.sockets' ls h.1 in
    record {
      leafs = c.leaf ∷ r.leafs;
      sockets = r.sockets;
      clients = c.clientp ∷ r.clients;
      returns = rw c.returns (rw r.returns refl);
      holds = (c.holds, r.holds);
      size = ap suc r.size;
      each = ap suc r.each;
    }

pub get_elem?-Some :
    (i : ℕ) (ls : List Leaf)
    → i < length ls
    → All IsConsistent ls
    → (l : Leaf) × (get_elem? ls i ≡ some l) × IsConsistent l
get_elem?-Some i [] lt h = absurd (omega arith)
get_elem?-Some zero (l ∷ ls) lt h = (l, refl, h.0)
get_elem?-Some (suc i) (l ∷ ls) lt h = get_elem?-Some i ls (omega arith) h.1

pub set-Consistent :
    (i : ℕ) (l : Leaf) (ls : List Leaf)
    → IsConsistent l
    → All IsConsistent ls
    → All IsConsistent (set ls i l) × (length (set ls i l) ≡ length ls)
set-Consistent i l [] c h = (tt, refl)
set-Consistent zero l (k ∷ ls) c h = ((c, h.1), refl)
set-Consistent (suc i) l (k ∷ ls) c h =
    let r = set-Consistent i l ls c h.1 in ((h.0, r.0), ap suc r.1)

pub disconnect_at-Consistent :
    (i : ℕ) (ls : List Leaf)
    → All IsConsistent ls
    → All IsConsistent (disconnect_at i ls) × (length (disconnect_at i ls) ≡ length ls)
unfolding set_disconnected
disconnect_at-Consistent i [] h = (tt, refl)
disconnect_at-Consistent zero (k ∷ ls) h = ((inr (refl, refl), h.1), refl)
disconnect_at-Consistent (suc i) (k ∷ ls) h =
    let r = disconnect_at-Consistent i ls h.1 in ((h.0, r.0), ap suc r.1)
