-- ===== src/Clients/Pipeline/Counts.antt =====
-- The counters of the loop and its map of send times.
use thrift_bench.Prelude.{
  ℕ, zero, suc, ◌+◌, ◌^◌, ◌≤◌, ◌<◌, ◌≡◌, ◌⊎◌, refl, inl, inr, true, false, Option, none, some, List,
  [], ◌∷◌, ◌==◌, add64, sub64, lookup, insert, erase, length, length-append, min, arith, All,
  All-append, Bool-cases, next_int-fits,
}
use thrift_bench.Clients.Pipeline.{Loop, pick, Protocol, send_one, send_requests, on_replies}

abbrev Below : ℕ → List (ℕ × ℕ) → Type 0
Below n m = All (λ e. e.0 < n) m

insert-new :
    (k v n : ℕ) (m : List (ℕ × ℕ))
    → Below k m
    → k < n
    → Below n (insert k v m) × (length (insert k v m) ≡ length m + 1)
unfolding insert
insert-new k v n [] h lt = ((lt, tt), omega arith)
insert-new k v n ((j, w) ∷ m) h lt =
    let r = insert-new k v n m h.1 lt in
    let ne : j == k ≡ false = ground (arith, h.0) in
    rw ne ((omega (arith, h.0), r.0), omega (arith, r.1))

erase-Below : (k n : ℕ) (m : List (ℕ × ℕ)) → Below n m → Below n (erase k m)
unfolding erase
erase-Below k n [] h = tt
erase-Below k n ((j, w) ∷ m) h = elim (Bool-cases (j == k)) [
  | inl e ↦ rw e h.1
  | inr e ↦ rw e (h.0, erase-Below k n m h.1)
]

-- A key of the map is found, and taken out once.
pick-lookup :
    (k : ℕ) (m : List (ℕ × ℕ))
    → ((length m ≡ 0) × (pick k m ≡ none))
      ⊎ ((id : ℕ) × (t : ℕ) × (pick k m ≡ some id)
          × (lookup id m ≡ some t)
          × (length (erase id m) + 1 ≡ length m))
unfolding lookup erase
pick-lookup k [] = inl (refl, refl)
pick-lookup k ((id, t) ∷ []) =
    let e : id == id ≡ true = ground arith in inr (id, t, refl, rw e refl, rw e (omega arith))
pick-lookup zero ((id, t) ∷ (j, s) ∷ m) =
    let e : id == id ≡ true = ground arith in inr (id, t, refl, rw e refl, rw e (omega arith))
pick-lookup (suc k) ((i, t) ∷ (j, s) ∷ m) = elim (pick-lookup k ((j, s) ∷ m)) [
  | inl (none_there, e) ↦ absurd (omega arith)
  | inr (id, u, e, found, l) ↦ elim (Bool-cases (i == id)) [
    | inl same ↦ inr (id, t, e, rw same refl, rw same (omega arith))
    | inr other ↦ inr (id, u, e, ground (arith, found, other), ground (arith, l, other))
  ]
]

-- The answers of a turn pass the client's assertion.
abbrev pub Accepted : {P R T : Type 0} → Protocol P R T → List (ℕ × P) → Type 0
Accepted p as_ = All (λ a. (id : ℕ) → p.accepts (p.reply id a.1) ≡ true) as_

-- A reply carries the identifier of the request that it answers.
abbrev pub IsFaithful : {P R T : Type 0} → Protocol P R T → Type 0
IsFaithful {P} p = (id : ℕ) (a : P) → p.id_of (p.reply id a) ≡ id

pub record Inv {T : Type 0} (q : ℕ) (l : Loop T) : Type 0 where
  pub accounted : l.req_complete + l.req_out ≡ l.req_sched
  pub timed : length l.req_time ≡ l.req_out
  pub named : l.req_id ≡ l.req_sched + 1
  pub fresh : Below l.req_id l.req_time
  pub window : l.req_out ≤ q
  pub indices : All (λ c. c.0 < q) l.calls
  pub made : length l.calls ≡ l.req_sched

module _ {P R T : Type 0} (clock : ℕ → ℕ) (p : Protocol P R T) (q : ℕ) (small : q < 2 ^ 31) where
  -- What the `for` loop leaves.
  pub record Sent (n : ℕ) (l : Loop T) (r : Option (Loop T)) : Type 0 where
    pub after : Loop T
    pub returns : r ≡ some after
    pub inv : Inv q after
    pub out : after.req_out ≡ l.req_out + n
    pub scheduled : after.req_sched ≡ l.req_sched + n
    pub complete : after.req_complete ≡ l.req_complete

  pub send_requests-Inv :
      (n i : ℕ) (l : Loop T)
      → l.req_out + n ≤ q
      → i + n ≤ q
      → l.req_sched + n < 2 ^ 63
      → Inv q l
      → Sent n l (send_requests clock p n i l)
  unfolding send_requests
  send_requests-Inv zero i l a b c v = record {
    after = l;
    returns = refl;
    inv = v;
    out = omega arith;
    scheduled = omega arith;
    complete = refl;
  }
  send_requests-Inv (suc n) i l a b c v =
      let one = send_one clock p i l in
      let added =
        insert-new l.req_id (clock l.readings) (add64 l.req_id 1) l.req_time v.fresh
          (omega (arith, v.named)) in
      let v' : Inv q one = record {
        accounted = omega (arith, v.accounted);
        timed = omega (arith, added.1, v.timed);
        named = omega (arith, v.named);
        fresh = added.0;
        window = omega arith;
        indices = All-append _ l.calls ((i, l.req_id) ∷ []) v.indices (omega arith, tt);
        made = omega (arith, length-append l.calls ((i, l.req_id) ∷ []), v.made);
      } in
      let r = send_requests-Inv n (i + 1) one (omega arith) (omega arith) (omega arith) v' in
      record {
        after = r.after;
        returns = rw (next_int-fits i (omega arith)) r.returns;
        inv = r.inv;
        out = omega (arith, r.out);
        scheduled = omega (arith, r.scheduled);
        complete = r.complete;
      }

  -- What a turn's replies leave: as many more complete as there were replies, up to those that were
  -- outstanding.
  pub record Replied (n : ℕ) (l : Loop T) (r : Option (Loop T)) : Type 0 where
    pub after : Loop T
    pub returns : r ≡ some after
    pub inv : Inv q after
    pub completes : after.req_complete ≡ l.req_complete + min l.req_out n
    pub scheduled : after.req_sched ≡ l.req_sched

  pub on_replies-Replied :
      (as_ : List (ℕ × P)) (l : Loop T)
      → IsFaithful p
      → Accepted p as_
      → l.req_sched < 2 ^ 63
      → Inv q l
      → Replied (length as_) l (on_replies clock p as_ l)
  unfolding on_replies
  on_replies-Replied [] l faithful ok fits v = record {
    after = l;
    returns = refl;
    inv = v;
    completes = omega arith;
    scheduled = refl;
  }
  on_replies-Replied ((k, a) ∷ as_) l faithful ok fits v = elim (pick-lookup k l.req_time) [
    | inl (idle, e) ↦
        let r = on_replies-Replied as_ l faithful ok.1 fits v in
        record {
          after = r.after;
          returns = rw (e, on_replies) r.returns;
          inv = r.inv;
          completes = omega (arith, r.completes, v.timed);
          scheduled = r.scheduled;
        }
    | inr (id, t, e, found, less) ↦
        let name = faithful id a in
        let l' : Loop T = record l {
          readings = l.readings + 1;
          req_time = erase id l.req_time;
          totals = p.account (sub64 (clock l.readings) t) (p.reply id a) l.totals;
          req_complete = add64 l.req_complete 1;
          req_out = sub64 l.req_out 1;
        } in
        let v' : Inv q l' = record {
          accounted = omega (arith, v.accounted, v.timed);
          timed = omega (arith, v.timed, v.accounted);
          named = v.named;
          fresh = erase-Below id l.req_id l.req_time v.fresh;
          window = omega (arith, v.window, v.timed);
          indices = v.indices;
          made = v.made;
        } in
        let r = on_replies-Replied as_ l' faithful ok.1 fits v' in
        record {
          after = r.after;
          returns = rw (e, on_replies) (rw (ok.0 id, name, found) r.returns);
          inv = r.inv;
          completes = omega (arith, r.completes, v.timed, v.accounted);
          scheduled = r.scheduled;
        }
  ]
