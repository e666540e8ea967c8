-- ===== src/Wangle/Client/Averages.antt =====
-- What the client prints.
use thrift_bench.Prelude.{
  ℕ, ◌+◌, ◌-◌, ◌/◌, ◌^◌, ◌≤◌, ◌<◌, ◌≡◌, refl, sym, ap, ◌∙◌, Option, none, some, List, [], ◌∷◌, ◌++◌,
  ◌==◌, true, false, add64, sub64, arith, append_assoc, append-nil,
}
use thrift_bench.Wangle.Client.{
  Reply, Session, start_session, on_reply, round, rounds, print_size, sizes,
}

-- The latency of the responses, and their number; a timeout counts for nothing.
abbrev time_of : List (Option Reply) → ℕ
time_of [] = 0
time_of (none ∷ rs) = time_of rs
time_of (some r ∷ rs) = (r.current - r.client_send) + time_of rs

abbrev number_of : List (Option Reply) → ℕ
number_of [] = 0
number_of (none ∷ rs) = number_of rs
number_of (some r ∷ rs) = 1 + number_of rs

-- The k-th response carries the k-th identifier, and comes after its message was sent.
abbrev InOrder : ℕ → List (Option Reply) → Type 0
InOrder seq [] = Unit
InOrder seq (none ∷ rs) = InOrder (seq + 1) rs
InOrder seq (some r ∷ rs) = (r.req_id ≡ seq) × (r.client_send ≤ r.current) × InOrder (seq + 1) rs

abbrev rounds_of : List (Option Reply) → ℕ
rounds_of [] = 0
rounds_of (r ∷ rs) = 1 + rounds_of rs

-- The averages over all responses since the start.
abbrev pub averages : (time number : ℕ) → List (ℕ × List (Option Reply)) → List (ℕ × ℕ)
averages time number [] = []
averages time number ((datasize, rs) ∷ more) =
    (datasize, (time + time_of rs) / (number + number_of rs))
    ∷ averages (time + time_of rs) (number + number_of rs) more

abbrev AllInOrder : ℕ → List (ℕ × List (Option Reply)) → Type 0
AllInOrder seq [] = Unit
AllInOrder seq ((datasize, rs) ∷ more) = InOrder seq rs × AllInOrder (seq + rounds_of rs) more

-- The totals stay below 2^63, and something has been answered by the end of the first size.
abbrev Moderate : (time number : ℕ) → List (ℕ × List (Option Reply)) → Type 0
Moderate time number [] = Unit
Moderate time number ((datasize, rs) ∷ more) =
    (time + time_of rs < 2 ^ 63)
    × (number + number_of rs < 2 ^ 63)
    × (1 ≤ number + number_of rs)
    × Moderate (time + time_of rs) (number + number_of rs) more

record Past (rs : List (Option Reply)) (s : Session) (o : Option Session) : Type 0 where
  after : Session
  returns : o ≡ some after
  seq : after.seq ≡ s.seq + rounds_of rs
  latency : after.latency ≡ s.latency + time_of rs
  count : after.count ≡ s.count + number_of rs
  printed : after.printed ≡ s.printed

rounds-Past :
    (rs : List (Option Reply)) (s : Session)
    → InOrder s.seq rs
    → s.latency + time_of rs < 2 ^ 63
    → s.count + number_of rs < 2 ^ 63
    → Past rs s (rounds rs s)
unfolding rounds round on_reply
rounds-Past [] s ok t n = record {
  after = s;
  returns = refl;
  seq = omega arith;
  latency = omega arith;
  count = omega arith;
  printed = refl;
}
rounds-Past (none ∷ rs) s ok t n =
    let p = rounds-Past rs (record s { seq = s.seq + 1 }) ok t n in
    record {
      after = p.after;
      returns = p.returns;
      seq = omega (arith, p.seq);
      latency = p.latency;
      count = p.count;
      printed = p.printed;
    }
rounds-Past (some r ∷ rs) s ok t n =
    let s' : Session = record s {
      seq = s.seq + 1;
      latency = add64 s.latency (sub64 r.current r.client_send);
      count = add64 s.count 1;
    } in
    let passes : s.seq == r.req_id ≡ true = ground (arith, ok.0) in
    let p = rounds-Past rs s' ok.2 (omega (arith, ok.1)) (omega arith) in
    record {
      after = p.after;
      returns = rw passes p.returns;
      seq = omega (arith, p.seq);
      latency = omega (arith, p.latency, ok.1);
      count = omega (arith, p.count);
      printed = p.printed;
    }

-- The counters at the head of the loop over the sizes.
record Stands (seq time number : ℕ) (s : Session) : Type 0 where
  at_seq : s.seq ≡ seq
  at_time : s.latency ≡ time
  at_number : s.count ≡ number

sizes-from :
    (more : List (ℕ × List (Option Reply))) (seq time number : ℕ) (s : Session)
    → Stands seq time number s
    → AllInOrder seq more
    → Moderate time number more
    → (s' : Session) × (sizes more s ≡ some s')
      × (s'.printed ≡ s.printed ++ averages time number more)
unfolding sizes print_size
sizes-from [] seq time number s at ok m = (s, refl, sym (append-nil s.printed))
sizes-from ((datasize, rs) ∷ more) seq time number s at ok m =
    let p =
      rounds-Past rs s (rw at.at_seq ok.0) (omega (arith, m.0, at.at_time))
        (omega (arith, m.1, at.at_number)) in
    let a = p.after in
    let some_reply : a.count == 0 ≡ false = ground (arith, p.count, m.2, at.at_number) in
    let line : ℕ × ℕ = (datasize, a.latency / a.count) in
    let b : Session = record a { printed = a.printed ++ line ∷ [] } in
    let t = p.latency ∙ ap (λ n. n + time_of rs) at.at_time in
    let n = p.count ∙ ap (λ k. k + number_of rs) at.at_number in
    let (s', returns, prints) =
      sizes-from more (seq + rounds_of rs) (time + time_of rs) (number + number_of rs) b
        (record {
          at_seq = p.seq ∙ ap (λ k. k + rounds_of rs) at.at_seq;
          at_time = t;
          at_number = n;
        })
        ok.1 m.3 in
    let rest = averages (time + time_of rs) (number + number_of rs) more in
    (
      s',
      rw p.returns (simp some_reply returns),
      prints ∙ append_assoc a.printed (line ∷ []) rest ∙ λ i.
          p.printed i ++ (datasize, t i / n i) ∷ rest,
    )

-- A session in which the responses carry the identifiers of their messages, in the order of the
-- sizes and rounds, the totals stay below 2^63, and something has been answered by the end of the
-- first size. No `CHECK` fails, nothing is divided by zero, and what is printed for a size is the
-- average latency of all responses since the start, those of the sizes before it included.
pub sizes-averages :
    (more : List (ℕ × List (Option Reply)))
    → AllInOrder 1 more
    → Moderate 0 0 more
    → (s : Session) × (sizes more start_session ≡ some s) × (s.printed ≡ averages 0 0 more)
unfolding start_session
sizes-averages more ok m =
    sizes-from more 1 0 0 start_session (record { at_seq = refl; at_time = refl; at_number = refl })
      ok m
