-- ===== src/Clients/Exp1/Table.antt =====
-- The table that `main` of fbthrift/exp1/client.cpp prints. `span` is what the clock measures of the
-- threads of a row.
use thrift_bench.Prelude.{
  ℕ, ◌*◌, ◌/◌, ◌%◌, ◌^◌, ◌<◌, ◌≡◌, ap, List, [], ◌∷◌, ◌++◌, All, All-append, arith,
}

record Row : Type 0 where
  pub nt : ℕ
  pub sz : ℕ
  pub qd : ℕ
  pub requests : ℕ
  pub latency : ℕ
  pub total : ℕ
  pub total_latency : ℕ

abbrev max_requests : ℕ
max_requests = 100000

abbrev Span : Type 0
Span = (nt qd sz : ℕ) → ℕ

row_of : Span → (nt qd sz : ℕ) → Row
row_of span nt qd sz = record {
  nt = nt;
  sz = sz;
  qd = qd;
  requests = max_requests;
  latency = span nt qd sz / max_requests;
  total = max_requests * nt % 2 ^ 64;
  total_latency = span nt qd sz / (max_requests * nt % 2 ^ 64);
}

-- The three loops.
size_rows : Span → (nt qd : ℕ) → List ℕ → List Row
unfolding row_of
size_rows span nt qd [] = []
size_rows span nt qd (sz ∷ szs) = row_of span nt qd sz ∷ size_rows span nt qd szs

depth_rows : Span → (nt : ℕ) → (queue_depths req_sizes : List ℕ) → List Row
unfolding size_rows
depth_rows span nt [] req_sizes = []
depth_rows span nt (qd ∷ qds) req_sizes =
    size_rows span nt qd req_sizes ++ depth_rows span nt qds req_sizes

table : Span → (nthreads queue_depths req_sizes : List ℕ) → List Row
unfolding depth_rows
table span [] queue_depths req_sizes = []
table span (nt ∷ nts) queue_depths req_sizes =
    depth_rows span nt queue_depths req_sizes ++ table span nts queue_depths req_sizes

-- A row whose total is that of its threads.
abbrev Exact : Span → Row → Type 0
Exact span r =
    (r.total ≡ r.requests * r.nt) × (r.total_latency ≡ span r.nt r.qd r.sz / (r.requests * r.nt))

size_rows-Exact :
    (span : Span) (nt qd : ℕ) (szs : List ℕ)
    → nt < 2 ^ 32
    → All (Exact span) (size_rows span nt qd szs)
unfolding size_rows row_of
size_rows-Exact span nt qd [] h = tt
size_rows-Exact span nt qd (sz ∷ szs) h =
    let total : max_requests * nt % 2 ^ 64 ≡ max_requests * nt = omega (arith, h) in
    ((total, ap (λ n. span nt qd sz / n) total), size_rows-Exact span nt qd szs h)

depth_rows-Exact :
    (span : Span) (nt : ℕ) (qds szs : List ℕ)
    → nt < 2 ^ 32
    → All (Exact span) (depth_rows span nt qds szs)
unfolding depth_rows
depth_rows-Exact span nt [] szs h = tt
depth_rows-Exact span nt (qd ∷ qds) szs h =
    All-append (Exact span) (size_rows span nt qd szs) (depth_rows span nt qds szs)
      (size_rows-Exact span nt qd szs h) (depth_rows-Exact span nt qds szs h)

-- With fewer than 2^32 threads in each row, no total of the table wraps round, and the average over all
-- threads divides by the requests of all threads.
table-Exact :
    (span : Span) (nts qds szs : List ℕ)
    → All (λ nt. nt < 2 ^ 32) nts
    → All (Exact span) (table span nts qds szs)
unfolding table
table-Exact span [] qds szs h = tt
table-Exact span (nt ∷ nts) qds szs h =
    All-append (Exact span) (depth_rows span nt qds szs) (table span nts qds szs)
      (depth_rows-Exact span nt qds szs h.0) (table-Exact span nts qds szs h.1)
