-- ===== src/AsyncIo/NetClient/Counts.antt =====
-- How many requests one run of the benchmark sends, and when it stops.
use thrift_bench.Prelude.{
  ℕ, suc, ◌+◌, ◌-◌, ◌^◌, ◌≤◌, ◌<◌, min, ◌≡◌, refl, sym, ◌∙◌, inl, inr, false, Option, some, List,
  [], ◌∷◌, ltb, ◌==◌, add64, sub64, add32, sub32, arith, length, Bool-cases,
}
use thrift_bench.AsyncIo.NetClient.{
  Benchmark, new_benchmark, start_benchmark, proceed, request_received, serve, max_requests_default,
  get_benchmark_data, stop_benchmark,
}
use thrift_bench.AsyncIo.NetClient.Sends.{requests_upto, Inv, Running, Answers, requests_send-Inv}

module _ (clock : ℕ → ℕ) where
  proceed-Running :
      (b : Benchmark)
      → Inv b
      → b.max_requests + b.qdepth < 2 ^ 31
      → 1 ≤ b.qdepth
      → 1 ≤ b.max_requests
      → 1 ≤ b.req_completed
      → b.req_sent ≡ min (b.req_completed - 1 + b.qdepth) (b.max_requests + b.qdepth - 1)
      → b.stopped ≡ false
      → Running (proceed clock b)
        × ((proceed clock b).req_completed ≡ b.req_completed)
        × ((proceed clock b).qdepth ≡ b.qdepth)
        × ((proceed clock b).max_requests ≡ b.max_requests)
  unfolding proceed stop_benchmark
  proceed-Running b v fits deep asked one quota stop =
      elim (Bool-cases (ltb b.req_completed b.max_requests)) [
        | inl more ↦
            let s = requests_send-Inv clock 1 b (ground arith) v in
            rw more (
              record {
                inv = s.inv;
                fits = ground arith;
                deep = ground arith;
                asked = ground arith;
                quota = ground arith;
                stop = ground arith;
              },
              s.done,
              s.depth,
              s.limit,
            )
        | inr last ↦ elim (Bool-cases (b.req_outstanding == 0)) [
          | inl idle ↦
              rw (last, idle)
                (
                  record {
                    inv = record {
                      counted = v.counted;
                      named = v.named;
                      timed = v.timed;
                      written = v.written;
                    };
                    fits = fits;
                    deep = deep;
                    asked = asked;
                    quota = ground arith;
                    stop = sym idle;
                  },
                  refl,
                  refl,
                  refl,
                )
          | inr busy ↦
              rw (last, busy)
                (
                  record {
                    inv = v;
                    fits = fits;
                    deep = deep;
                    asked = asked;
                    quota = ground arith;
                    stop = stop ∙ sym busy;
                  },
                  refl,
                  refl,
                  refl,
                )
        ]
      ]

  -- A reply to a request that was sent is accepted, and counted once.
  request_received-Running :
      (id : ℕ) (b : Benchmark)
      → Running b
      → 0 < b.req_outstanding
      → 1 ≤ id
      → id ≤ b.request_id
      → (c : Benchmark) × (request_received clock id b ≡ some c)
        × Running c
        × (c.req_completed ≡ b.req_completed + 1)
        × (c.qdepth ≡ b.qdepth)
        × (c.max_requests ≡ b.max_requests)
  unfolding request_received
  request_received-Running id b r busy lo hi =
      let (t, e) = r.inv.timed id lo hi in
      let b' : Benchmark = record b {
        tot_req_latency = add64 b.tot_req_latency (sub64 (clock b.readings) t);
        readings = b.readings + 1;
        req_completed = add32 b.req_completed 1;
        req_outstanding = sub32 b.req_outstanding 1;
      } in
      let (run, c, q, m) =
        proceed-Running b'
          (record {
            counted = omega (arith, r.inv.counted);
            named = r.inv.named;
            timed = r.inv.timed;
            written = r.inv.written;
          })
          r.fits r.deep r.asked (omega (arith, r.inv.counted))
          (omega (arith, r.inv.counted, r.quota)) (ground arith) in
      (proceed clock b', rw e refl, run, omega (arith, c, r.inv.counted, r.quota), q, m)

  -- What a run has done when it has read some replies.
  record Served (b : Benchmark) (n : ℕ) (r : Option Benchmark) : Type 0 where
    after : Benchmark
    returns : r ≡ some after
    running : Running after
    completed : after.req_completed ≡ min (b.req_completed + n) (b.max_requests + b.qdepth - 1)
    depth : after.qdepth ≡ b.qdepth
    limit : after.max_requests ≡ b.max_requests

  serve-Served :
      (ids : List ℕ) (b : Benchmark) (max q k : ℕ)
      → b.max_requests ≡ max
      → b.qdepth ≡ q
      → b.req_completed ≡ k
      → Running b
      → Answers max q k ids
      → Served b (length ids) (serve clock ids b)
  unfolding serve
  serve-Served [] b max q k em eq ek r a = record {
    after = b;
    returns = refl;
    running = r;
    completed = omega (arith, r.inv.counted, r.quota);
    depth = refl;
    limit = refl;
  }
  serve-Served (id ∷ ids) b max q k em eq ek r a = elim (Bool-cases b.stopped) [
    | inl halt ↦ record {
      after = b;
      returns = simp halt refl;
      running = r;
      completed = ground (arith, r.inv.counted, r.quota, r.stop, r.deep, r.asked);
      depth = refl;
      limit = refl;
    }
    | inr go ↦
        let (c, e, rc, done, cq, cm) =
          request_received-Running id b r (ground (arith, r.stop)) a.0
            (omega (arith, r.inv.named, r.quota)) in
        let s = serve-Served ids c max q (suc k) (cm ∙ em) (cq ∙ eq) (omega arith) rc a.2 in
        record {
          after = s.after;
          returns = simp go (rw e s.returns);
          running = s.running;
          completed = omega arith;
          depth = s.depth ∙ cq;
          limit = s.limit ∙ cm;
        }
  ]

  start-Running :
      (q : ℕ)
      → 1 ≤ q
      → q < 2 ^ 30
      → Running (start_benchmark clock (new_benchmark q))
        × ((start_benchmark clock (new_benchmark q)).req_completed ≡ 0)
        × ((start_benchmark clock (new_benchmark q)).qdepth ≡ q)
        × ((start_benchmark clock (new_benchmark q)).max_requests ≡ max_requests_default)
  unfolding start_benchmark new_benchmark
  start-Running q lo hi =
      let b : Benchmark = record (new_benchmark q) { start_time = clock 0; readings = 0 + 1 } in
      let s = requests_send-Inv clock q b (omega arith) (record {
        counted = omega arith;
        named = omega arith;
        timed = λ id (lo : 1 ≤ id) (hi : id ≤ 0). absurd (omega arith);
        written = refl;
      }) in
      (
        record {
          inv = s.inv;
          fits = omega arith;
          deep = omega arith;
          asked = omega arith;
          quota = omega arith;
          stop = s.stop ∙ ground (arith, s.inv.counted, s.more, s.done);
        },
        s.done,
        s.depth,
        s.limit,
      )

  served_lem :
      (b : Benchmark) (ids : List ℕ) (max q : ℕ)
      → Running b
      → b.req_completed ≡ 0
      → b.qdepth ≡ q
      → b.max_requests ≡ max
      → Answers max q 0 ids
      → (c : Benchmark) × (serve clock ids b ≡ some c)
        × (c.req_completed ≡ min (length ids) (max + q - 1))
        × (c.req_sent ≡ min (c.req_completed + q) (max + q - 1))
        × (c.wire ≡ requests_upto c.req_sent)
        × (c.stopped ≡ (c.req_completed == max + q - 1))
        × ((get_benchmark_data c).0 ≡ max)
  unfolding get_benchmark_data
  served_lem b ids max q r e eq em a =
      let s = serve-Served ids b max q 0 em eq e r a in
      let t = s.running in
      (
        s.after,
        s.returns,
        omega (arith, s.completed),
        omega (arith, t.quota, s.depth, s.limit),
        t.inv.written,
        t.stop ∙ ground (arith, t.inv.counted, t.quota, s.depth, s.limit, t.deep, t.asked),
        s.limit ∙ em,
      )

  -- With a queue depth from 1 to 2^30, the run accepts every sequence of replies to requests that
  -- it has sent. After n replies it has counted n of them, up to 1000000 + qdepth - 1; it has
  -- written qdepth requests more than that, up to the same bound, with the identifiers 1, 2, 3 and
  -- so on; and it has stopped exactly if the bound is reached, so qdepth - 1 requests after the
  -- 1000000 by which `get_benchmark_data` and `run` divide.
  pub serve_lem :
      (q : ℕ) (ids : List ℕ)
      → 1 ≤ q
      → q < 2 ^ 30
      → Answers max_requests_default q 0 ids
      → (b : Benchmark) × (serve clock ids (start_benchmark clock (new_benchmark q)) ≡ some b)
        × (b.req_completed ≡ min (length ids) (max_requests_default + q - 1))
        × (b.req_sent ≡ min (b.req_completed + q) (max_requests_default + q - 1))
        × (b.wire ≡ requests_upto b.req_sent)
        × (b.stopped ≡ (b.req_completed == max_requests_default + q - 1))
        × ((get_benchmark_data b).0 ≡ max_requests_default)
  serve_lem q ids lo hi a =
      let (r, c, eq, em) = start-Running q lo hi in
      served_lem (start_benchmark clock (new_benchmark q)) ids max_requests_default q r c eq em a
