-- ===== src/DomainSocket/Socket/Buffers.antt =====
-- The sizes that `Connect` asks for.
use thrift_bench.Prelude.{
  ℕ, zero, suc, ◌+◌, ◌/◌, ◌^◌, ◌≤◌, ◌<◌, ◌≡◌, ◌⊎◌, refl, inl, inr, Bool, true, false, some, List,
  [], ◌∷◌, arith, Bool-cases,
}
use thrift_bench.Prelude.{◌>>=◌, if◌then◌else◌, none}
use thrift_bench.DomainSocket.Socket.{
  Setting, create_async_rpc_client, k_buffer_size, set_sndbuf, connect,
}

-- The sizes from the i-th on, halved each time, `n` of them.
halves : ℕ → ℕ → List ℕ
halves i zero = []
halves i (suc n) = k_buffer_size / 2 ^ i ∷ halves (i + 1) n

-- All of these are refused.
Refused : (ℕ → Bool) → ℕ → ℕ → Type 0
Refused accepts i n = (j : ℕ) → i ≤ j → j < i + n → accepts (k_buffer_size / 2 ^ j) ≡ false

-- The first size that is accepted is the k-th.
FirstAccepted : (ℕ → Bool) → ℕ → ℕ → Type 0
FirstAccepted accepts i k = Refused accepts i k × (accepts (k_buffer_size / 2 ^ (i + k)) ≡ true)

set_sndbuf-halves :
    (accepts : ℕ → Bool) (n i : ℕ)
    → (Refused accepts i n × (set_sndbuf accepts n i ≡ halves i n))
      ⊎ ((k : ℕ) × (k < n)
          × FirstAccepted accepts i k
          × (set_sndbuf accepts n i ≡ halves i (suc k)))
unfolding set_sndbuf halves Refused FirstAccepted
set_sndbuf-halves accepts zero i = inl ((λ j lo hi. absurd (omega arith)), refl)
set_sndbuf-halves accepts (suc n) i = elim (Bool-cases (accepts (k_buffer_size / 2 ^ i))) [
  | inl yes_i ↦
      let here : i + 0 ≡ i = omega arith in
      inr (0, omega arith, ((λ j lo hi. absurd (omega arith)), rw here yes_i), rw yes_i refl)
  | inr no_i ↦ elim (set_sndbuf-halves accepts n (i + 1)) [
    | inl (refused, e) ↦ inl (later i n no_i refused, rw no_i (rw e refl))
    | inr (k, lt, (refused, found), e) ↦
        let there : i + 1 + k ≡ i + suc k = omega arith in
        inr (suc k, omega arith, (later i k no_i refused, rw⁻¹ there found), rw no_i (rw e refl))
  ]
]
  where
    later :
        (i n : ℕ)
        → accepts (k_buffer_size / 2 ^ i) ≡ false
        → Refused accepts (i + 1) n
        → Refused accepts i (suc n)
    later i n no_i refused j lo hi =
        let here : (j ≡ i) ⊎ (i + 1 ≤ j) = omega arith in
        elim here [ inl e ↦ rw e no_i | inr lt ↦ refused j lt (omega arith) ]

-- A socket that connects. `Connect` returns its descriptor and has asked for buffers of 8 MiB,
-- 4 MiB and so on, each half of the one before, up to the first that is accepted; if the twelve
-- sizes down to 4 KiB are all refused, it has asked for these and returns the descriptor too.
connect-halves :
    (fd : ℕ) (accepts : ℕ → Bool)
    → ((connect (some fd) true accepts).returned ≡ some fd)
      × ((Refused accepts 0 12 × ((connect (some fd) true accepts).asked ≡ halves 0 12))
          ⊎ ((k : ℕ) × (k < 12)
              × FirstAccepted accepts 0 k
              × ((connect (some fd) true accepts).asked ≡ halves 0 (suc k))))
unfolding connect
connect-halves fd accepts = (refl, set_sndbuf-halves accepts 12 0)

-- With a descriptor that connects, the client is made on it, whatever buffer sizes and options are
-- refused; with one that does not, the assertion fails and the descriptor stays open.
create-connect :
    (fd : ℕ) (connected : Bool) (accepts : ℕ → Bool) (sets : Setting → Bool)
    → let o = connect (some fd) connected accepts in
      (o.open_ ≡ fd ∷ [])
      × ((create_async_rpc_client o.returned sets >>= λ c. some c.fd)
          ≡ (if connected then some fd else none))
unfolding connect create_async_rpc_client
create-connect fd true accepts sets = (refl, refl)
create-connect fd false accepts sets = (refl, refl)
