-- ===== src/RateLimit/Bucket/Admission.antt =====
-- How many queries a bucket of token_bucket.rs admits, over any sequence of calls.
use ferrous_dns.Base.{
  ℕ, ◌+◌, ◌-◌, ◌*◌, ◌≤◌, ◌≡◌, ap, max, ◌==◌, Bool-cases, inl, inr, Bool, List, [], ◌∷◌, All,
  if◌then◌else◌, arith,
}
use native.Mathlib.Nat.{mul-le-mul_right}
use ferrous_dns.RateLimit.Bucket.{
  TokenBucket, milli, nx_burst_milli, refill_amount, refill, try_consume, try_charge_nxdomain,
}

pub record Holds (b : TokenBucket) (burst nx_qps : ℕ) : Type 0 where
  pub general : b.tokens_milli ≤ burst * milli
  pub nxdomain : b.nxdomain_tokens_milli ≤ nx_burst_milli nx_qps

-- What an adversary can ask of one bucket.
pub data Call : Type 0 where
  consume : ℕ → Call
  charge : ℕ → Call

abbrev pub at : Call → ℕ
at (consume now_ns) = now_ns
at (charge now_ns) = now_ns

module _ (qps burst nx_qps : ℕ) where
  pub call : TokenBucket → Call → TokenBucket × Bool
  call b (consume now_ns) = try_consume b now_ns qps burst nx_qps
  call b (charge now_ns) = try_charge_nxdomain b now_ns qps burst nx_qps

  -- The bucket after the calls, and the queries admitted.
  pub run : TokenBucket → List Call → TokenBucket × ℕ
  run b [] = (b, 0)
  run b (consume now_ns ∷ calls) =
      let (b', done) = try_consume b now_ns qps burst nx_qps in
      let (b'', n) = run b' calls in (b'', if done then n + 1 else n)
  run b (charge now_ns ∷ calls) = run (try_charge_nxdomain b now_ns qps burst nx_qps).0 calls

  -- No call lets either budget exceed its capacity.
  pub call-Holds :
      (b : TokenBucket) (c : Call) → Holds b burst nx_qps → Holds (call b c).0 burst nx_qps
  unfolding call try_consume try_charge_nxdomain refill
  call-Holds b (consume now_ns) h = ground arith
  call-Holds b (charge now_ns) h = ground arith

  refill_amount-le : (e : ℕ) → 1_000_000_000 * refill_amount e qps ≤ milli * (e * qps)
  unfolding refill_amount
  refill_amount-le e = omega arith

  elapsed_split : (now last : ℕ) → last ≤ now → (now - last) * qps + last * qps ≡ now * qps
  elapsed_split now last h =
      let e : now - last + last ≡ now = omega arith in omega (arith, ap (λ (t : ℕ). t * qps) e)

  -- The time since the last refill pays for the tokens that a refill adds.
  refill_pays :
      (b : TokenBucket) (now_ns : ℕ)
      → (1_000_000_000 * (refill b now_ns qps burst nx_qps).tokens_milli
            + milli * (b.last_refill_ns * qps)
          ≤ 1_000_000_000 * b.tokens_milli
            + milli * ((refill b now_ns qps burst nx_qps).last_refill_ns * qps))
  unfolding refill
  refill_pays b now_ns = elim (Bool-cases (now_ns - b.last_refill_ns == 0)) [
    | inl none_elapsed ↦ rw none_elapsed (omega arith)
    | inr some_elapsed ↦ rw some_elapsed (
        omega (
          arith,
          refill_amount-le (now_ns - b.last_refill_ns),
          elapsed_split now_ns b.last_refill_ns (ground arith),
        ))
  ]

  refill_clock :
      (b : TokenBucket) (now_ns : ℕ)
      → (refill b now_ns qps burst nx_qps).last_refill_ns ≡ max b.last_refill_ns now_ns
  unfolding refill
  refill_clock b now_ns = ground arith

  -- One call, with 1 for an admitted query and 0 for any other outcome.
  consume_pays :
      (b : TokenBucket) (now_ns : ℕ)
      → (1_000_000_000 * (try_consume b now_ns qps burst nx_qps).0.tokens_milli
            + milli * (b.last_refill_ns * qps)
            + (if (try_consume b now_ns qps burst nx_qps).1 then 1_000_000_000 * milli else 0)
          ≤ 1_000_000_000 * b.tokens_milli
            + milli * ((try_consume b now_ns qps burst nx_qps).0.last_refill_ns * qps))
  unfolding try_consume
  consume_pays b now_ns = ground (arith, refill_pays b now_ns)

  charge_pays :
      (b : TokenBucket) (now_ns : ℕ)
      → (1_000_000_000 * (try_charge_nxdomain b now_ns qps burst nx_qps).0.tokens_milli
            + milli * (b.last_refill_ns * qps)
          ≤ 1_000_000_000 * b.tokens_milli
            + milli * ((try_charge_nxdomain b now_ns qps burst nx_qps).0.last_refill_ns * qps))
  unfolding try_charge_nxdomain
  charge_pays b now_ns = ground (arith, refill_pays b now_ns)

  run_pays :
      (b : TokenBucket) (calls : List Call)
      → (1_000_000_000 * milli * (run b calls).1 + milli * (b.last_refill_ns * qps)
          ≤ 1_000_000_000 * b.tokens_milli + milli * ((run b calls).0.last_refill_ns * qps))
  unfolding run
  run_pays b [] = omega arith
  run_pays b (consume now_ns ∷ calls) =
      ground
        (arith, consume_pays b now_ns, run_pays (try_consume b now_ns qps burst nx_qps).0 calls)
  run_pays b (charge now_ns ∷ calls) = omega (
    arith,
    charge_pays b now_ns,
    run_pays (try_charge_nxdomain b now_ns qps burst nx_qps).0 calls,
  )

  run_clock :
      (b : TokenBucket) (calls : List Call) (latest : ℕ)
      → b.last_refill_ns ≤ latest
      → All (λ c. at c ≤ latest) calls
      → (run b calls).0.last_refill_ns ≤ latest
  unfolding run try_consume try_charge_nxdomain
  run_clock b [] latest h hs = h
  run_clock b (consume now_ns ∷ calls) latest h hs =
      run_clock (try_consume b now_ns qps burst nx_qps).0 calls latest
        (omega (arith, refill_clock b now_ns)) hs.1
  run_clock b (charge now_ns ∷ calls) latest h hs =
      run_clock (try_charge_nxdomain b now_ns qps burst nx_qps).0 calls latest
        (omega (arith, refill_clock b now_ns)) hs.1

  -- However the calls for queries and for NXDOMAIN answers of a subnet are mixed, and in whatever
  -- order their clocks come, a bucket within its capacity admits at most `burst` queries and `qps`
  -- more for each second from its last refill to a time that no call is after.
  pub run-le_burst_and_rate :
      (b : TokenBucket) (calls : List Call) (latest : ℕ)
      → Holds b burst nx_qps
      → b.last_refill_ns ≤ latest
      → All (λ c. at c ≤ latest) calls
      → 1_000_000_000 * (run b calls).1 ≤ 1_000_000_000 * burst + (latest - b.last_refill_ns) * qps
  run-le_burst_and_rate b calls latest h first hs = omega (
    arith,
    run_pays b calls,
    elapsed_split latest b.last_refill_ns first,
    mul-le-mul_right qps (run_clock b calls latest first hs),
  )
