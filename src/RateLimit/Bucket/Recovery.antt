-- ===== src/RateLimit/Bucket/Recovery.antt =====
-- An idle bucket of token_bucket.rs fills up again.
use ferrous_dns.Base.{ℕ, ◌-◌, ◌*◌, ◌^◌, ◌≤◌, ◌<◌, ◌≡◌, true, false, zero, suc, arith, ◌==◌}
use native.Mathlib.Nat.{mul-le-mul_right}
use ferrous_dns.RateLimit.Bucket.{
  TokenBucket, milli, new, add_capped, refill_amount, refill, try_consume,
}
use ferrous_dns.RateLimit.Bucket.Admission.{Holds}

-- The sums of a refill stay below 2^64: 2^82 token-nanoseconds are more than a million queries a
-- second over a century.
abbrev pub NoWrap : ℕ → ℕ → Type 0
NoWrap elapsed_ns rate = elapsed_ns * rate < 2 ^ 82

refill_full :
    (current elapsed rate cap : ℕ)
    → NoWrap elapsed rate
    → current ≤ cap * milli
    → cap < 2 ^ 34
    → cap * 1_000_000_000 ≤ elapsed * rate
    → add_capped current (refill_amount elapsed rate) (cap * milli) ≡ cap * milli
unfolding add_capped refill_amount
refill_full current elapsed rate cap safe held small enough = omega arith

refill_one :
    (current elapsed rate cap : ℕ)
    → NoWrap elapsed rate
    → current ≤ cap * milli
    → 0 < cap
    → cap < 2 ^ 32
    → 1_000_000_000 ≤ elapsed * rate
    → milli ≤ add_capped current (refill_amount elapsed rate) (cap * milli)
unfolding add_capped refill_amount
refill_one current elapsed rate cap safe held pos small enough = omega arith

has_elapsed : (e rate : ℕ) → 1_000_000_000 ≤ e * rate → (e == 0) ≡ false
has_elapsed zero rate h = absurd (omega arith)
has_elapsed (suc e) rate h = ground arith

module _ (qps burst nx_qps : ℕ) (b : TokenBucket) (now_ns : ℕ) where
  -- Once the time since the last refill covers the burst at the rate `qps`, and two seconds, the
  -- NXDOMAIN burst, a refill makes a bucket within its capacity equal to one that is created at
  -- that moment. The rates and the burst are 32-bit numbers, and the sums of the refill do not
  -- overflow.
  pub refill-eq-new :
      Holds b burst nx_qps
      → burst < 2 ^ 32
      → nx_qps < 2 ^ 32
      → NoWrap (now_ns - b.last_refill_ns) qps
      → NoWrap (now_ns - b.last_refill_ns) nx_qps
      → burst * 1_000_000_000 ≤ (now_ns - b.last_refill_ns) * qps
      → 2_000_000_000 ≤ now_ns - b.last_refill_ns
      → refill b now_ns qps burst nx_qps ≡ new burst nx_qps now_ns
  unfolding refill new
  refill-eq-new h small nx_small safe nx_safe enough two_seconds =
      let e = now_ns - b.last_refill_ns in
      ground (
        arith,
        refill_full b.tokens_milli e qps burst safe h.general (omega arith) enough,
        refill_full b.nxdomain_tokens_milli e nx_qps (2 * nx_qps) nx_safe
            (omega (arith, h.nxdomain)) (omega arith)
            (omega (arith, mul-le-mul_right nx_qps two_seconds)),
      )

  -- A bucket within its capacity that has been idle for the time of one token at the rate `qps`
  -- admits the next query, if its burst is a 32-bit number and not zero and the sum of the refill
  -- does not overflow.
  pub try_consume-true :
      Holds b burst nx_qps
      → 0 < burst
      → burst < 2 ^ 32
      → NoWrap (now_ns - b.last_refill_ns) qps
      → 1_000_000_000 ≤ (now_ns - b.last_refill_ns) * qps
      → (try_consume b now_ns qps burst nx_qps).1 ≡ true
  unfolding try_consume refill
  try_consume-true h pos small safe enough =
      let e = now_ns - b.last_refill_ns in
      rw (has_elapsed e qps enough)
        (ground (arith, refill_one b.tokens_milli e qps burst safe h.general pos small enough))
