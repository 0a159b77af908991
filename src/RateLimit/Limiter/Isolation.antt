-- ===== src/RateLimit/Limiter/Isolation.antt =====
-- What one call of mod.rs decides, and what it leaves alone.
use ferrous_dns.Base.{
  ℕ, ◌≤◌, ◌≡◌, ◌≢◌, ◌↔◌, ◌⊎◌, inl, inr, refl, Bool, true, false, Bool-cases, Bool-same, sym, Option,
  if◌then◌else◌, ℕ_discrete, arith,
}
use ferrous_dns.Base.Dict
use ferrous_dns.Ip.{IpAddr}
use ferrous_dns.RateLimit.Bucket.{TokenBucket, milli, refill, try_consume, try_charge_nxdomain}
use ferrous_dns.RateLimit.Subnet.{key}
use ferrous_dns.RateLimit.Whitelist.{contains}
use ferrous_dns.RateLimit.Limiter.{
  DnsRateLimiter, allow, ClientProtocol, on_stream, buckets, with_buckets, Buckets, over_budget,
  bucket_of, spend, check, charge_nxdomain, limits_nxdomain,
}

over_budget-buckets :
    (l : DnsRateLimiter) (stream s : Bool) → buckets (over_budget l stream).0 s ≡ buckets l s
unfolding over_budget
over_budget-buckets l stream s = ground arith

over_budget-ne-allow : (l : DnsRateLimiter) (stream : Bool) → (over_budget l stream).1 ≢ allow
unfolding over_budget
over_budget-ne-allow l stream = ground arith

-- What an answer over the budget gets does not depend on the buckets.
over_budget-with_buckets :
    (l : DnsRateLimiter) (s : Bool) (m : Buckets)
    → (over_budget (with_buckets l s m) s).1 ≡ (over_budget l s).1
unfolding over_budget
over_budget-with_buckets l true m = ground arith
over_budget-with_buckets l false m = ground arith

buckets-with_self : (l : DnsRateLimiter) (s : Bool) (m : _) → buckets (with_buckets l s m) s ≡ m
buckets-with_self l true m = refl
buckets-with_self l false m = refl

buckets-with_ne :
    (l : DnsRateLimiter) (s t : Bool) (m : _) → t ≢ s → buckets (with_buckets l s m) t ≡ buckets l t
buckets-with_ne l true true m h = absurd (h refl)
buckets-with_ne l true false m h = refl
buckets-with_ne l false true m h = refl
buckets-with_ne l false false m h = absurd (h refl)

module _ (l : DnsRateLimiter) (ip : IpAddr) (protocol : Option ClientProtocol) (now_ns : ℕ) where
  module _ (try_spend : TokenBucket → TokenBucket × Bool) where
    abbrev spent : Buckets
    spent =
        Dict.insert ℕ_discrete (key l.grouping ip)
          (try_spend (bucket_of l (on_stream protocol) (key l.grouping ip) now_ns)).0
          (buckets l (on_stream protocol))

    spend-buckets :
        (s : Bool)
        → (buckets (spend l ip protocol try_spend now_ns).0 s
            ≡ buckets (with_buckets l (on_stream protocol) spent) s)
    unfolding spend
    spend-buckets s =
        elim (Bool-cases
          (try_spend (bucket_of l (on_stream protocol) (key l.grouping ip) now_ns)).1) [
            | inl covered ↦ rw covered
            | inr over ↦ rw over (over_budget-buckets _ (on_stream protocol) s)
          ]

    -- The bucket of `k` for a kind of transport that `spend` does not touch.
    spend_others :
        (s : Bool) (k : ℕ)
        → (k ≢ key l.grouping ip) ⊎ (s ≢ on_stream protocol)
        → (Dict.get ℕ_discrete k (buckets (spend l ip protocol try_spend now_ns).0 s)
            ≡ Dict.get ℕ_discrete k (buckets l s))
    spend_others s k (inr kind) =
        rw (spend-buckets s) (rw (buckets-with_ne l (on_stream protocol) s spent kind) refl)
    spend_others s k (inl other) = elim (Bool-same s (on_stream protocol)) [
      | inr kind ↦
          rw (spend-buckets s) (rw (buckets-with_ne l (on_stream protocol) s spent kind) refl)
      | inl e ↦ rw e (
          rw (spend-buckets (on_stream protocol)) (
            rw (buckets-with_self l (on_stream protocol) spent)
              (Dict.get-insert_ne ℕ_discrete (key l.grouping ip) k _ _ (λ p. other (sym p)))))
    ]

    -- The decision, without the limiter that is left.
    pub spend-decision : (spend l ip protocol try_spend now_ns).1 ≡ (
        if (try_spend (bucket_of l (on_stream protocol) (key l.grouping ip) now_ns)).1
        then allow
        else (over_budget l (on_stream protocol)).1)
    unfolding spend
    spend-decision =
        elim (Bool-cases
          (try_spend (bucket_of l (on_stream protocol) (key l.grouping ip) now_ns)).1) [
            | inl covered ↦ rw covered refl
            | inr over ↦ rw over (over_budget-with_buckets l (on_stream protocol) spent)
          ]

    -- A covered response is allowed; any other gets the configured action.
    spend-allow_iff :
        ((spend l ip protocol try_spend now_ns).1 ≡ allow)
        ↔ ((try_spend (bucket_of l (on_stream protocol) (key l.grouping ip) now_ns)).1 ≡ true)
    unfolding spend
    spend-allow_iff =
        elim (Bool-cases
          (try_spend (bucket_of l (on_stream protocol) (key l.grouping ip) now_ns)).1) [
            | inl covered ↦ rw covered (λ e. refl, λ e. refl)
            | inr over ↦
                rw over (λ e. absurd (over_budget-ne-allow _ (on_stream protocol) e), λ e. cc)
          ]

  abbrev pub consuming : TokenBucket → TokenBucket × Bool
  consuming b = try_consume b now_ns l.qps l.burst l.nx_qps

  abbrev charging : TokenBucket → TokenBucket × Bool
  charging b = try_charge_nxdomain b now_ns l.qps l.burst l.nx_qps

  pub check_exempt :
      (l.enabled ≡ false) ⊎ (contains l.whitelist ip ≡ true)
      → check l ip protocol now_ns ≡ (l, allow)
  unfolding check
  check_exempt (inl off) = simp off
  check_exempt (inr listed) = elim (Bool-cases l.enabled) [
    | inl on ↦ simp (on, listed)
    | inr off ↦ simp off
  ]

  pub check_limited :
      l.enabled ≡ true
      → contains l.whitelist ip ≡ false
      → check l ip protocol now_ns ≡ spend l ip protocol consuming now_ns
  unfolding check
  check_limited on limited = simp (on, limited)

  charge_exempt :
      (limits_nxdomain l ≡ false) ⊎ (contains l.whitelist ip ≡ true)
      → charge_nxdomain l ip protocol now_ns ≡ (l, allow)
  unfolding charge_nxdomain
  charge_exempt (inl off) = simp off
  charge_exempt (inr listed) = elim (Bool-cases (limits_nxdomain l)) [
    | inl on ↦ simp (on, listed)
    | inr off ↦ simp off
  ]

  charge_limited :
      limits_nxdomain l ≡ true
      → contains l.whitelist ip ≡ false
      → charge_nxdomain l ip protocol now_ns ≡ spend l ip protocol charging now_ns
  unfolding charge_nxdomain
  charge_limited on limited = simp (on, limited)

  -- A call for one client, of either kind, changes the buckets of no other subnet, and none of
  -- the other kind of transport: a flood over UDP does not touch a subnet's stream budget.
  pub check_others :
      (s : Bool) (k : ℕ)
      → (k ≢ key l.grouping ip) ⊎ (s ≢ on_stream protocol)
      → (Dict.get ℕ_discrete k (buckets (check l ip protocol now_ns).0 s)
          ≡ Dict.get ℕ_discrete k (buckets l s))
        × (Dict.get ℕ_discrete k (buckets (charge_nxdomain l ip protocol now_ns).0 s)
            ≡ Dict.get ℕ_discrete k (buckets l s))
  check_others s k other = (
    elim (Bool-cases l.enabled) [
      | inr off ↦ rw (check_exempt (inl off)) refl
      | inl on ↦ elim (Bool-cases (contains l.whitelist ip)) [
        | inl listed ↦ rw (check_exempt (inr listed)) refl
        | inr limited ↦ rw (check_limited on limited) (spend_others consuming s k other)
      ]
    ],
    elim (Bool-cases (limits_nxdomain l)) [
      | inr off ↦ rw (charge_exempt (inl off)) refl
      | inl on ↦ elim (Bool-cases (contains l.whitelist ip)) [
        | inl listed ↦ rw (charge_exempt (inr listed)) refl
        | inr limited ↦ rw (charge_limited on limited) (spend_others charging s k other)
      ]
    ],
  )

  -- The bucket that a call for this client works on, refilled.
  abbrev refilled : TokenBucket
  refilled =
      refill (bucket_of l (on_stream protocol) (key l.grouping ip) now_ns) now_ns l.qps l.burst
        l.nx_qps

  consumed_iff :
      (b : TokenBucket) (qps burst nx_qps : ℕ)
      → ((try_consume b now_ns qps burst nx_qps).1 ≡ true)
        ↔ (milli ≤ (refill b now_ns qps burst nx_qps).tokens_milli)
  unfolding try_consume
  consumed_iff b qps burst nx_qps = (λ e. ground arith, λ h. ground arith)

  -- A query is allowed exactly when the limiter is off, the client is whitelisted, or the bucket
  -- of its subnet and kind of transport, created full on first use, holds a whole token once it is
  -- refilled for the time since its last refill.
  check-allow_iff :
      ((check l ip protocol now_ns).1 ≡ allow)
      ↔ ((l.enabled ≡ false) ⊎ ((contains l.whitelist ip ≡ true) ⊎ (milli ≤ refilled.tokens_milli)))
  check-allow_iff = elim (Bool-cases l.enabled) [
    | inr off ↦ rw (check_exempt (inl off)) (λ e. inl off, λ e. refl)
    | inl on ↦ elim (Bool-cases (contains l.whitelist ip)) [
      | inl listed ↦ rw (check_exempt (inr listed)) (λ e. inr (inl listed), λ e. refl)
      | inr limited ↦
          let iff =
            consumed_iff (bucket_of l (on_stream protocol) (key l.grouping ip) now_ns) l.qps l.burst
              l.nx_qps in
          rw (check_limited on limited) (
            λ e. inr (inr (iff.0 ((spend-allow_iff consuming).0 e))),
            λ h. (spend-allow_iff consuming).1 (iff.1 (enough on limited h)),
          )
    ]
  ]
    where
      enough :
          l.enabled ≡ true
          → contains l.whitelist ip ≡ false
          → (l.enabled ≡ false)
            ⊎ ((contains l.whitelist ip ≡ true) ⊎ (milli ≤ refilled.tokens_milli))
          → milli ≤ refilled.tokens_milli
      enough on limited (inl off) = cc
      enough on limited (inr (inl listed)) = cc
      enough on limited (inr (inr h)) = h
