-- ===== src/RateLimit/Limiter/Eviction.antt =====
-- The eviction task of mod.rs against the budgets: what a client is granted does not depend on it.
use ferrous_dns.Base.{
  ℕ, ◌-◌, ◌*◌, ◌^◌, ◌≤◌, ◌<◌, ◌≡◌, ◌⊎◌, ◌∙◌, inl, inr, refl, sym, ap, Bool, true, false, Bool-cases,
  Option, none, some, Option-cases, ℕ_discrete, if◌then◌else◌, arith, ltb, ◌==◌,
}
use native.Mathlib.Nat.{mul-le-mul_right}
use ferrous_dns.Base.Dict
use ferrous_dns.Ip.{IpAddr}
use ferrous_dns.RateLimit.Bucket.{TokenBucket, new, refill, try_consume, try_decrement}
use ferrous_dns.RateLimit.Bucket.Admission.{Holds}
use ferrous_dns.RateLimit.Bucket.Recovery.{NoWrap, refill-eq-new}
use ferrous_dns.RateLimit.Subnet.{key}
use ferrous_dns.RateLimit.Limiter.{
  DnsRateLimiter, allow, ClientProtocol, on_stream, buckets, bucket_of, check, evict_stale,
  over_budget,
}
use ferrous_dns.RateLimit.Limiter.Isolation.{consuming, check_exempt, check_limited, spend-decision}
use ferrous_dns.RateLimit.Whitelist.{contains}

-- Every bucket is within its capacity, and no subnet has two.
pub record IsValid (l : DnsRateLimiter) : Type 0 where
  pub distinct : (s : Bool) → Dict.IsDistinct ℕ_discrete (buckets l s)
  pub within :
      (s : Bool) (k : ℕ) (b : TokenBucket)
      → Dict.get ℕ_discrete k (buckets l s) ≡ some b
      → Holds b l.burst l.nx_qps

-- The time to live covers the burst at the configured rate, and two seconds; the sums of a refill
-- stay in range up to the time `now_ns`.
pub record Covers (l : DnsRateLimiter) (now_ns : ℕ) : Type 0 where
  pub burst_refills : l.burst * 1_000_000_000 ≤ l.stale_ttl_ns * l.qps
  pub two_seconds : 2_000_000_000 ≤ l.stale_ttl_ns
  pub burst_u32 : l.burst < 2 ^ 32
  pub nx_u32 : l.nx_qps < 2 ^ 32
  pub safe : NoWrap now_ns l.qps
  pub nx_safe : NoWrap now_ns l.nx_qps

refill-new :
    (qps burst nx_qps now_ns : ℕ)
    → refill (new burst nx_qps now_ns) now_ns qps burst nx_qps ≡ new burst nx_qps now_ns
unfolding refill new
refill-new qps burst nx_qps now_ns = let e : (now_ns - now_ns == 0) ≡ true = ground arith in rw e

bucket_or_new : Option TokenBucket → ℕ → ℕ → ℕ → TokenBucket
bucket_or_new none burst nx_qps now_ns = new burst nx_qps now_ns
bucket_or_new (some b) burst nx_qps now_ns = b

bucket_of_lem :
    (l : DnsRateLimiter) (s : Bool) (k now_ns : ℕ)
    → (bucket_of l s k now_ns
        ≡ bucket_or_new (Dict.get ℕ_discrete k (buckets l s)) l.burst l.nx_qps now_ns)
unfolding bucket_of bucket_or_new
bucket_of_lem l s k now_ns = elim (Option-cases (Dict.get ℕ_discrete k (buckets l s))) [
  | inl e ↦ rw (e, bucket_of)
  | inr (b, e) ↦ rw (e, bucket_of)
]

module _ (l : DnsRateLimiter) (evicted_ns now_ns : ℕ) (valid : IsValid l) (c : Covers l now_ns)
    (later : evicted_ns ≤ now_ns) where
  abbrev is_fresh : ℕ → TokenBucket → Bool
  is_fresh k b = ltb (evicted_ns - b.last_refill_ns) l.stale_ttl_ns

  abbrev evicted : DnsRateLimiter
  evicted = record l {
    udp_buckets = Dict.retain ℕ_discrete is_fresh l.udp_buckets;
    stream_buckets = Dict.retain ℕ_discrete is_fresh l.stream_buckets;
  }

  evict_stale-cases : (evict_stale l evicted_ns ≡ l) ⊎ (evict_stale l evicted_ns ≡ evicted)
  unfolding evict_stale
  evict_stale-cases = elim (Bool-cases l.enabled) [
    | inr off ↦ inl (simp off)
    | inl on ↦ elim (Bool-cases (l.stale_ttl_ns == 0)) [
      | inl never ↦ inl (simp (on, never))
      | inr some_ttl ↦ inr (simp (on, some_ttl))
    ]
  ]

  buckets-evicted : (s : Bool) → buckets evicted s ≡ Dict.retain ℕ_discrete is_fresh (buckets l s)
  buckets-evicted true = refl
  buckets-evicted false = refl

  -- A stale bucket would be full by now.
  stale_full :
      (s : Bool) (k : ℕ) (b : TokenBucket)
      → Dict.get ℕ_discrete k (buckets l s) ≡ some b
      → is_fresh k b ≡ false
      → refill b now_ns l.qps l.burst l.nx_qps ≡ new l.burst l.nx_qps now_ns
  stale_full s k b e stale =
      refill-eq-new l.qps l.burst l.nx_qps b now_ns (valid.within s k b e) c.burst_u32 c.nx_u32
        (omega (arith, c.safe, mul-le-mul_right l.qps short))
        (omega (arith, c.nx_safe, mul-le-mul_right l.nx_qps short))
        (omega (arith, c.burst_refills, mul-le-mul_right l.qps long))
        (omega (arith, c.two_seconds, long))
    where
      short : now_ns - b.last_refill_ns ≤ now_ns
      short = omega arith

      long : l.stale_ttl_ns ≤ now_ns - b.last_refill_ns
      long = ground arith

  refill_same :
      (s : Bool) (k : ℕ)
      → (refill (bucket_of evicted s k now_ns) now_ns l.qps l.burst l.nx_qps
          ≡ refill (bucket_of l s k now_ns) now_ns l.qps l.burst l.nx_qps)
  unfolding bucket_or_new
  refill_same s k = rw (bucket_of_lem evicted s k now_ns) (
      rw (bucket_of_lem l s k now_ns) (
        rw (buckets-evicted s) (elim (Option-cases (Dict.get ℕ_discrete k (buckets l s))) [
          | inl absent ↦
              rw absent (rw (Dict.get-retain-none ℕ_discrete is_fresh k (buckets l s) absent) refl)
          | inr (b, e) ↦ rw e (elim (Bool-cases (is_fresh k b)) [
            | inl kept ↦ rw (Dict.get-retain_kept ℕ_discrete is_fresh k b (buckets l s) e kept) refl
            | inr stale ↦
                rw
                  (Dict.get-retain_dropped ℕ_discrete is_fresh k b (buckets l s) (valid.distinct s)
                    e stale)
                  (refill-new l.qps l.burst l.nx_qps now_ns ∙ sym (stale_full s k b e stale))
          ])
        ])))

  module _ (ip : IpAddr) (protocol : Option ClientProtocol) where
    over_budget-evicted :
        (over_budget evicted (on_stream protocol)).1 ≡ (over_budget l (on_stream protocol)).1
    unfolding over_budget
    over_budget-evicted = ground arith

    consume_same :
        consuming evicted ip protocol now_ns
          (bucket_of evicted (on_stream protocol) (key l.grouping ip) now_ns)
        ≡ consuming l ip protocol now_ns
            (bucket_of l (on_stream protocol) (key l.grouping ip) now_ns)
    unfolding try_consume
    consume_same =
        ap
          (λ b.
            let (tokens, done) = try_decrement b.tokens_milli in
            (record b { tokens_milli = tokens }, done))
          (refill_same (on_stream protocol) (key l.grouping ip))

    check-evicted : (check evicted ip protocol now_ns).1 ≡ (check l ip protocol now_ns).1
    check-evicted =
        let spent_here : Bool =
          (consuming l ip protocol now_ns
            (bucket_of l (on_stream protocol) (key l.grouping ip) now_ns)).1 in
        elim (Bool-cases l.enabled) [
          | inr off ↦
              rw (check_exempt evicted ip protocol now_ns (inl off))
                (rw (check_exempt l ip protocol now_ns (inl off)) refl)
          | inl on ↦ elim (Bool-cases (contains l.whitelist ip)) [
            | inl listed ↦
                rw (check_exempt evicted ip protocol now_ns (inr listed))
                  (rw (check_exempt l ip protocol now_ns (inr listed)) refl)
            | inr limited ↦ rw (check_limited evicted ip protocol now_ns on limited) (
                rw (check_limited l ip protocol now_ns on limited) (
                  spend-decision evicted ip protocol now_ns (consuming evicted ip protocol now_ns)
                  ∙ ap (λ r. if r.1 then allow else (over_budget evicted (on_stream protocol)).1)
                      consume_same
                  ∙ ap (λ d. if spent_here then allow else d) over_budget-evicted
                  ∙ sym (spend-decision l ip protocol now_ns (consuming l ip protocol now_ns))))
          ]
        ]

    -- For a limiter whose buckets are within their capacity, one for each subnet: if the time to
    -- live covers the burst at the configured rate and two seconds, the query comes no earlier than
    -- a tick of the eviction task, and no sum of a refill overflows, the decision on the query
    -- after the tick is the decision without it.
    pub check-evict_stale :
        (check (evict_stale l evicted_ns) ip protocol now_ns).1 ≡ (check l ip protocol now_ns).1
    check-evict_stale = elim evict_stale-cases [
      | inl same ↦ rw same refl
      | inr dropped ↦ rw dropped check-evicted
    ]
