-- ===== src/RateLimit/Tests.antt =====
-- Runs of the rate limiter on concrete inputs, from the tests of token_bucket.rs and mod.rs, and
-- its theorems at inputs that meet their hypotheses.
use ferrous_dns.Base.{
  ℕ, ◌+◌, ◌-◌, ◌*◌, ◌^◌, ◌≤◌, ◌<◌, ◌≡◌, ◌↔◌, inr, refl, Bool, true, false, Option, none, some, List,
  [], ◌∷◌, any, arith, ℕ_discrete,
}
use ferrous_dns.Base.Dict
use ferrous_dns.Ip.{IpAddr}
use ferrous_dns.RateLimit.Bucket.{TokenBucket, try_consume, refill, refill_amount, nx_burst_milli}
use ferrous_dns.RateLimit.Bucket.Admission.{Holds, Call, run, run-le_burst_and_rate}
use ferrous_dns.RateLimit.Bucket.Recovery.{try_consume-true}
use ferrous_dns.RateLimit.Subnet
use ferrous_dns.RateLimit.Subnet.{key}
use ferrous_dns.RateLimit.Subnet.Groups.{IsAddress, SameSubnet, key-eq_iff_SameSubnet}
use ferrous_dns.RateLimit.Whitelist.{Str, from_cidrs, contains}
use ferrous_dns.RateLimit.Whitelist.Covers.{covers, contains-from_cidrs}
use ferrous_dns.RateLimit.Limiter
use ferrous_dns.RateLimit.Limiter.{
  DnsRateLimiter, RateLimitConfig, ClientProtocol, allow, refuse, check, charge_nxdomain,
  evict_stale, on_stream, buckets,
}
use ferrous_dns.RateLimit.Limiter.Slips.{slips, slips_share}
use ferrous_dns.RateLimit.Limiter.Isolation.{check_others}
use ferrous_dns.RateLimit.Limiter.Eviction.{IsValid, check-evict_stale}

-- QPS 10, BURST 5, NX_QPS 3.
abbrev full : TokenBucket
full = record { tokens_milli = 5000; last_refill_ns = 0; nxdomain_tokens_milli = 6000 }

abbrev drained : TokenBucket
drained = record full { tokens_milli = 0 }

partial_refill : (try_consume drained 100_000_000 10 5 3).1 ≡ true
unfolding try_consume refill refill_amount
partial_refill = refl

full-Holds : Holds full 5 3
unfolding nx_burst_milli
full-Holds = omega arith

drained-Holds : Holds drained 5 3
unfolding nx_burst_milli
drained-Holds = omega arith

abbrev mixed_calls : List Call
mixed_calls = Call.consume 0 ∷ Call.charge 500 ∷ Call.consume 2_000_000_000 ∷ []

run-le_burst_and_rate_example :
    1_000_000_000 * (run 10 5 3 full mixed_calls).1 ≤ 1_000_000_000 * 5 + (2_000_000_000 - 0) * 10
run-le_burst_and_rate_example =
    run-le_burst_and_rate 10 5 3 full mixed_calls 2_000_000_000 full-Holds (omega arith)
      (omega arith)

try_consume-true_example : (try_consume drained 100_000_000 10 5 3).1 ≡ true
try_consume-true_example =
    try_consume-true 10 5 3 drained 100_000_000 drained-Holds (omega arith) (omega arith)
      (omega arith) (omega arith)

-- 10.0.0.1 and 10.0.9.1.
abbrev client : IpAddr
client = IpAddr.v4 0x0a000001

abbrev other : IpAddr
other = IpAddr.v4 0x0a000901

key-eq_iff_SameSubnet_example :
    (key (Subnet.new 24 48) client ≡ key (Subnet.new 24 48) other) ↔ SameSubnet 24 48 client other
key-eq_iff_SameSubnet_example =
    key-eq_iff_SameSubnet 24 48 client other (omega arith) (omega arith) (omega arith) (omega arith)

-- A parser that knows the prefix "8" and the address "n".
abbrev parse_prefix : Str → Option ℕ
parse_prefix [] = none
parse_prefix (c ∷ text) = some 8

abbrev parse_ip : Str → Option IpAddr
parse_ip [] = none
parse_ip (c ∷ text) = some (IpAddr.v4 0x0a000000)

parse_ip-IsAddress : (text : Str) (a : IpAddr) → parse_ip text ≡ some a → IsAddress a
parse_ip-IsAddress [] a e = cc
parse_ip-IsAddress (c ∷ text) a e = let f : IpAddr.v4 0x0a000000 ≡ a = cc in rw (← f) (omega arith)

abbrev cidrs : List Str
cidrs = (b'n' ∷ b'/' ∷ b'8' ∷ []) ∷ []

contains-from_cidrs_example :
    contains (from_cidrs parse_prefix parse_ip cidrs) client
    ≡ any (covers parse_prefix parse_ip client) cidrs
contains-from_cidrs_example =
    contains-from_cidrs parse_prefix parse_ip parse_ip-IsAddress cidrs client (omega arith)

abbrev config : RateLimitConfig
config = record {
  enabled = true;
  dry_run = false;
  queries_per_second = 1;
  burst_size = 1;
  nxdomain_per_second = 1;
  ipv4_prefix_len = 24;
  ipv6_prefix_len = 48;
  slip_ratio = 2;
  stale_entry_ttl_secs = 300;
  whitelist = record { v4_entries = []; v6_entries = [] };
}

abbrev limiter : DnsRateLimiter
limiter = record {
  enabled = true;
  dry_run = false;
  qps = 1;
  burst = 1;
  nx_qps = 1;
  grouping = record { v4_shift = 8; v6_shift = 16; v6_mask = 2 ^ 64 - 1 };
  slip_ratio = 2;
  stale_ttl_ns = 300_000_000_000;
  whitelist = record { v4_entries = []; v6_entries = [] };
  udp_buckets = [];
  stream_buckets = [];
  slip_counter = 0;
}

limiter-new : Limiter.new config ≡ limiter
unfolding Limiter.new Subnet.new
limiter-new = refl

slips_share_example : (100 ≤ (slips 100 limiter).1 * 2) × ((slips 100 limiter).1 * 2 < 100 + 2)
slips_share_example = slips_share 100 limiter refl (omega arith) refl (omega arith)

check_others_example :
    (Dict.get ℕ_discrete 7 (buckets (check limiter client none 5).0 true)
      ≡ Dict.get ℕ_discrete 7 (buckets limiter true))
    × (Dict.get ℕ_discrete 7 (buckets (charge_nxdomain limiter client none 5).0 true)
        ≡ Dict.get ℕ_discrete 7 (buckets limiter true))
check_others_example = check_others limiter client none 5 true 7 (inr (λ e. cc))

-- The client's bucket is stale at 400 seconds, the one of another subnet is not.
abbrev drained_at : ℕ → TokenBucket
drained_at now_ns = record { tokens_milli = 0; last_refill_ns = now_ns; nxdomain_tokens_milli = 0 }

abbrev crowded : DnsRateLimiter
crowded = record limiter {
  udp_buckets = (key limiter.grouping client, drained_at 0) ∷ (7, drained_at 399_000_000_000) ∷ [];
}

stale_is_evicted :
    (evict_stale crowded 400_000_000_000).udp_buckets ≡ (7, drained_at 399_000_000_000) ∷ []
unfolding evict_stale Dict.retain
stale_is_evicted = refl

allowed_after : (check (evict_stale crowded 400_000_000_000) client none 401_000_000_000).1 ≡ allow
unfolding evict_stale Dict.retain check contains Limiter.spend try_consume refill Dict.get
    ℕ_discrete key ferrous_dns.RateLimit.Bucket.new
allowed_after = refl

drained_at-Holds : (now_ns : ℕ) → Holds (drained_at now_ns) 1 1
unfolding nx_burst_milli
drained_at-Holds now_ns = omega arith

crowded-IsValid : IsValid crowded
unfolding Dict.get ℕ_discrete key
crowded-IsValid = record {
  distinct = λ s. elim s as (λ t. Dict.IsDistinct ℕ_discrete (buckets crowded t)) [
    | true ↦ tt
    | false ↦ (refl, (refl, tt))
  ];
  within = λ s k b e. within s k b e;
}
  where
    within :
        (s : Bool) (k : ℕ) (b : TokenBucket)
        → Dict.get ℕ_discrete k (buckets crowded s) ≡ some b
        → Holds b 1 1
    within true k b e = cc
    within false k b e =
        Dict.get-All ℕ_discrete (λ t. Holds t 1 1) k b crowded.udp_buckets
          (drained_at-Holds 0, (drained_at-Holds 399_000_000_000, tt)) e

check-evict_stale_example :
    (check (evict_stale crowded 400_000_000_000) client none 401_000_000_000).1
    ≡ (check crowded client none 401_000_000_000).1
check-evict_stale_example =
    check-evict_stale crowded 400_000_000_000 401_000_000_000 crowded-IsValid (omega arith)
      (omega arith) client none
