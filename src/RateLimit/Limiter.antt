-- ===== src/RateLimit/Limiter.antt =====
-- `DnsRateLimiter`, rate_limiter/mod.rs. A call returns the limiter after it, and its clock reading
-- is an argument; `is_stream` is from crates/domain/src/entities/query_log.rs.
pub mod Isolation
pub mod Slips
pub mod Eviction
use ferrous_dns.Base.{
  ℕ, ◌+◌, ◌-◌, ◌*◌, ◌%◌, ◌^◌, min, Bool, true, false, not, ◌&&◌, ltb, ◌==◌, if◌then◌else◌, Option,
  none, some, List, [], ℕ_discrete,
}
use ferrous_dns.Base.Dict
use ferrous_dns.Ip.{IpAddr}
use ferrous_dns.RateLimit.Bucket
use ferrous_dns.RateLimit.Bucket.{TokenBucket, has_tokens, try_consume, try_charge_nxdomain}
use ferrous_dns.RateLimit.Subnet
use ferrous_dns.RateLimit.Subnet.{SubnetGrouping, key}
use ferrous_dns.RateLimit.Whitelist
use ferrous_dns.RateLimit.Whitelist.{WhitelistSet, contains}

pub data RateLimitDecision : Type 0 where
  allow refuse slip dry_run_would_refuse : RateLimitDecision

pub data ClientProtocol : Type 0 where
  udp tcp dot doh doq : ClientProtocol

abbrev pub is_stream : ClientProtocol → Bool
is_stream udp = false
is_stream tcp = true
is_stream dot = true
is_stream doh = true
is_stream doq = true

abbrev pub Buckets : Type 0
Buckets = List (ℕ × TokenBucket)

-- The fields of `RateLimitConfig` that the limiter reads, its whitelist parsed.
pub record RateLimitConfig : Type 0 where
  pub enabled : Bool
  pub dry_run : Bool
  pub queries_per_second : ℕ
  pub burst_size : ℕ
  pub nxdomain_per_second : ℕ
  pub ipv4_prefix_len : ℕ
  pub ipv6_prefix_len : ℕ
  pub slip_ratio : ℕ
  pub stale_entry_ttl_secs : ℕ
  pub whitelist : WhitelistSet

pub record DnsRateLimiter : Type 0 where
  pub enabled : Bool
  pub dry_run : Bool
  pub qps : ℕ
  pub burst : ℕ
  pub nx_qps : ℕ
  pub grouping : SubnetGrouping
  pub slip_ratio : ℕ
  pub stale_ttl_ns : ℕ
  pub whitelist : WhitelistSet
  pub udp_buckets : Buckets
  pub stream_buckets : Buckets
  pub slip_counter : ℕ

unfoldable pub new : RateLimitConfig → DnsRateLimiter
new c = record {
  enabled = c.enabled;
  dry_run = c.dry_run;
  qps = c.queries_per_second;
  burst = c.burst_size;
  nx_qps = c.nxdomain_per_second;
  grouping = Subnet.new c.ipv4_prefix_len c.ipv6_prefix_len;
  slip_ratio = c.slip_ratio;
  stale_ttl_ns = min (c.stale_entry_ttl_secs * 1_000_000_000) (2 ^ 64 - 1);
  whitelist = c.whitelist;
  udp_buckets = [];
  stream_buckets = [];
  slip_counter = 0;
}

unfoldable pub disabled : DnsRateLimiter
disabled = record {
  enabled = false;
  dry_run = false;
  qps = 0;
  burst = 0;
  nx_qps = 0;
  grouping = Subnet.new 24 56;
  slip_ratio = 0;
  stale_ttl_ns = 0;
  whitelist = Whitelist.empty;
  udp_buckets = [];
  stream_buckets = [];
  slip_counter = 0;
}

-- `protocol.is_some_and(ClientProtocol::is_stream)`.
abbrev pub on_stream : Option ClientProtocol → Bool
on_stream none = false
on_stream (some protocol) = is_stream protocol

abbrev pub buckets : DnsRateLimiter → Bool → Buckets
buckets l stream = if stream then l.stream_buckets else l.udp_buckets

abbrev pub with_buckets : DnsRateLimiter → Bool → Buckets → DnsRateLimiter
with_buckets l true m = record l { stream_buckets = m }
with_buckets l false m = record l { udp_buckets = m }

-- The counter is fetched, then incremented in `u64`; the branch is not reached at the ratio 0.
unfoldable pub over_budget : DnsRateLimiter → Bool → DnsRateLimiter × RateLimitDecision
over_budget l stream =
    if l.dry_run
    then (l, dry_run_would_refuse)
    else if ltb 0 l.slip_ratio && not stream
    then (
      record l { slip_counter = (l.slip_counter + 1) % 2 ^ 64 },
      if l.slip_counter % l.slip_ratio == 0 then slip else refuse,
    )
    else (l, refuse)

-- `entry(key).or_insert_with(..)`: the bucket of the key, or a full one.
unfoldable pub bucket_of : DnsRateLimiter → Bool → ℕ → ℕ → TokenBucket
bucket_of l stream k now_ns = elim (Dict.get ℕ_discrete k (buckets l stream)) [
  | none ↦ Bucket.new l.burst l.nx_qps now_ns
  | some b ↦ b
]

unfoldable pub spend :
    DnsRateLimiter
    → IpAddr
    → Option ClientProtocol
    → (TokenBucket → TokenBucket × Bool)
    → ℕ
    → DnsRateLimiter × RateLimitDecision
unfolding bucket_of
spend l client_ip protocol try_spend now_ns =
    let stream = on_stream protocol in
    let k = key l.grouping client_ip in
    let (b, covered) = try_spend (bucket_of l stream k now_ns) in
    let l' = with_buckets l stream (Dict.insert ℕ_discrete k b (buckets l stream)) in
    if covered then (l', allow) else over_budget l' stream

unfoldable pub check :
    DnsRateLimiter → IpAddr → Option ClientProtocol → ℕ → DnsRateLimiter × RateLimitDecision
check l client_ip protocol now_ns =
    if not l.enabled
    then (l, allow)
    else if contains l.whitelist client_ip
    then (l, allow)
    else spend l client_ip protocol (λ b. try_consume b now_ns l.qps l.burst l.nx_qps) now_ns

unfoldable pub limits_nxdomain : DnsRateLimiter → Bool
limits_nxdomain l = l.enabled && ltb 0 l.nx_qps

unfoldable pub charge_nxdomain :
    DnsRateLimiter → IpAddr → Option ClientProtocol → ℕ → DnsRateLimiter × RateLimitDecision
charge_nxdomain l client_ip protocol now_ns =
    if not (limits_nxdomain l)
    then (l, allow)
    else if contains l.whitelist client_ip
    then (l, allow)
    else spend l client_ip protocol (λ b. try_charge_nxdomain b now_ns l.qps l.burst l.nx_qps)
        now_ns

unfoldable pub is_allowed_enabled : DnsRateLimiter → IpAddr → Bool
is_allowed_enabled l client_ip =
    if contains l.whitelist client_ip
    then true
    else elim (Dict.get ℕ_discrete (key l.grouping client_ip) l.udp_buckets) [
      | none ↦ true
      | some b ↦ has_tokens b
    ]

unfoldable pub is_allowed : DnsRateLimiter → IpAddr → Bool
unfolding is_allowed_enabled
is_allowed l client_ip = if not l.enabled then true else is_allowed_enabled l client_ip

-- One tick of the eviction task, on both maps. The task runs if the limiter is enabled and its
-- time to live is not 0.
unfoldable pub evict_stale : DnsRateLimiter → ℕ → DnsRateLimiter
evict_stale l now_ns =
    let fresh = λ (k : ℕ) (b : TokenBucket). ltb (now_ns - b.last_refill_ns) l.stale_ttl_ns in
    if not l.enabled then l else if l.stale_ttl_ns == 0 then l else record l {
      udp_buckets = Dict.retain ℕ_discrete fresh l.udp_buckets;
      stream_buckets = Dict.retain ℕ_discrete fresh l.stream_buckets;
    }
