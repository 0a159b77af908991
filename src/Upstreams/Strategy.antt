-- ===== src/Upstreams/Strategy.antt =====
-- `Strategy::query_refs` of crates/infrastructure/src/dns/load_balancer/strategy.rs.
use ferrous_dns.Base.{ℕ, Option, some, List}
use ferrous_dns.Upstreams.Query.{UpstreamResult, QueryContext, World, Asked}
use ferrous_dns.Upstreams.Failover
use ferrous_dns.Upstreams.Balanced
use ferrous_dns.Upstreams.Parallel

pub data Strategy : Type 0 where
  parallel : Strategy
  balanced : ℕ → Strategy
  failover : Strategy

module _ {K : Type 0} (same : Discrete K) (w : World K) where
  -- What is asked and returned, `none` for a panic, and the strategy after.
  unfoldable pub query_refs :
      Strategy → QueryContext K → List K → Option (Asked K UpstreamResult) × Strategy
  query_refs parallel ctx asked = (some (Parallel.query same w ctx asked), parallel)
  query_refs (balanced next) ctx asked =
      let run = Balanced.query same w ctx next asked in (run.0, balanced run.1)
  query_refs failover ctx asked = (some (Failover.query same w ctx asked), failover)
