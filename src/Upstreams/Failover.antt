-- ===== src/Upstreams/Failover.antt =====
-- crates/infrastructure/src/dns/load_balancer/failover.rs.
use ferrous_dns.Base.{Bool, true, ◌&&◌, List, [], ◌∷◌, ◌++◌}
use ferrous_dns.Upstreams.Errors.{transport_no_healthy_servers, is_servfail, all_servers_failed}
use ferrous_dns.Upstreams.Query.{ok, err, UpstreamResult, QueryContext, World, Asked, query_server}

module _ {K : Type 0} (same : Discrete K) (w : World K) where
  -- The loop over the servers left.
  unfoldable pub try_next : QueryContext K → Bool → List K → List K → Asked K UpstreamResult
  try_next ctx all_servfail asked [] = (asked, err (all_servers_failed all_servfail))
  try_next ctx all_servfail asked (protocol ∷ servers) =
      elim (query_server same w ctx asked protocol) [
        | ok r ↦ (asked ++ protocol ∷ [], ok r)
        | err e ↦ try_next ctx (all_servfail && is_servfail e) (asked ++ protocol ∷ []) servers
      ]

  unfoldable pub query : QueryContext K → List K → Asked K UpstreamResult
  query ctx asked = elim ctx.servers [
    | [] ↦ (asked, err transport_no_healthy_servers)
    | _ ∷ _ ↦ try_next ctx true asked ctx.servers
  ]
