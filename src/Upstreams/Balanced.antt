-- ===== src/Upstreams/Balanced.antt =====
-- crates/infrastructure/src/dns/load_balancer/balanced.rs, the round-robin.
use ferrous_dns.Base.{
  ℕ, zero, suc, ◌+◌, ◌%◌, ◌^◌, Bool, true, ◌&&◌, Option, none, some, List, [], ◌∷◌, ◌++◌, length,
  get_elem?,
}
use ferrous_dns.Upstreams.Errors.{transport_no_healthy_servers, is_servfail, all_servers_failed}
use ferrous_dns.Upstreams.Query.{ok, err, UpstreamResult, QueryContext, World, Asked, query_server}

-- `next.fetch_add(1, Ordering::Relaxed)`: what the counter holds after.
abbrev pub fetch_add : ℕ → ℕ
fetch_add next = (next + 1) % 2 ^ 64

module _ {K : Type 0} (same : Discrete K) (w : World K) where
  -- The rounds left of `for i in 0..ctx.servers.len()`; `none` is an index out of bounds.
  unfoldable pub try_from :
      QueryContext K → ℕ → Bool → List K → ℕ → ℕ → Option (Asked K UpstreamResult)
  try_from ctx start_index all_servfail asked i zero =
      some (asked, err (all_servers_failed all_servfail))
  try_from ctx start_index all_servfail asked i (suc rounds) =
      elim (get_elem? ctx.servers ((start_index + i) % length ctx.servers)) [
        | none ↦ none
        | some protocol ↦ elim (query_server same w ctx asked protocol) [
          | ok r ↦ some (asked ++ protocol ∷ [], ok r)
          | err e ↦
              try_from ctx start_index (all_servfail && is_servfail e) (asked ++ protocol ∷ [])
                (i + 1) rounds
        ]
      ]

  -- What is asked and returned, and the counter after.
  unfoldable pub query : QueryContext K → ℕ → List K → Option (Asked K UpstreamResult) × ℕ
  query ctx next asked = elim ctx.servers [
    | [] ↦ (some (asked, err transport_no_healthy_servers), next)
    | _ ∷ _ ↦
        (try_from ctx (next % length ctx.servers) true asked 0 (length ctx.servers), fetch_add next)
  ]
