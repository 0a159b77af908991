-- ===== src/Upstreams/Parallel.antt =====
-- crates/infrastructure/src/dns/load_balancer/parallel.rs. The servers settle in any order, and the
-- timeout can come between any two of them: both are the world's, through `settled`.
use ferrous_dns.Base.{ℕ, Bool, true, false, ◌&&◌, leb, if◌then◌else◌, List, [], ◌∷◌, ◌++◌, length}
use ferrous_dns.Base.Ascii.{codes}
use ferrous_dns.Upstreams.Errors.{
  DomainError, transport_timeout, transport_no_healthy_servers, transport_all_servers_unreachable,
  all_upstreams_servfail, is_servfail, all_servers_failed,
}
use ferrous_dns.Upstreams.Query.{
  Result, ok, err, UpstreamResult, QueryContext, Exchange, World, Asked, attempt, query_server,
}

unfoldable pub pair_failure : DomainError → DomainError → DomainError
pair_failure first second = elim (is_servfail first) [
  | true ↦ elim (is_servfail second) [ true ↦ all_upstreams_servfail | false ↦ second ]
  | false ↦ elim (is_servfail second) [ true ↦ transport_all_servers_unreachable | false ↦ second ]
]

module _ {K A : Type 0} (attempt_of : K × Exchange → Result A) where
  -- The two futures of a pair: the one that settles first, then the other.
  unfoldable pub race : List (K × Exchange) → Result A
  race [] = err (transport_timeout (codes "parallel(2 servers)"))
  race (s ∷ settled) = elim (attempt_of s) [
    | ok r ↦ ok r
    | err first ↦ elim settled [
      | [] ↦ err (transport_timeout (codes "parallel(2 servers)"))
      | t ∷ _ ↦ elim (attempt_of t) [ ok r ↦ ok r | err second ↦ err (pair_failure first second) ]
    ]
  ]

  -- The loop over the futures of three servers or more, given whether all of them settle and the
  -- name of the timeout's server.
  unfoldable pub first_success : List ℕ → Bool → Bool → List (K × Exchange) → Result A
  first_success label in_time all_servfail [] =
      if in_time then err (all_servers_failed all_servfail) else err (transport_timeout label)
  first_success label in_time all_servfail (s ∷ settled) = elim (attempt_of s) [
    | ok r ↦ ok r
    | err e ↦ first_success label in_time (all_servfail && is_servfail e) settled
  ]

module _ {K : Type 0} (same : Discrete K) (w : World K) where
  unfoldable pub query : QueryContext K → List K → Asked K UpstreamResult
  query ctx asked = elim ctx.servers [
    | [] ↦ (asked, err transport_no_healthy_servers)
    | only ∷ rest ↦ elim rest [
      | [] ↦ (asked ++ only ∷ [], query_server same w ctx asked only)
      | s1 ∷ more ↦ (
        asked ++ ctx.servers,
        elim more [
          | [] ↦ race (λ s. attempt same w ctx s.0 s.1) (w.settled asked ctx.servers)
          | _ ∷ _ ↦
              let settled = w.settled asked ctx.servers in
              first_success (λ s. attempt same w ctx s.0 s.1)
                (codes "parallel(" ++ (w.decimal (length ctx.servers) ++ codes " servers)"))
                (leb (length ctx.servers) (length settled)) true settled
        ],
      )
    ]
  ]
