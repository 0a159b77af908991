-- ===== src/Upstreams/Pools.antt =====
-- The queries of a pool and of the live set, crates/infrastructure/src/dns/load_balancer/pool.rs.
-- The indices of `default_pools` are those of the pools that are not conditional, in their order:
-- the walk over them is here the walk over all pools that passes the conditional ones by.
use ferrous_dns.Base.{
  ℕ, Bool, true, false, not, ◌&&◌, ◌||◌, if◌then◌else◌, Option, none, some, is_some, List, [], ◌∷◌,
}
use ferrous_dns.Health.{HealthChecker, is_healthy}
use ferrous_dns.Upstreams.Errors.{
  DomainError, upstream_server_failure, all_upstreams_servfail, is_transport_error, is_servfail,
  all_servers_failed,
}
use ferrous_dns.Upstreams.Query.{Result, ok, err, UpstreamResult, World, Asked}
use ferrous_dns.Upstreams.Strategy.{Strategy, query_refs}

pub record PoolWithStrategy (K : Type 0) : Type 0 where
  pub name : List ℕ
  pub is_conditional : Bool
  pub strategy : Strategy
  pub server_protocols : List K
  pub server_displays : List (K × List ℕ)

pub data PoolFailure : Type 0 where
  final : DomainError → PoolFailure
  fell_through : Bool → PoolFailure

-- What a query of a pool gives; `panicked` is an index out of bounds.
pub data PoolAnswer : Type 0 where
  answered : UpstreamResult → PoolAnswer
  failed : PoolFailure → PoolAnswer
  panicked : PoolAnswer

abbrev pub keep {ℓ} : {K : Type ℓ} → (K → Bool) → List K → List K
keep p [] = []
keep p (x ∷ xs) = if p x then x ∷ keep p xs else keep p xs

abbrev pub is_empty {ℓ} : {K : Type ℓ} → List K → Bool
is_empty [] = true
is_empty (x ∷ xs) = false

-- `PoolWithStrategy::query`: the error's class.
unfoldable pub failure_of : DomainError → PoolFailure
failure_of e = if is_transport_error e then fell_through false else elim e [
  | upstream_server_failure server rcode ↦
      fell_through (is_servfail (upstream_server_failure server rcode))
  | all_upstreams_servfail ↦ fell_through (is_servfail all_upstreams_servfail)
  | other_error ↦ final other_error
]

module _ {K : Type 0} where
  abbrev pub answer_of : List K → Option (Asked K UpstreamResult) → List K × PoolAnswer
  answer_of asked none = (asked, panicked)
  answer_of asked (some (asked', ok r)) = (asked', answered r)
  answer_of asked (some (asked', err e)) = (asked', failed (failure_of e))

module _ {K : Type 0} (same : Discrete K) (w : World K) where
  -- The pool after, the servers asked, and the answer.
  unfoldable pub query :
      PoolWithStrategy K → List K → List K → PoolWithStrategy K × (List K × PoolAnswer)
  query pool servers asked =
      let run =
        query_refs same w pool.strategy
          (record {
            servers = servers;
            pool_name = pool.name;
            server_displays = pool.server_displays;
          })
          asked in
      (record pool { strategy = run.1 }, answer_of asked run.0)

module _ {K E : Type 0} (same : Discrete K) where
  unfoldable pub healthy_servers : Option (HealthChecker K E) → PoolWithStrategy K → List K
  healthy_servers none pool = pool.server_protocols
  healthy_servers (some checker) pool = keep (is_healthy same checker) pool.server_protocols

  -- Fail open within the pool.
  abbrev pub routed_servers : Option (HealthChecker K E) → PoolWithStrategy K → List K
  routed_servers checker pool =
      let servers = healthy_servers checker pool in
      if is_empty servers then pool.server_protocols else servers

-- The local variables of `query_default`, and the manager's flag `failing_open`.
pub record Walk (K : Type 0) : Type 0 where
  pub asked : List K
  pub any_healthy : Bool
  pub any_tried : Bool
  pub all_servfail : Bool
  pub failing_open : Bool

-- A loop returns from the function, or ends; `none` is a panic.
pub data Progress : Type 0 where
  returns : Option (Result UpstreamResult) → Progress
  ends : Progress

-- `leave_fail_open` at the first pool with a healthy server.
abbrev pub meet_healthy : {K : Type 0} → Walk K → Walk K
meet_healthy walk = record walk {
  any_healthy = true;
  failing_open = if walk.any_healthy then walk.failing_open else false;
}

module _ {K : Type 0} where
  -- The match on a pool's answer, given the pools left and the walk over them.
  abbrev pub go_on :
      PoolWithStrategy K
      → List (PoolWithStrategy K)
      → Walk K
      → PoolAnswer
      → (Walk K → List (PoolWithStrategy K) × (Walk K × Progress))
      → List (PoolWithStrategy K) × (Walk K × Progress)
  go_on pool pools walk (answered r) next = (pool ∷ pools, (walk, returns (some (ok r))))
  go_on pool pools walk panicked next = (pool ∷ pools, (walk, returns none))
  go_on pool pools walk (failed (final e)) next = (pool ∷ pools, (walk, returns (some (err e))))
  go_on pool pools walk (failed (fell_through servfail)) next =
      let rest =
        next (record walk { any_tried = true; all_servfail = walk.all_servfail && servfail }) in
      (pool ∷ rest.0, rest.1)

  -- What follows a loop: its return, or what comes after its end.
  abbrev pub or_else :
      List (PoolWithStrategy K) × (Walk K × Progress)
      → (List (PoolWithStrategy K)
          → Walk K
          → List (PoolWithStrategy K) × (Walk K × Option (Result UpstreamResult)))
      → List (PoolWithStrategy K) × (Walk K × Option (Result UpstreamResult))
  or_else (pools, (walk, returns r)) k = (pools, (walk, r))
  or_else (pools, (walk, ends)) k = k pools walk

  abbrev pub give_up :
      List (PoolWithStrategy K)
      → Walk K
      → List (PoolWithStrategy K) × (Walk K × Option (Result UpstreamResult))
  give_up pools walk =
      (pools, (walk, some (err (all_servers_failed (walk.any_tried && walk.all_servfail)))))

module _ {K : Type 0} (same : Discrete K) (w : World K) where
  -- Either loop of `query_default`, by the servers it selects of a pool and what it notes at one
  -- that has some: the pools after, the variables, and how the loop was left.
  unfoldable pub walk_pools :
      (PoolWithStrategy K → List K)
      → (Walk K → Walk K)
      → Walk K
      → List (PoolWithStrategy K)
      → List (PoolWithStrategy K) × (Walk K × Progress)
  walk_pools select note walk [] = ([], (walk, ends))
  walk_pools select note walk (pool ∷ pools) =
      elim (pool.is_conditional || is_empty (select pool)) [
        | true ↦ let rest = walk_pools select note walk pools in (pool ∷ rest.0, rest.1)
        | false ↦
            let run = query same w pool (select pool) walk.asked in
            go_on run.0 pools (record (note walk) { asked = run.1.0 }) run.1.1
              λ t. walk_pools select note t pools
      ]

module _ {K E : Type 0} (same : Discrete K) (w : World K) where
  abbrev pub fail_open :
      Option (HealthChecker K E)
      → List (PoolWithStrategy K)
      → Walk K
      → List (PoolWithStrategy K) × (Walk K × Option (Result UpstreamResult))
  fail_open checker pools walk =
      if not walk.any_healthy && is_some checker
      then or_else
          (walk_pools same w (λ pool. pool.server_protocols) (λ t. t)
            (record walk { failing_open = true }) pools)
          give_up
      else give_up pools walk

  unfoldable pub query_default :
      Option (HealthChecker K E)
      → Bool
      → List (PoolWithStrategy K)
      → List (PoolWithStrategy K) × (Walk K × Option (Result UpstreamResult))
  query_default checker failing_open pools =
      or_else
        (walk_pools same w (healthy_servers same checker) meet_healthy
          (record {
            asked = [];
            any_healthy = false;
            any_tried = false;
            all_servfail = true;
            failing_open = failing_open;
          })
          pools)
        (fail_open checker)

  unfoldable pub query_routed :
      Option (HealthChecker K E)
      → PoolWithStrategy K
      → PoolWithStrategy K × (List K × Option (Result UpstreamResult))
  query_routed checker pool =
      let servers = routed_servers same checker pool in
      if is_empty servers
      then (pool, ([], some (err (all_servers_failed false))))
      else let run = query same w pool servers [] in
        (
          run.0,
          (
            run.1.0,
            elim run.1.1 [
              | answered r ↦ some (ok r)
              | panicked ↦ none
              | failed failure ↦ elim failure [
                | final e ↦ some (err e)
                | fell_through servfail ↦ some (err (all_servers_failed servfail))
              ]
            ],
          ),
        )
