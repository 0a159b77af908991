-- ===== src/Upstreams/FailOpen.antt =====
-- The health checks only choose among servers: with one healthy server the default pools ask no
-- other kind, and with none they ask as if there were no checks.
use ferrous_dns.Base.{
  ◌≡◌, ◌≢◌, refl, Bool, true, false, not, ◌||◌, ◌⊎◌, inl, inr, Option, none, some, List, [], ◌∷◌,
  All, any, Bool-cases,
}
use ferrous_dns.Health.{HealthChecker, is_healthy}
use ferrous_dns.Upstreams.Query.{Result, UpstreamResult, World}
use ferrous_dns.Upstreams.Pools.{
  PoolWithStrategy, final, fell_through, PoolAnswer, answered, failed, panicked, keep, is_empty,
  healthy_servers, Walk, Progress, returns, ends, meet_healthy, walk_pools, go_on, or_else,
  fail_open, query_default,
}
use ferrous_dns.Upstreams.Walk.{Sound, Selects, walk_pools-Sound}

module _ {K : Type 0} where
  -- A pool that is not conditional has a server among those selected of it.
  abbrev pub has_servers : (PoolWithStrategy K → List K) → PoolWithStrategy K → Bool
  has_servers select pool = not (pool.is_conditional || is_empty (select pool))

module _ {K : Type 0} (same : Discrete K) (w : World K) where
  -- A loop that ends has met a pool with a healthy server.
  abbrev Met : Walk K × Progress → Type 0
  Met (walk, returns r) = Unit {0}
  Met (walk, ends) = walk.any_healthy ≡ true

  go_on-Met :
      (pool : PoolWithStrategy K) (pools : List (PoolWithStrategy K)) (walk : Walk K)
      (answer : PoolAnswer) (next : Walk K → List (PoolWithStrategy K) × (Walk K × Progress))
      → walk.any_healthy ≡ true
      → ((t : Walk K) → t.any_healthy ≡ true → Met (next t).1)
      → Met (go_on pool pools walk answer next).1
  go_on-Met pool pools walk (answered r) next h f = tt
  go_on-Met pool pools walk panicked next h f = tt
  go_on-Met pool pools walk (failed (final d)) next h f = tt
  go_on-Met pool pools walk (failed (fell_through servfail)) next h f = f _ h

  walk_pools-Met :
      (select : PoolWithStrategy K → List K) (walk : Walk K) (pools : List (PoolWithStrategy K))
      → (walk.any_healthy ≡ true) ⊎ (any (has_servers select) pools ≡ true)
      → Met (walk_pools same w select meet_healthy walk pools).1
  unfolding walk_pools
  walk_pools-Met select walk [] (inl h) = h
  walk_pools-Met select walk [] (inr h) = absurd (cc)
  walk_pools-Met select walk (pool ∷ pools) h =
      elim (Bool-cases (pool.is_conditional || is_empty (select pool))) [
        | inl e ↦
            rw (e, walk_pools)
              (walk_pools-Met select walk pools
                (elim h [ inl a ↦ inl a | inr a ↦ inr (rw e at a) ]))
        | inr e ↦
            rw (e, walk_pools)
              (go_on-Met _ pools _ _ (λ t. walk_pools same w select meet_healthy t pools) refl
                λ t k. walk_pools-Met select t pools (inl k))
      ]

  -- With no server to select, a loop passes every pool by.
  pub walk_pools-quiet :
      (select : PoolWithStrategy K → List K) (note : Walk K → Walk K) (walk : Walk K)
      (pools : List (PoolWithStrategy K))
      → any (has_servers select) pools ≡ false
      → walk_pools same w select note walk pools ≡ (pools, (walk, ends))
  unfolding walk_pools
  walk_pools-quiet select note walk [] h = refl
  walk_pools-quiet select note walk (pool ∷ pools) h =
      elim (Bool-cases (pool.is_conditional || is_empty (select pool))) [
        | inl e ↦ rw (e, walk_pools, walk_pools-quiet select note walk pools (rw e at h)) refl
        | inr e ↦ let h' : true ≡ false = rw e at h in absurd (cc)
      ]

keep-All : {K : Type 0} (p : K → Bool) (servers : List K) → All (λ s. p s ≡ true) (keep p servers)
keep-All p [] = tt
keep-All p (s ∷ servers) = elim (Bool-cases (p s)) [
  | inl e ↦ rw e (e, keep-All p servers)
  | inr e ↦ rw e (keep-All p servers)
]

module _ {K : Type 0} where
  -- What a query of the default pools ends with: the servers asked all have the property, and it
  -- returns.
  abbrev pub Returns :
      (K → Type 0) → List (PoolWithStrategy K) × (Walk K × Option (Result UpstreamResult)) → Type 0
  Returns P out = All P out.1.0.asked × (out.1.1 ≢ none)

module _ {K E : Type 0} (same : Discrete K) (w : World K) where
  healthy-Selects :
      (checker : HealthChecker K E) (pools : List (PoolWithStrategy K))
      → Selects same w
          (λ s. is_healthy same checker s ≡ true)
          (healthy_servers same (some checker))
          pools
  unfolding healthy_servers
  healthy-Selects checker [] = tt
  healthy-Selects checker (pool ∷ pools) =
      (λ _. keep-All (is_healthy same checker) pool.server_protocols, healthy-Selects checker pools)

  finish :
      (P : K → Type 0) (checker : Option (HealthChecker K E))
      (out : List (PoolWithStrategy K) × (Walk K × Progress))
      → Sound same w P out.1
      → Met same w out.1
      → Returns P (or_else out (fail_open same w checker))
  finish P checker (pools, (walk, returns none)) (h, n) m = absurd (n refl)
  finish P checker (pools, (walk, returns (some r))) (h, n) m = (h, λ e. cc)
  finish P checker (pools, (walk, ends)) (h, n) m = rw m (h, λ e. cc)

  -- When a default pool has a server that is marked healthy, or that the checker does not know,
  -- the default walk asks only such servers, and it does not panic.
  pub query_default-asks_healthy :
      (checker : HealthChecker K E) (failing_open : Bool) (pools : List (PoolWithStrategy K))
      → any (has_servers (healthy_servers same (some checker))) pools ≡ true
      → Returns
          (λ s. is_healthy same checker s ≡ true)
          (query_default same w (some checker) failing_open pools)
  unfolding query_default
  query_default-asks_healthy checker failing_open pools h =
      finish (λ s. is_healthy same checker s ≡ true) (some checker) _
        (walk_pools-Sound same w _ _ meet_healthy _ pools (healthy-Selects checker pools) tt)
        (walk_pools-Met same w (healthy_servers same (some checker)) _ pools (inr h))
