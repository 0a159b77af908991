-- ===== src/Upstreams/Unchecked.antt =====
-- With no healthy server the default pools are asked as if there were no checker.
use ferrous_dns.Base.{
  ◌≡◌, refl, sym, ap, ◌∙◌, Bool, false, ◌&&◌, ◌||◌, inl, inr, Option, none, some, List, [], ◌∷◌,
  any, Bool-cases,
}
use mathlib.Core.Path.{subst}
use ferrous_dns.Health.{HealthChecker}
use ferrous_dns.Upstreams.Query.{Result, UpstreamResult, World}
use ferrous_dns.Upstreams.Pools.{
  PoolWithStrategy, final, fell_through, PoolAnswer, answered, failed, panicked, is_empty, query,
  healthy_servers, Walk, Progress, returns, ends, meet_healthy, walk_pools, go_on, or_else, give_up,
  fail_open, query_default,
}
use ferrous_dns.Upstreams.FailOpen.{has_servers, walk_pools-quiet}

module _ {K : Type 0} where
  abbrev Alike : Walk K → Walk K → Type 0
  Alike s t =
      (s.asked ≡ t.asked) × ((s.any_tried ≡ t.any_tried) × (s.all_servfail ≡ t.all_servfail))

  abbrev Agree :
      List (PoolWithStrategy K) × (Walk K × Progress)
      → List (PoolWithStrategy K) × (Walk K × Progress)
      → Type 0
  Agree (ps, (s, p)) (qs, (t, q)) = (ps ≡ qs) × (Alike s t × (p ≡ q))

  abbrev take_on :
      List (PoolWithStrategy K)
      → Walk K
      → PoolWithStrategy K × (List K × PoolAnswer)
      → (Walk K → List (PoolWithStrategy K) × (Walk K × Progress))
      → List (PoolWithStrategy K) × (Walk K × Progress)
  take_on pools walk run next = go_on run.0 pools (record walk { asked = run.1.0 }) run.1.1 next

  abbrev Follows :
      (Walk K → List (PoolWithStrategy K) × (Walk K × Progress))
      → (Walk K → List (PoolWithStrategy K) × (Walk K × Progress))
      → Type 0
  Follows next next' = (s t : Walk K) → Alike s t → Agree (next s) (next' t)

  take_on-Agree :
      (pools : List (PoolWithStrategy K)) (s t : Walk K)
      (run : PoolWithStrategy K × (List K × PoolAnswer))
      (next next' : Walk K → List (PoolWithStrategy K) × (Walk K × Progress))
      → s.all_servfail ≡ t.all_servfail
      → s.any_tried ≡ t.any_tried
      → Follows next next'
      → Agree (take_on pools s run next) (take_on pools t run next')
  take_on-Agree pools s t (pool, (asked, answered r)) next next' h k f =
      (refl, ((refl, (k, h)), refl))
  take_on-Agree pools s t (pool, (asked, panicked)) next next' h k f =
      (refl, ((refl, (k, h)), refl))
  take_on-Agree pools s t (pool, (asked, failed (final d))) next next' h k f =
      (refl, ((refl, (k, h)), refl))
  take_on-Agree pools s t (pool, (asked, failed (fell_through b))) next next' h k f =
      let (e, rest) = f _ _ (refl, (refl, ap (λ c. c && b) h)) in (ap (λ l. pool ∷ l) e, rest)

  take_on_equal :
      (pools : List (PoolWithStrategy K)) (s t : Walk K)
      (run run' : PoolWithStrategy K × (List K × PoolAnswer))
      (next next' : Walk K → List (PoolWithStrategy K) × (Walk K × Progress))
      → run ≡ run'
      → s.all_servfail ≡ t.all_servfail
      → s.any_tried ≡ t.any_tried
      → Follows next next'
      → Agree (take_on pools s run next) (take_on pools t run' next')
  take_on_equal pools s t run run' next next' e h k f =
      subst (λ r. Agree (take_on pools s run next) (take_on pools t r next')) e
        (take_on-Agree pools s t run next next' h k f)

module _ {K : Type 0} (same : Discrete K) (w : World K) where
  walk_pools-Agree :
      (select : PoolWithStrategy K → List K) (note note' : Walk K → Walk K)
      → ((t : Walk K) → Alike (note t) t)
      → ((t : Walk K) → Alike (note' t) t)
      → (s t : Walk K) (pools : List (PoolWithStrategy K)) → Alike s t
      → Agree (walk_pools same w select note s pools) (walk_pools same w select note' t pools)
  unfolding walk_pools
  walk_pools-Agree select note note' n n' s t [] h = (refl, (h, refl))
  walk_pools-Agree select note note' n n' s t (pool ∷ pools) h =
      elim (Bool-cases (pool.is_conditional || is_empty (select pool))) [
        | inl e ↦
            rw (e, walk_pools)
              (let (p, rest) = walk_pools-Agree select note note' n n' s t pools h in
                (ap (λ l. pool ∷ l) p, rest))
        | inr e ↦
            rw (e, walk_pools)
              (take_on_equal pools (note s) (note' t) _ _
                (λ r. walk_pools same w select note r pools)
                (λ r. walk_pools same w select note' r pools)
                (ap (query same w pool (select pool)) h.0) ((n s).1.1 ∙ h.1.1 ∙ sym (n' t).1.1)
                ((n s).1.0 ∙ h.1.0 ∙ sym (n' t).1.0)
                λ s' t' k. walk_pools-Agree select note note' n n' s' t' pools k)
      ]

module _ {K : Type 0} where
  abbrev pub SameRun :
      List (PoolWithStrategy K) × (Walk K × Option (Result UpstreamResult))
      → List (PoolWithStrategy K) × (Walk K × Option (Result UpstreamResult))
      → Type 0
  SameRun a b = (a.0 ≡ b.0) × ((a.1.0.asked ≡ b.1.0.asked) × (a.1.1 ≡ b.1.1))

module _ {K : Type 0} (same : Discrete K) (w : World K) where
  or_else-SameRun :
      (E : Type 0) (ps qs : List (PoolWithStrategy K)) (s t : Walk K) (p : Progress)
      → ps ≡ qs
      → Alike s t
      → SameRun
          (or_else (ps, (s, p)) give_up)
          (or_else (qs, (t, p)) (fail_open {E = E} same w none))
  or_else-SameRun E ps qs s t (returns r) e h = (e, (h.0, refl))
  or_else-SameRun E ps qs s t ends e h = elim (Bool-cases t.any_healthy) [
    | inl k ↦ rw (k) (e, (h.0, rw (h.1.0, h.1.1) refl))
    | inr k ↦ rw (k) (e, (h.0, rw (h.1.0, h.1.1) refl))
  ]

  Agree-SameRun :
      (E : Type 0) (out out' : List (PoolWithStrategy K) × (Walk K × Progress))
      → Agree out out'
      → SameRun (or_else out give_up) (or_else out' (fail_open {E = E} same w none))
  Agree-SameRun E (ps, (s, p)) (qs, (t, q)) (e, (h, f)) =
      subst
        (λ r.
          SameRun (or_else (ps, (s, p)) give_up)
            (or_else (qs, (t, r)) (fail_open {E = E} same w none)))
        f (or_else-SameRun E ps qs s t p e h)

module _ {K E : Type 0} (same : Discrete K) (w : World K) where
  -- When no default pool has a server that the checker leaves in rotation, the default walk does
  -- what it does without a checker: it asks the same servers in the same order, returns the same,
  -- and leaves the pools' counters the same.
  pub query_default-unchecked :
      (checker : HealthChecker K E) (failing_open : Bool) (pools : List (PoolWithStrategy K))
      → any (has_servers (healthy_servers same (some checker))) pools ≡ false
      → SameRun
          (query_default same w (some checker) failing_open pools)
          (query_default {E = E} same w none failing_open pools)
  unfolding query_default healthy_servers
  query_default-unchecked checker failing_open pools h =
      rw (walk_pools-quiet same w (healthy_servers same (some checker)) meet_healthy _ pools h) (
        Agree-SameRun same w E _ _ (
          walk_pools-Agree same w (λ pool. pool.server_protocols) (λ t. t) meet_healthy
            (λ t. (refl, (refl, refl))) (λ t. (refl, (refl, refl))) _ _ pools (refl, (refl, refl))))
