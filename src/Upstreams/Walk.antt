-- ===== src/Upstreams/Walk.antt =====
-- Which servers the walk over the default pools asks, and that it never indexes out of bounds.
use ferrous_dns.Base.{
  All-append, ℕ, ◌<◌, ◌≡◌, ◌≢◌, refl, Bool, true, false, ◌||◌, inl, inr, Option, none, some, List,
  [], ◌∷◌, ◌++◌, length, All, arith, Bool-cases, take, drop, suc, zero, ◌%◌,
}
use ferrous_dns.Upstreams.Query.{ok, err, UpstreamResult, QueryContext, World, Asked, query_server}
use ferrous_dns.Upstreams.Parallel
use ferrous_dns.Upstreams.Strategy.{Strategy, parallel, balanced, failover, query_refs}
use ferrous_dns.Upstreams.Pools.{
  PoolWithStrategy, final, fell_through, PoolAnswer, answered, failed, panicked, is_empty,
  answer_of, query, Walk, Progress, returns, walk_pools, go_on,
}
use ferrous_dns.Upstreams.Sequence.{Result-cases, try_next-replies}
use ferrous_dns.Upstreams.Sequence
use ferrous_dns.Upstreams.Rotation
use ferrous_dns.Upstreams.Rotation.{turned}
use ferrous_dns.Upstreams.Replies.{replies, until_ok}

module _ {A : Type 0} (P : A → Type 0) where
  All-drop : (n : ℕ) (xs : List A) → All P xs → All P (drop n xs)
  All-drop zero xs h = h
  All-drop (suc n) [] h = tt
  All-drop (suc n) (x ∷ xs) h = All-drop n xs h.1

  All-take : (n : ℕ) (xs : List A) → All P xs → All P (take n xs)
  All-take zero xs h = tt
  All-take (suc n) [] h = tt
  All-take (suc n) (x ∷ xs) h = (h.0, All-take n xs h.1)

module _ {K : Type 0} (same : Discrete K) (w : World K) (P : K → Type 0) where
  until_ok-All :
      (ctx : QueryContext K) (asked servers : List K)
      → All P servers
      → All P (until_ok (replies same w ctx asked servers))
  unfolding replies
  until_ok-All ctx asked [] h = tt
  until_ok-All ctx asked (s ∷ servers) h = elim (Result-cases (query_server same w ctx asked s)) [
    | inl (r, e) ↦ rw e (h.0, tt)
    | inr (d, e) ↦ rw e (h.0, until_ok-All ctx (asked ++ s ∷ []) servers h.1)
  ]

  -- The query of a strategy returns, and what it has asked has a property that all its servers have.
  abbrev Asks : Option (Asked K UpstreamResult) → Type 0
  Asks none = ⊥
  Asks (some r) = All P r.0

  parallel-All :
      (ctx : QueryContext K) (asked : List K)
      → All P ctx.servers
      → All P asked
      → All P (Parallel.query same w ctx asked).0
  unfolding Parallel.query
  parallel-All ctx asked h k = go ctx.servers refl h
    where
      go : (l : List K) → ctx.servers ≡ l → All P l → All P (Parallel.query same w ctx asked).0
      go [] e h' = rw e k
      go (only ∷ []) e h' = rw e (All-append P asked (only ∷ []) k h')
      go (s ∷ t ∷ l) e h' = rw e (All-append P asked (s ∷ t ∷ l) k h')

  query_refs-Asks :
      (strategy : Strategy) (ctx : QueryContext K) (asked : List K)
      → All P ctx.servers
      → All P asked
      → 0 < length ctx.servers
      → Asks (query_refs same w strategy ctx asked).0
  unfolding query_refs
  query_refs-Asks parallel ctx asked h k l = parallel-All ctx asked h k
  query_refs-Asks (balanced next) ctx asked h k l =
      let n = next % length ctx.servers in
      rw (Rotation.query-replies same w ctx next asked l) (
        All-append P asked _ k (
          until_ok-All ctx asked (turned n ctx.servers) (
            All-append P (drop n ctx.servers) (take n ctx.servers) (All-drop P n ctx.servers h)
              (All-take P n ctx.servers h))))
  query_refs-Asks failover ctx asked h k l =
      rw (Sequence.query-replies same w ctx asked l)
        (All-append P asked _ k (until_ok-All ctx asked ctx.servers h))

  answer_of-All :
      (asked : List K) (o : Option (Asked K UpstreamResult))
      → Asks o
      → All P (answer_of asked o).0 × ((answer_of asked o).1 ≢ panicked)
  answer_of-All asked none h = absurd h
  answer_of-All asked (some (asked', ok r)) h = (h, λ e. cc)
  answer_of-All asked (some (asked', err d)) h = (h, λ e. cc)

  pub query-All :
      (pool : PoolWithStrategy K) (servers asked : List K)
      → All P servers
      → All P asked
      → 0 < length servers
      → All P (query same w pool servers asked).1.0
        × ((query same w pool servers asked).1.1 ≢ panicked)
  unfolding query
  query-All pool servers asked h k l = answer_of-All asked _ (
      query_refs-Asks pool.strategy
        (record {
          servers = servers;
          pool_name = pool.name;
          server_displays = pool.server_displays;
        })
        asked h k l)

  -- Every server that a loop selects has the property.
  abbrev pub Selects : (PoolWithStrategy K → List K) → List (PoolWithStrategy K) → Type 0
  Selects select pools =
      All (λ (pool : PoolWithStrategy K). (pool.is_conditional ≡ false) → All P (select pool)) pools

  abbrev pub Sound : Walk K × Progress → Type 0
  Sound (walk, progress) = All P walk.asked × (progress ≢ returns none)

  go_on-Sound :
      (pool : PoolWithStrategy K) (pools : List (PoolWithStrategy K)) (walk : Walk K)
      (answer : PoolAnswer) (next : Walk K → List (PoolWithStrategy K) × (Walk K × Progress))
      → All P walk.asked
      → answer ≢ panicked
      → ((t : Walk K) → All P t.asked → Sound (next t).1)
      → Sound (go_on pool pools walk answer next).1
  go_on-Sound pool pools walk (answered r) next h k f = (h, λ e. cc)
  go_on-Sound pool pools walk panicked next h k f = absurd (k refl)
  go_on-Sound pool pools walk (failed (final d)) next h k f = (h, λ e. cc)
  go_on-Sound pool pools walk (failed (fell_through servfail)) next h k f = f _ h

  is_empty-length : (xs : List K) → is_empty xs ≡ false → 0 < length xs
  is_empty-length [] h = absurd (cc)
  is_empty-length (x ∷ xs) h = omega arith

  or_false : (a b : Bool) → (a || b) ≡ false → (a ≡ false) × (b ≡ false)
  or_false true b h = absurd (cc)
  or_false false b h = (refl, h)

  pub walk_pools-Sound :
      (select : PoolWithStrategy K → List K) (note : Walk K → Walk K) (walk : Walk K)
      (pools : List (PoolWithStrategy K))
      → Selects select pools
      → All P walk.asked
      → Sound (walk_pools same w select note walk pools).1
  unfolding walk_pools
  walk_pools-Sound select note walk [] h k = (k, λ e. cc)
  walk_pools-Sound select note walk (pool ∷ pools) h k =
      elim (Bool-cases (pool.is_conditional || is_empty (select pool))) [
        | inl e ↦ rw (e, walk_pools) (walk_pools-Sound select note walk pools h.1 k)
        | inr e ↦
            rw (e, walk_pools)
              (let quiet = or_false pool.is_conditional (is_empty (select pool)) e in
                let asks =
                  query-All pool (select pool) walk.asked (h.0 quiet.0) k
                    (is_empty-length (select pool) quiet.1) in
                go_on-Sound _ pools _ _ (λ t. walk_pools same w select note t pools) asks.0 asks.1
                  λ t. walk_pools-Sound select note t pools h.1)
      ]
