-- ===== src/Upstreams/Declined.antt =====
-- When a strategy's error says that every server answered SERVFAIL.
use ferrous_dns.Base.{
  ℕ, suc, ◌%◌, ◌≤◌, ◌<◌, Bool, true, false, ◌&&◌, leb, inl, inr, Option, none, some, List, [], ◌∷◌,
  length, map, ◌≡◌, refl, sym, ap, ◌∙◌, arith, Bool-cases,
}
use ferrous_dns.Upstreams.Errors.{DomainError, is_servfail}
use ferrous_dns.Upstreams.Query.{
  Result, ok, err, UpstreamResult, QueryContext, Exchange, World, Asked, attempt,
}
use ferrous_dns.Upstreams.Replies.{replies, every_servfail, first_ok}
use ferrous_dns.Upstreams.Parallel
use ferrous_dns.Upstreams.Strategy.{Strategy, parallel, balanced, failover, query_refs}
use ferrous_dns.Upstreams.Sequence.{Result-cases}
use ferrous_dns.Upstreams.Sequence
use ferrous_dns.Upstreams.Rotation.{turned}
use ferrous_dns.Upstreams.Rotation

-- The result is an error that reads as SERVFAIL.
abbrev pub declined : {A : Type 0} → Result A → Bool
declined (ok r) = false
declined (err e) = is_servfail e

and_false : (a b : Bool) → (a && (b && false)) ≡ false
and_false true true = refl
and_false true false = refl
and_false false b = refl

-- A pair that fails reads as SERVFAIL when both of its errors do.
pair_failure-declined :
    (a b : DomainError) → is_servfail (Parallel.pair_failure a b) ≡ (is_servfail a && is_servfail b)
unfolding Parallel.pair_failure is_servfail
pair_failure-declined a b = elim (Bool-cases (is_servfail a)) [
  | inl p ↦ elim (Bool-cases (is_servfail b)) [
    | inl q ↦ rw (p, q, Parallel.pair_failure) refl
    | inr q ↦ rw (p, q, Parallel.pair_failure) q
  ]
  | inr p ↦ elim (Bool-cases (is_servfail b)) [
    | inl q ↦ rw (p, q, Parallel.pair_failure) refl
    | inr q ↦ rw (p, q, Parallel.pair_failure) q
  ]
]

and_true : (a : Bool) → (a && true) ≡ a
and_true true = refl
and_true false = refl

length-map {ℓ} : {A B : Type ℓ} (f : A → B) (xs : List A) → length (map f xs) ≡ length xs
length-map f [] = refl
length-map f (x ∷ xs) = ap suc (length-map f xs)

and_assoc : (a b c : Bool) → ((a && b) && c) ≡ (a && (b && c))
and_assoc true b c = refl
and_assoc false b c = refl

module _ {K A : Type 0} where
  first_ok-declined :
      (flag : Bool) (rs : List (K × Result A))
      → declined (first_ok flag rs) ≡ (flag && every_servfail rs)
  unfolding is_servfail
  first_ok-declined true [] = refl
  first_ok-declined false [] = refl
  first_ok-declined true ((s, ok r) ∷ rs) = refl
  first_ok-declined false ((s, ok r) ∷ rs) = refl
  first_ok-declined flag ((s, err e) ∷ rs) =
      first_ok-declined (flag && is_servfail e) rs
      ∙ and_assoc flag (is_servfail e) (every_servfail rs)

module _ {K : Type 0} where
  abbrev pub declines : Option (Asked K UpstreamResult) → Bool
  declines none = false
  declines (some r) = declined r.1

module _ {K : Type 0} (same : Discrete K) (w : World K) where
  abbrev pub settle : QueryContext K → K × Exchange → K × Result UpstreamResult
  settle ctx s = (s.0, attempt same w ctx s.0 s.1)

  race-declined :
      (ctx : QueryContext K) (settled : List (K × Exchange))
      → length settled ≤ 2
      → declined (Parallel.race (λ s. attempt same w ctx s.0 s.1) settled)
        ≡ (leb 2 (length settled) && every_servfail (map (settle ctx) settled))
  unfolding Parallel.race is_servfail
  race-declined ctx [] h = refl
  race-declined ctx (s ∷ []) h = elim (Result-cases (attempt same w ctx s.0 s.1)) [
    | inl (r, e) ↦ rw (e, Parallel.race) refl
    | inr (d, e) ↦ rw (e, Parallel.race) refl
  ]
  race-declined ctx (s ∷ t ∷ []) h = elim (Result-cases (attempt same w ctx s.0 s.1)) [
    | inl (r, e) ↦ rw (e, Parallel.race) refl
    | inr (d, e) ↦ elim (Result-cases (attempt same w ctx t.0 t.1)) [
      | inl (r, f) ↦ rw (e, f, Parallel.race) (sym (and_false (is_servfail d) true))
      | inr (d', f) ↦
          rw (e, f, Parallel.race)
            (pair_failure-declined d d'
              ∙ ap (λ b. is_servfail d && b) (sym (and_true (is_servfail d'))))
    ]
  ]
  race-declined ctx (s ∷ t ∷ u ∷ settled) h = absurd (omega arith)

  first_success-declined :
      (ctx : QueryContext K) (label : List ℕ) (in_time flag : Bool) (settled : List (K × Exchange))
      → declined
          (Parallel.first_success (λ s. attempt same w ctx s.0 s.1) label in_time flag settled)
        ≡ (in_time && (flag && every_servfail (map (settle ctx) settled)))
  unfolding Parallel.first_success is_servfail
  first_success-declined ctx label in_time flag [] = ground arith
  first_success-declined ctx label in_time flag (s ∷ settled) =
      elim (Result-cases (attempt same w ctx s.0 s.1)) [
        | inl (r, e) ↦ rw (e, Parallel.first_success) (sym (and_false in_time flag))
        | inr (d, e) ↦
            rw (e, Parallel.first_success)
              (first_success-declined ctx label in_time (flag && is_servfail d) settled
                ∙ ap (λ t. in_time && t)
                    (and_assoc flag (is_servfail d) (every_servfail (map (settle ctx) settled))))
      ]

  -- The replies that a query waits for, if every server that it needs settles in time.
  abbrev pub heard : Strategy → QueryContext K → List K → List (K × Result UpstreamResult)
  heard parallel ctx asked = elim ctx.servers [
    | [] ↦ []
    | only ∷ rest ↦ elim rest [
      | [] ↦ replies same w ctx asked (only ∷ [])
      | _ ∷ _ ↦ map (settle ctx) (w.settled asked ctx.servers)
    ]
  ]
  heard (balanced next) ctx asked =
      replies same w ctx asked (turned (next % length ctx.servers) ctx.servers)
  heard failover ctx asked = replies same w ctx asked ctx.servers

  parallel-declined :
      (ctx : QueryContext K) (asked : List K)
      → 0 < length ctx.servers
      → length (w.settled asked ctx.servers) ≤ length ctx.servers
      → declined (Parallel.query same w ctx asked).1 ≡ (
          leb (length ctx.servers) (length (heard parallel ctx asked))
          && every_servfail (heard parallel ctx asked))
  unfolding Parallel.query replies is_servfail
  parallel-declined ctx asked h k = go ctx.servers refl h k
    where
      go :
          (l : List K)
          → ctx.servers ≡ l
          → 0 < length ctx.servers
          → length (w.settled asked ctx.servers) ≤ length ctx.servers
          → declined (Parallel.query same w ctx asked).1 ≡ (
              leb (length ctx.servers) (length (heard parallel ctx asked))
              && every_servfail (heard parallel ctx asked))
      go [] e h k = absurd (omega (arith, ap length e))
      go (only ∷ []) e h k =
          rw e
            (elim (Result-cases
              (attempt same w (record ctx { servers = only ∷ [] }) only (w.exchange asked only))) [
                | inl (r, f) ↦ rw f refl
                | inr (d, f) ↦ rw f (sym (and_true (is_servfail d)))
              ])
      go (s ∷ t ∷ []) e h k =
          let settled = w.settled asked (s ∷ t ∷ []) in
          rw e (
            rw (length-map (settle (record ctx { servers = s ∷ t ∷ [] })) settled)
              (race-declined (record ctx { servers = s ∷ t ∷ [] }) settled (rw e at k)))
      go (s ∷ t ∷ u ∷ l) e h k =
          let ctx' : QueryContext K = record ctx { servers = s ∷ t ∷ u ∷ l } in
          rw e (
            rw (length-map (settle ctx') (w.settled asked ctx'.servers))
              (first_success-declined ctx' _ _ true (w.settled asked ctx'.servers)))

  -- Of the replies that the query waits for: servers asked at once must all settle in time.
  abbrev pub is_complete : Strategy → QueryContext K → List K → Bool
  is_complete parallel ctx asked = leb (length ctx.servers) (length (heard parallel ctx asked))
  is_complete (balanced next) ctx asked = true
  is_complete failover ctx asked = true

  -- With a server at least, and no more of them settled than were asked at once, each strategy's
  -- error reads as SERVFAIL if and only if every server replied, and each reply was SERVFAIL.
  pub query_refs-declines :
      (strategy : Strategy) (ctx : QueryContext K) (asked : List K)
      → 0 < length ctx.servers
      → length (w.settled asked ctx.servers) ≤ length ctx.servers
      → declines (query_refs same w strategy ctx asked).0
        ≡ (is_complete strategy ctx asked && every_servfail (heard strategy ctx asked))
  unfolding query_refs
  query_refs-declines parallel ctx asked h k = parallel-declined ctx asked h k
  query_refs-declines (balanced next) ctx asked h k =
      rw (Rotation.query-replies same w ctx next asked h) (
        first_ok-declined true
          (replies same w ctx asked (turned (next % length ctx.servers) ctx.servers)))
  query_refs-declines failover ctx asked h k =
      rw (Sequence.query-replies same w ctx asked h)
        (first_ok-declined true (replies same w ctx asked ctx.servers))
