-- ===== src/Upstreams/Routes/Lookup.antt =====
-- The loop of `lookup` stops at the first domain that the set does not hold, and still finds the
-- most specific one that routes the name.
use ferrous_dns.Base.{
  append_assoc, append-nil, ℕ, zero, suc, ◌<◌, ◌≡◌, refl, sym, ap, ◌∙◌, false, inl, inr, Option,
  none, some, List, [], ◌∷◌, ◌++◌, Bool-cases, Option-cases, length, drop, arith, length-append,
  take-append,
}
use ferrous_dns.Base.Dict
use ferrous_dns.FastPath.Outcome.{ok}
use ferrous_dns.Upstreams.Routes.{
  DomainRoutes, PoolRoutes, same_name, parents, Domains, matching, rfind, find_best, UpstreamPool,
  build, lookup, lookup_name, with_route, or_better, label_start, has_some, client_group, ℤ,
}
use ferrous_dns.Upstreams.Routes.Closed.{IsClosed, build-IsClosed}
use ferrous_dns.Upstreams.Routes.Specific.{
  routed, first_routed, rests, or_better_assoc, first_routed-append, first_routed_unheld,
  rests-parents, rests_dotless, rests-append, rfind_split, under_unheld, rests_unheld,
}

abbrev from_prefix : List ℕ → List ℕ → List (List ℕ)
from_prefix prefix tail = (prefix ++ tail) ∷ rests prefix tail

module _ (m : Domains) (closed : IsClosed m) (group : Option ℕ) where
  unheld_none :
      (front domain : List ℕ)
      → Dict.get same_name domain m ≡ none
      → first_routed m group (from_prefix front (b'.' ∷ domain)) ≡ none
  unheld_none front domain e =
      first_routed_unheld m group (from_prefix front (b'.' ∷ domain))
        (under_unheld m front domain closed e, rests_unheld m front domain closed e)

  abbrev Finds : ℕ → List ℕ → List ℕ → Option (ℕ × ℕ) → Type 0
  Finds fuel prefix tail best =
      find_best fuel m group (prefix ++ tail) (length prefix) best
      ≡ ok (or_better (first_routed m group (from_prefix prefix tail)) best)

  start_dotless :
      (prefix tail : List ℕ)
      → rfind prefix ≡ none
      → label_start (prefix ++ tail) (length prefix) ≡ 0
  unfolding label_start
  start_dotless prefix tail r = rw (take-append prefix tail, r, label_start) refl

  start_dot :
      (prefix tail : List ℕ) (dot : ℕ)
      → rfind prefix ≡ some dot
      → label_start (prefix ++ tail) (length prefix) ≡ suc dot
  unfolding label_start
  start_dot prefix tail dot r = rw (take-append prefix tail, r, label_start) refl

  drop_dot : (front rest : List ℕ) → drop (suc (length front)) (front ++ b'.' ∷ rest) ≡ rest
  drop_dot [] rest = refl
  drop_dot (c ∷ front) rest = drop_dot front rest

  last_label :
      (fuel : ℕ) (front label tail : List ℕ) (best : Option (ℕ × ℕ))
      → rfind (front ++ b'.' ∷ label) ≡ some (length front)
      → parents label ≡ []
      → length (front ++ b'.' ∷ label) < suc fuel
      → ((prefix rest : List ℕ) (found : Option (ℕ × ℕ))
          → length prefix < fuel
          → Finds fuel prefix rest found)
      → Finds (suc fuel) (front ++ b'.' ∷ label) tail best
  unfolding find_best routed
  last_label fuel front label tail best r p h next =
      elim (Option-cases (Dict.get same_name (label ++ tail) m)) [
        | inl e ↦ rw (find_best, start, dropped, e) (ap ok (sym (stops e)))
        | inr (v, e) ↦
            rw (find_best, start, dropped, e)
              (ap (λ n. find_best fuel m group n (length front) (or_better (matching v group) best))
                  whole
                ∙ next front (b'.' ∷ (label ++ tail)) (or_better (matching v group) best) shorter
                ∙ ap ok (goes v e))
      ]
    where
      start :
          label_start ((front ++ b'.' ∷ label) ++ tail) (length (front ++ b'.' ∷ label))
          ≡ suc (length front)
      start = start_dot (front ++ b'.' ∷ label) tail (length front) r

      whole : (front ++ b'.' ∷ label) ++ tail ≡ front ++ b'.' ∷ (label ++ tail)
      whole = append_assoc front (b'.' ∷ label) tail

      dropped : drop (suc (length front)) ((front ++ b'.' ∷ label) ++ tail) ≡ label ++ tail
      dropped = rw whole (drop_dot front (label ++ tail))

      above : List (List ℕ)
      above = from_prefix front (b'.' ∷ (label ++ tail))

      splits :
          first_routed m group (from_prefix (front ++ b'.' ∷ label) tail)
          ≡ or_better (first_routed m group above) (or_better (routed m group (label ++ tail)) none)
      splits =
          rw (rests-append front label tail p, whole)
            (first_routed-append m group above ((label ++ tail) ∷ []))

      shorter : length front < fuel
      shorter = omega (arith, h, length-append front (b'.' ∷ label))

      goes :
          (v : DomainRoutes)
          → Dict.get same_name (label ++ tail) m ≡ some v
          → or_better (first_routed m group above) (or_better (matching v group) best)
            ≡ or_better (first_routed m group (from_prefix (front ++ b'.' ∷ label) tail)) best
      goes v e =
          rw (splits, routed, e)
            (sym (
              or_better_assoc (first_routed m group above) (or_better (matching v group) none) best
              ∙ ap (or_better (first_routed m group above))
                  (or_better_assoc (matching v group) none best)))

      stops :
          Dict.get same_name (label ++ tail) m ≡ none
          → or_better (first_routed m group (from_prefix (front ++ b'.' ∷ label) tail)) best ≡ best
      stops e = rw (splits, unheld_none front (label ++ tail) e, e, routed) refl

  find_best-first :
      (fuel : ℕ) (prefix tail : List ℕ) (best : Option (ℕ × ℕ))
      → length prefix < fuel
      → find_best fuel m group (prefix ++ tail) (length prefix) best
        ≡ ok (or_better (first_routed m group (from_prefix prefix tail)) best)
  unfolding find_best routed
  find_best-first zero prefix tail best h = absurd (omega arith)
  find_best-first (suc fuel) prefix tail best h = elim (rfind_split prefix) [
    | inl (r, p) ↦
        let start = start_dotless prefix tail r in
        elim (Option-cases (Dict.get same_name (prefix ++ tail) m)) [
          | inl e ↦ rw (find_best, start, e, rests_dotless prefix tail p, routed) refl
          | inr (v, e) ↦
              rw (find_best, start, e, rests_dotless prefix tail p, routed)
                (ap ok (sym (or_better_assoc (matching v group) none best)))
        ]
    | inr (front, label, (t, (r, p))) ↦
        rw t
          (last_label fuel front label tail best (rw t at r) p (rw t at h) (find_best-first fuel))
  ]

or_better-none : (a : Option (ℕ × ℕ)) → or_better a none ≡ a
or_better-none none = refl
or_better-none (some f) = refl

empty_map :
    (m : Domains) (group : Option ℕ) (names : List (List ℕ))
    → has_some m ≡ false
    → first_routed m group names ≡ none
unfolding routed Dict.get
empty_map [] group [] h = refl
empty_map [] group (n ∷ names) h = empty_map [] group names h
empty_map (d ∷ m) group names h = absurd (cc)

-- With a set that `build` made, a name (in lower case, without its last dot) takes the first route
-- that the client's group has among those of the name itself and of the domains above it, the
-- longest first; without one it has none. The loop has rounds enough for every name.
pub lookup_lem :
    (pools : List UpstreamPool) (routes : PoolRoutes) (domain name : List ℕ) (group : Option ℤ)
    → build pools ≡ some routes
    → lookup_name domain ≡ some name
    → lookup routes domain group
      ≡ with_route routes (first_routed routes.by_domain (client_group group) (name ∷ parents name))
unfolding lookup
lookup_lem pools routes domain name group b n = elim (Bool-cases (has_some routes.by_domain)) [
  | inl e ↦ rw (e, n, lookup, found) refl
  | inr e ↦
      rw (e, lookup, empty_map routes.by_domain (client_group group) (name ∷ parents name) e) refl
]
  where
    found :
        find_best (suc (length name)) routes.by_domain (client_group group) name (length name) none
        ≡ ok (first_routed routes.by_domain (client_group group) (name ∷ parents name))
    found =
        let e =
          find_best-first routes.by_domain (build-IsClosed pools routes b) (client_group group)
            (suc (length name)) name [] none (omega arith) in
        (rw (append-nil name, rests-parents name) at e)
        ∙ ap ok (
            or_better-none
              (first_routed routes.by_domain (client_group group) (name ∷ parents name)))
