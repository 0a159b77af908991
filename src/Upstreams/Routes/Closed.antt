-- ===== src/Upstreams/Routes/Closed.antt =====
-- The map that `build` makes holds, with a domain, every domain above it.
use ferrous_dns.Base.{
  ℕ, ◌+◌, ◌≡◌, ◌≢◌, refl, sym, ◌∙◌, ◌⊎◌, inl, inr, none, some, List, [], ◌∷◌, All, ◌==◌, Bool-cases,
  Option-cases,
}
use ferrous_dns.Base.Dict
use mathlib.Core.Path.{subst}
use mathlib.Core.Option.{some-injective}
use ferrous_dns.Upstreams.Routes.{
  DomainRoutes, no_routes, UpstreamPool, PoolRoutes, same_name, group_ids, parents, Domains,
  or_default, add_parents, add_domain, add_domains, add_pools, build,
}

abbrev pub Holds : Domains → List ℕ → Type 0
Holds m k = Dict.get same_name k m ≢ none

-- The domains above each held one are held.
abbrev pub IsClosed : Domains → Type 0
IsClosed m = (k : List ℕ) → Holds m k → All (Holds m) (parents k)

All-mono :
    {A : Type 0} (P Q : A → Type 0) (xs : List A) → ((x : A) → P x → Q x) → All P xs → All Q xs
All-mono P Q [] f h = tt
All-mono P Q (x ∷ xs) f h = (f x h.0, All-mono P Q xs f h.1)

insert-Holds : (k : List ℕ) (v : DomainRoutes) (m : Domains) → Holds (Dict.insert same_name k v m) k
insert-Holds k v m e =
    let p : some v ≡ none = sym (Dict.get-insert_self same_name k v m) ∙ e in absurd (cc)

insert_keeps :
    (k j : List ℕ) (v : DomainRoutes) (m : Domains)
    → Holds m j
    → Holds (Dict.insert same_name k v m) j
insert_keeps k j v m h = elim (same_name k j) [
  | yes e ↦ rw e (insert-Holds j v m)
  | no n ↦ rw (Dict.get-insert_ne same_name k j v m n) h
]

-- A key that an insertion holds is its own or an old one.
insert_cases :
    (k j : List ℕ) (v : DomainRoutes) (m : Domains)
    → Holds (Dict.insert same_name k v m) j
    → (k ≡ j) ⊎ Holds m j
insert_cases k j v m h = elim (same_name k j) [
  | yes e ↦ inl e
  | no n ↦ inr (rw (Dict.get-insert_ne same_name k j v m n) at h)
]

or_default-Holds : (k : List ℕ) (m : Domains) → Holds (or_default k m) k
unfolding or_default
or_default-Holds k m = elim (Option-cases (Dict.get same_name k m)) [
  | inl e ↦ rw (e, or_default) (insert-Holds k no_routes m)
  | inr (v, e) ↦ rw (e, or_default) (λ f. let p : some v ≡ none = sym e ∙ f in absurd (cc))
]

or_default_keeps : (k j : List ℕ) (m : Domains) → Holds m j → Holds (or_default k m) j
unfolding or_default
or_default_keeps k j m h = elim (Option-cases (Dict.get same_name k m)) [
  | inl e ↦ rw (e, or_default) (insert_keeps k j no_routes m h)
  | inr (v, e) ↦ rw (e, or_default) h
]

or_default_cases : (k j : List ℕ) (m : Domains) → Holds (or_default k m) j → (k ≡ j) ⊎ Holds m j
unfolding or_default
or_default_cases k j m h = elim (Option-cases (Dict.get same_name k m)) [
  | inl e ↦ insert_cases k j no_routes m (rw (e, or_default) at h)
  | inr (v, e) ↦ inr (rw (e, or_default) at h)
]

add_parents_keeps :
    (ps : List (List ℕ)) (j : List ℕ) (m : Domains) → Holds m j → Holds (add_parents ps m) j
unfolding add_parents
add_parents_keeps [] j m h = h
add_parents_keeps (p ∷ ps) j m h =
    add_parents_keeps ps j (or_default p m) (or_default_keeps p j m h)

add_parents-All : (ps : List (List ℕ)) (m : Domains) → All (Holds (add_parents ps m)) ps
unfolding add_parents
add_parents-All [] m = tt
add_parents-All (p ∷ ps) m = (
  add_parents_keeps ps p (or_default p m) (or_default-Holds p m),
  add_parents-All ps (or_default p m),
)

-- What holds of the old domains and of the parents holds of each domain after.
add_parents_cases :
    (Q : List ℕ → Type 0) (ps : List (List ℕ)) (m : Domains)
    → ((j : List ℕ) → Holds m j → Q j)
    → All Q ps
    → (j : List ℕ) → Holds (add_parents ps m) j
    → Q j
unfolding add_parents
add_parents_cases Q [] m f h j k = f j k
add_parents_cases Q (p ∷ ps) m f h j k =
    add_parents_cases Q ps (or_default p m)
      (λ i l. elim (or_default_cases p i m l) [ inl e ↦ subst Q e h.0 | inr old ↦ f i old ]) h.1 j k

-- A domain above one above `domain` is above `domain`.
parents_nested :
    (P : List ℕ → Type 0) (domain : List ℕ)
    → All P (parents domain)
    → All (λ p. All P (parents p)) (parents domain)
unfolding parents
parents_nested P [] h = tt
parents_nested P (c ∷ domain) h = elim (Bool-cases (c == b'.')) [
  | inl e ↦
      let k : All P (domain ∷ parents domain) = rw (e, parents) at h in
      rw (e, parents) (k.1, parents_nested P domain k.1)
  | inr e ↦ rw (e, parents) (parents_nested P domain (rw (e, parents) at h))
]

add_domain-IsClosed :
    (groups : List ℕ) (index : ℕ) (domain : List ℕ) (m : Domains)
    → IsClosed m
    → IsClosed (add_domain groups index domain m)
unfolding add_domain
add_domain-IsClosed groups index domain m c j held =
    elim (insert_cases domain j _ (add_parents (parents domain) m) held) [
      | inl e ↦ subst (λ i. All Held (parents i)) e above
      | inr old ↦
          add_parents_cases (λ i. All Held (parents i)) (parents domain) m
            (λ i l. All-mono (Holds m) Held (parents i) (λ p. kept p) (c i l))
            (parents_nested Held domain above) j old
    ]
  where
    Held : List ℕ → Type 0
    Held = Holds (add_domain groups index domain m)

    grown : (p : List ℕ) → Holds (add_parents (parents domain) m) p → Held p
    grown p = insert_keeps domain p _ (add_parents (parents domain) m)

    kept : (p : List ℕ) → Holds m p → Held p
    kept p h = grown p (add_parents_keeps (parents domain) p m h)

    above : All Held (parents domain)
    above =
        All-mono (Holds (add_parents (parents domain) m)) Held (parents domain) grown
          (add_parents-All (parents domain) m)

add_domains-IsClosed :
    (groups : List ℕ) (index : ℕ) (domains : List (List ℕ)) (m : Domains)
    → IsClosed m
    → IsClosed (add_domains groups index domains m)
unfolding add_domains
add_domains-IsClosed groups index [] m c = c
add_domains-IsClosed groups index (d ∷ domains) m c =
    add_domains-IsClosed groups index domains (add_domain groups index d m)
      (add_domain-IsClosed groups index d m c)

add_pools-IsClosed :
    (index : ℕ) (pools : List UpstreamPool) (routes built : PoolRoutes)
    → IsClosed routes.by_domain
    → add_pools index pools routes ≡ some built
    → IsClosed built.by_domain
unfolding add_pools
add_pools-IsClosed index [] routes built c e =
    subst (λ (r : PoolRoutes). IsClosed r.by_domain) (some-injective _ _ e) c
add_pools-IsClosed index (pool ∷ pools) routes built c e =
    elim (Option-cases (group_ids pool.groups)) [
      | inl f ↦ let p : none ≡ some built = rw (f, add_pools) at e in absurd (cc)
      | inr (groups, f) ↦ elim (Option-cases pool.normalized_domains) [
        | inl g ↦ let p : none ≡ some built = rw (f, g, add_pools) at e in absurd (cc)
        | inr (domains, g) ↦
            add_pools-IsClosed (index + 1) pools _ built
              (add_domains-IsClosed groups index domains routes.by_domain c)
              (rw (f, g, add_pools) at e)
      ]
    ]

-- The set that `build` makes holds every domain above each one that it holds.
pub build-IsClosed :
    (pools : List UpstreamPool) (routes : PoolRoutes)
    → build pools ≡ some routes
    → IsClosed routes.by_domain
unfolding build Dict.get
build-IsClosed pools routes e = add_pools-IsClosed 0 pools _ routes (λ k held. absurd (held refl)) e
