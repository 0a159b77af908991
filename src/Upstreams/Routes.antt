-- ===== src/Upstreams/Routes.antt =====
-- crates/infrastructure/src/dns/load_balancer/routes.rs. The set's `signature`, which only tells
-- two sets apart, is left out. A pool comes with what its `normalized_domains` gives. The indices
-- that a set holds are kept in bounds by `build`; out of them the outcome is a panic.
pub mod Closed
pub mod Specific
pub mod Lookup
mod Tests
use ferrous_dns.Base.{
  ℕ, zero, suc, ◌+◌, ◌-◌, ◌^◌, Bool, true, false, not, ◌&&◌, ◌||◌, ltb, leb, ◌==◌, if◌then◌else◌,
  Option, none, some, List, [], ◌∷◌, ◌++◌, length, get_elem?, take, drop, any, map, ℕ_discrete,
}
use ferrous_dns.Base.Ascii.{to_ascii_lowercase, is_ascii_uppercase}
use ferrous_dns.Base.Dict
use ferrous_dns.FastPath.Outcome.{Outcome, panic, stuck, reject, ok}

abbrev pub max_name_len : ℕ
max_name_len = 255

-- `i64`.
pub data ℤ : Type 0 where
  pos negsuc : ℕ → ℤ

abbrev pub to_u32 : ℤ → Option ℕ
to_u32 (pos n) = if ltb n (2 ^ 32) then some n else none
to_u32 (negsuc n) = none

pub record Route : Type 0 where
  pub view : ℕ
  pub internal : Bool

pub record DomainRoutes : Type 0 where
  pub every_client : Option ℕ
  pub by_group : List (ℕ × ℕ)

abbrev pub no_routes : DomainRoutes
no_routes = record { every_client = none; by_group = [] }

abbrev pub for_every_client : DomainRoutes → Option (ℕ × ℕ)
for_every_client routes = elim routes.every_client [ none ↦ none | some index ↦ some (index, 0) ]

-- The pool's index and the cache view.
unfoldable pub matching : DomainRoutes → Option ℕ → Option (ℕ × ℕ)
matching routes none = for_every_client routes
matching routes (some group) = elim (Dict.get ℕ_discrete group routes.by_group) [
  | none ↦ for_every_client routes
  | some index ↦ some (index, group)
]

pub record UpstreamPool : Type 0 where
  pub normalized_domains : Option (List (List ℕ))
  pub is_conditional : Bool
  pub groups : List ℤ
  pub internal : Bool

pub record PoolRoutes : Type 0 where
  pub by_domain : List (List ℕ × DomainRoutes)
  pub internal : List Bool
  pub has_group_routes : Bool

unfoldable pub same_name : Discrete (List ℕ)
same_name = hlevel (ℕ_discrete)

-- `u32::try_from(*id).ok().filter(|id| *id != 0)` of each group; `none` is the `ConfigError`.
unfoldable pub group_ids : List ℤ → Option (List ℕ)
group_ids [] = some []
group_ids (g ∷ groups) = elim (to_u32 g) [
  | none ↦ none
  | some id ↦
      if id == 0 then none else elim (group_ids groups) [ none ↦ none | some ids ↦ some (id ∷ ids) ]
]

-- The part after each dot.
unfoldable pub parents : List ℕ → List (List ℕ)
parents [] = []
parents (c ∷ domain) = if c == b'.' then domain ∷ parents domain else parents domain

abbrev pub Domains : Type 0
Domains = List (List ℕ × DomainRoutes)

-- `by_domain.entry(domain).or_default()`.
unfoldable pub or_default : List ℕ → Domains → Domains
or_default domain by_domain = elim (Dict.get same_name domain by_domain) [
  | none ↦ Dict.insert same_name domain no_routes by_domain
  | some _ ↦ by_domain
]

unfoldable pub add_parents : List (List ℕ) → Domains → Domains
add_parents [] by_domain = by_domain
add_parents (parent ∷ rest) by_domain = add_parents rest (or_default parent by_domain)

unfoldable pub push_groups : List ℕ → ℕ → List (ℕ × ℕ) → List (ℕ × ℕ)
push_groups [] index by_group = by_group
push_groups (group ∷ groups) index by_group =
    push_groups groups index
      (if any (λ g. g.0 == group) by_group then by_group else by_group ++ (group, index) ∷ [])

-- What the pool adds to a domain that it routes.
unfoldable pub claim : List ℕ → ℕ → DomainRoutes → DomainRoutes
claim groups index entry = record {
  every_client = elim groups [
    | [] ↦ elim entry.every_client [ none ↦ some index | some i ↦ some i ]
    | _ ∷ _ ↦ entry.every_client
  ];
  by_group = push_groups groups index entry.by_group;
}

unfoldable pub add_domain : List ℕ → ℕ → List ℕ → Domains → Domains
add_domain groups index domain by_domain =
    let with_parents = add_parents (parents domain) by_domain in
    let entry : DomainRoutes = elim (Dict.get same_name domain with_parents) [
      | none ↦ no_routes
      | some e ↦ e
    ] in
    Dict.insert same_name domain (claim groups index entry) with_parents

unfoldable pub add_domains : List ℕ → ℕ → List (List ℕ) → Domains → Domains
add_domains groups index [] by_domain = by_domain
add_domains groups index (domain ∷ domains) by_domain =
    add_domains groups index domains (add_domain groups index domain by_domain)

abbrev pub has_some {ℓ} : {A : Type ℓ} → List A → Bool
has_some [] = false
has_some (x ∷ xs) = true

-- The loop over the pools left, from their index on.
unfoldable pub add_pools : ℕ → List UpstreamPool → PoolRoutes → Option PoolRoutes
add_pools index [] routes = some routes
add_pools index (pool ∷ pools) routes = elim (group_ids pool.groups) [
  | none ↦ none
  | some groups ↦ elim pool.normalized_domains [
    | none ↦ none
    | some domains ↦ add_pools (index + 1) pools (record routes {
      by_domain = add_domains groups index domains routes.by_domain;
      has_group_routes = routes.has_group_routes || (pool.is_conditional && has_some groups);
    })
  ]
]

unfoldable pub build : List UpstreamPool → Option PoolRoutes
build pools = add_pools 0 pools (record {
  by_domain = [];
  internal = map (λ (pool : UpstreamPool). pool.internal) pools;
  has_group_routes = false;
})

-- `rfind('.')`.
unfoldable pub rfind : List ℕ → Option ℕ
rfind [] = none
rfind (c ∷ text) = elim (rfind text) [
  | some dot ↦ some (suc dot)
  | none ↦ if c == b'.' then some 0 else none
]

-- `name[..prefix_end].rfind('.').map_or(0, |dot| dot + 1)`.
unfoldable pub label_start : List ℕ → ℕ → ℕ
label_start name prefix_end = elim (rfind (take prefix_end name)) [ none ↦ 0 | some dot ↦ suc dot ]

-- A domain that routes the group takes the place of the best one so far.
abbrev pub or_better : Option (ℕ × ℕ) → Option (ℕ × ℕ) → Option (ℕ × ℕ)
or_better none best = best
or_better (some found) best = some found

-- A round of the loop, by the routes of its domain and the start of its label.
abbrev pub round :
    Option ℕ
    → Option DomainRoutes
    → ℕ
    → Option (ℕ × ℕ)
    → (ℕ → Option (ℕ × ℕ) → Outcome (Option (ℕ × ℕ)))
    → Outcome (Option (ℕ × ℕ))
round group none start best next = ok best
round group (some routes) zero best next = ok (or_better (matching routes group) best)
round group (some routes) (suc end) best next = next end (or_better (matching routes group) best)

-- The loop of `lookup`, over the name up to `prefix_end`.
unfoldable pub find_best :
    ℕ → Domains → Option ℕ → List ℕ → ℕ → Option (ℕ × ℕ) → Outcome (Option (ℕ × ℕ))
find_best zero by_domain group name prefix_end best = stuck
find_best (suc fuel) by_domain group name prefix_end best =
    let start = label_start name prefix_end in
    round group (Dict.get same_name (drop start name) by_domain) start best
      λ end found. find_best fuel by_domain group name end found

-- `strip_suffix('.')`.
unfoldable pub strip_dot : List ℕ → List ℕ
strip_dot [] = []
strip_dot (c ∷ []) = if c == b'.' then [] else c ∷ []
strip_dot (c ∷ d ∷ text) = c ∷ strip_dot (d ∷ text)

-- The name in lower case; `none` is a name with an uppercase letter that is longer than the buffer.
unfoldable pub lookup_name : List ℕ → Option (List ℕ)
lookup_name domain =
    let name = strip_dot domain in
    if any is_ascii_uppercase name
    then if leb (length name) max_name_len then some (map to_ascii_lowercase name) else none
    else some name

abbrev pub with_route : PoolRoutes → Option (ℕ × ℕ) → Outcome (ℕ × Route)
with_route routes none = reject
with_route routes (some (index, view)) = elim (get_elem? routes.internal index) [
  | none ↦ panic
  | some internal ↦ ok (index, record { view = view; internal = internal })
]

abbrev pub client_group : Option ℤ → Option ℕ
client_group group = elim group [ none ↦ none | some g ↦ to_u32 g ]

-- Each round takes a label at least, so one round more than the name has bytes is enough.
unfoldable pub lookup : PoolRoutes → List ℕ → Option ℤ → Outcome (ℕ × Route)
lookup routes domain group = elim (has_some routes.by_domain) [
  | false ↦ reject
  | true ↦ elim (lookup_name domain) [
    | none ↦ reject
    | some name ↦
        elim (find_best (suc (length name)) routes.by_domain (client_group group) name (length name)
          none) [
            | panic ↦ panic
            | stuck ↦ stuck
            | reject ↦ reject
            | ok best ↦ with_route routes best
          ]
  ]
]
