-- ===== src/Upstreams/Routes/Tests.antt =====
-- Two pools: one for `corp`, for every client, and one for `a.corp`, for group 7.
use ferrous_dns.Base.{◌≡◌, refl, true, false, none, some, List, [], ◌∷◌, ℕ_discrete}
use ferrous_dns.Base.Ascii.{codes, is_ascii_uppercase, to_ascii_lowercase}
use ferrous_dns.Base.Dict
use ferrous_dns.Upstreams.Routes.{
  UpstreamPool, PoolRoutes, pos, build, add_pools, add_domains, add_domain, add_parents, or_default,
  parents, claim, push_groups, group_ids, lookup, lookup_name, strip_dot, same_name, with_route,
}
use ferrous_dns.Upstreams.Routes.Specific.{first_routed}
use ferrous_dns.Upstreams.Routes.Lookup.{lookup_lem}

abbrev pools : List UpstreamPool
pools =
    record {
      normalized_domains = some (codes "corp" ∷ []);
      is_conditional = true;
      groups = [];
      internal = true;
    }
    ∷ record {
      normalized_domains = some (codes "a.corp" ∷ []);
      is_conditional = true;
      groups = pos 7 ∷ [];
      internal = false;
    }
    ∷ []

abbrev routes : PoolRoutes
routes = record {
  by_domain =
      (codes "corp", record { every_client = some 0; by_group = [] })
      ∷ (codes "a.corp", record { every_client = none; by_group = (7, 1) ∷ [] })
      ∷ [];
  internal = true ∷ false ∷ [];
  has_group_routes = true;
}

builds : build pools ≡ some routes
unfolding build add_pools add_domains add_domain add_parents or_default parents claim push_groups
    group_ids same_name ℕ_discrete Dict.get Dict.insert
builds = refl

lookup_lem_example :
    lookup routes (codes "X.a.corp.") (some (pos 7))
    ≡ with_route routes
        (first_routed routes.by_domain (some 7) (codes "x.a.corp" ∷ parents (codes "x.a.corp")))
unfolding lookup_name strip_dot is_ascii_uppercase to_ascii_lowercase
lookup_lem_example =
    lookup_lem pools routes (codes "X.a.corp.") (codes "x.a.corp") (some (pos 7)) builds refl
