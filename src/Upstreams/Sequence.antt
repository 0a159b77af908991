-- ===== src/Upstreams/Sequence.antt =====
-- Failover asks the servers in the order they are configured, up to the first that answers.
use ferrous_dns.Base.{
  append_assoc, append-nil, ◌<◌, length, Bool, true, false, ◌&&◌, if◌then◌else◌, List, [], ◌∷◌,
  ◌++◌, ◌≡◌, refl, ◌∙◌, arith, ◌⊎◌, inl, inr,
}
use ferrous_dns.Upstreams.Errors.{
  DomainError, is_servfail, all_servers_failed, all_upstreams_servfail,
  transport_all_servers_unreachable,
}
use ferrous_dns.Upstreams.Query.{Result, ok, err, QueryContext, World, attempt, query_server}
use ferrous_dns.Upstreams.Replies.{replies, until_ok, first_ok}
use ferrous_dns.Upstreams.Failover

pub Result-cases :
    {A : Type 0} (r : Result A) → ((a : A) × (r ≡ ok a)) ⊎ ((e : DomainError) × (r ≡ err e))
Result-cases (ok a) = inl (a, refl)
Result-cases (err e) = inr (e, refl)

all_servers_failed_lem :
    (flag : Bool)
    → all_servers_failed flag
      ≡ (if flag then all_upstreams_servfail else transport_all_servers_unreachable)
all_servers_failed_lem true = refl
all_servers_failed_lem false = refl

module _ {K : Type 0} (same : Discrete K) (w : World K) where
  pub try_next-replies :
      (ctx : QueryContext K) (flag : Bool) (asked servers : List K)
      → Failover.try_next same w ctx flag asked servers ≡ (
        asked ++ until_ok (replies same w ctx asked servers),
        first_ok flag (replies same w ctx asked servers),
      )
  unfolding Failover.try_next replies
  try_next-replies ctx flag asked [] = rw (append-nil, all_servers_failed_lem flag) refl
  try_next-replies ctx flag asked (s ∷ servers) =
      elim (Result-cases (query_server same w ctx asked s)) [
        | inl (r, e) ↦ rw (e, Failover.try_next) refl
        | inr (d, e) ↦
            rw
              (
                e,
                Failover.try_next,
                try_next-replies ctx (flag && is_servfail d) (asked ++ s ∷ []) servers,
                append_assoc,
              )
              refl
      ]

  -- The context's list of servers matters to the loop only through the servers it is given.
  pub try_next-servers :
      (ctx : QueryContext K) (l : List K) (flag : Bool) (asked servers : List K)
      → Failover.try_next same w (record ctx { servers = l }) flag asked servers
        ≡ Failover.try_next same w ctx flag asked servers
  unfolding Failover.try_next attempt
  try_next-servers ctx l flag asked [] = refl
  try_next-servers ctx l flag asked (s ∷ servers) =
      elim (Result-cases (query_server same w ctx asked s)) [
        | inl (r, e) ↦ rw (e, Failover.try_next) refl
        | inr (d, e) ↦
            rw (e, Failover.try_next)
              (try_next-servers ctx l (flag && is_servfail d) (asked ++ s ∷ []) servers)
      ]

  -- With a server at least the query is the loop over all of them.
  pub query-try_next :
      (ctx : QueryContext K) (asked : List K)
      → 0 < length ctx.servers
      → Failover.query same w ctx asked ≡ Failover.try_next same w ctx true asked ctx.servers
  unfolding Failover.query
  query-try_next ctx asked h = go ctx.servers refl h
    where
      go :
          (l : List K)
          → ctx.servers ≡ l
          → 0 < length l
          → Failover.query same w ctx asked ≡ Failover.try_next same w ctx true asked ctx.servers
      go [] e k = absurd (omega arith)
      go (s ∷ l) e k = rw e refl

  -- With a server at least, failover asks the servers in their order up to the first that answers,
  -- and each of them once when none does. It returns the first answer; without one the error is
  -- the one for "every server answered SERVFAIL" when each reply was that, and
  -- `TransportAllServersUnreachable` otherwise.
  pub query-replies :
      (ctx : QueryContext K) (asked : List K)
      → 0 < length ctx.servers
      → Failover.query same w ctx asked ≡ (
        asked ++ until_ok (replies same w ctx asked ctx.servers),
        first_ok true (replies same w ctx asked ctx.servers),
      )
  query-replies ctx asked h =
      query-try_next ctx asked h ∙ try_next-replies ctx true asked ctx.servers
