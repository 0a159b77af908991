-- ===== src/Upstreams/Tests.antt =====
-- Servers are numbers: 1 answers, 2 answers SERVFAIL, 3 times out. The theorems at such servers.
use ferrous_dns.Base.{
  ℕ, ◌≡◌, refl, true, false, none, some, List, [], ◌∷◌, ◌++◌, arith, ℕ_discrete, ◌==◌,
  if◌then◌else◌,
}
use ferrous_dns.Base.Dict
use ferrous_dns.Base.Ascii.{same_text}
use ferrous_dns.Health.{HealthChecker, is_healthy, new, mark_failed}
use ferrous_dns.Health
use ferrous_dns.Upstreams.Errors.{
  transport_timeout, no_error, serv_fail, ResponseCode, all_upstreams_servfail,
  transport_all_servers_unreachable, is_servfail,
}
use ferrous_dns.Upstreams.Query.{
  World, Exchange, failed, replied, QueryContext, err, attempt, get_display,
}
use ferrous_dns.Upstreams.Strategy.{parallel, balanced, failover, query_refs}
use ferrous_dns.Upstreams.Failover
use ferrous_dns.Upstreams.Balanced
use ferrous_dns.Upstreams.Parallel
use ferrous_dns.Upstreams.Sequence
use ferrous_dns.Upstreams.Rotation.{query-turned}
use ferrous_dns.Upstreams.Declined.{query_refs-declines, declines, heard}
use ferrous_dns.Upstreams.Replies.{replies, until_ok, first_ok, every_servfail}
use ferrous_dns.Upstreams.Pools.{PoolWithStrategy, healthy_servers, query_default}
use ferrous_dns.Upstreams.FailOpen.{query_default-asks_healthy, Returns}
use ferrous_dns.Upstreams.Unchecked.{query_default-unchecked, SameRun}

abbrev reply : ResponseCode → Exchange
reply code = replied (record { rcode = code; raw_bytes = [] }) false 20

abbrev exchange : ℕ → Exchange
exchange s =
    if s == 1
    then reply no_error
    else if s == 2
    then reply serv_fail
    else failed (transport_timeout [])

-- Of the servers asked at once the one that times out does not settle.
abbrev settles : List ℕ → List (ℕ × Exchange)
settles [] = []
settles (s ∷ servers) = if s == 3 then settles servers else (s, exchange s) ∷ settles servers

abbrev world : World ℕ
world = record {
  exchange = λ asked s. exchange s;
  settled = λ asked servers. settles servers;
  to_string = λ s. s ∷ [];
  decimal = λ n. n ∷ [];
}

abbrev context : List ℕ → QueryContext ℕ
context servers = record { servers = servers; pool_name = []; server_displays = [] }

abbrev three : QueryContext ℕ
three = context (3 ∷ 1 ∷ 2 ∷ [])

failover_skips : (Failover.query ℕ_discrete world three []).0 ≡ 3 ∷ 1 ∷ []
unfolding Failover.query Failover.try_next attempt get_display Dict.get
failover_skips = refl

balanced_wraps :
    (Balanced.query ℕ_discrete world (context (3 ∷ 2 ∷ [])) 5 [])
    ≡ (some (2 ∷ 3 ∷ [], err transport_all_servers_unreachable), 6)
unfolding Balanced.query Balanced.try_from attempt get_display Dict.get is_servfail same_text
balanced_wraps = refl

pair_declines :
    (query_refs ℕ_discrete world parallel (context (2 ∷ 2 ∷ [])) [])
    ≡ (some (2 ∷ 2 ∷ [], err all_upstreams_servfail), parallel)
unfolding query_refs Parallel.query Parallel.race Parallel.pair_failure attempt get_display Dict.get
    is_servfail same_text
pair_declines = refl

query-replies_example : Failover.query ℕ_discrete world three [] ≡ (
    let rs = replies ℕ_discrete world three [] (3 ∷ 1 ∷ 2 ∷ []) in
    ([] ++ until_ok rs, first_ok true rs))
query-replies_example = Sequence.query-replies ℕ_discrete world three [] (omega arith)

query-turned_example :
    Balanced.query ℕ_discrete world three 7 []
    ≡ (some (Failover.query ℕ_discrete world (context (1 ∷ 2 ∷ 3 ∷ [])) []), 8)
query-turned_example = query-turned ℕ_discrete world three 7 [] (omega arith)

query_refs-declines_example :
    declines (query_refs ℕ_discrete world (balanced 2) (context (2 ∷ 2 ∷ 3 ∷ [])) []).0
    ≡ every_servfail (heard ℕ_discrete world (balanced 2) (context (2 ∷ 2 ∷ 3 ∷ [])) [])
query_refs-declines_example =
    query_refs-declines ℕ_discrete world (balanced 2) (context (2 ∷ 2 ∷ 3 ∷ [])) [] (omega arith)
      (omega arith)

abbrev pool : List ℕ → PoolWithStrategy ℕ
pool servers = record {
  name = [];
  is_conditional = false;
  strategy = failover;
  server_protocols = servers;
  server_displays = [];
}

-- A checker that marks the server down after one failure.
abbrev checker : ℕ → HealthChecker ℕ ℕ
checker s = mark_failed ℕ_discrete (new ℕ_discrete 1 1) s none 0

query_default-asks_healthy_example :
    Returns
      (λ s. is_healthy ℕ_discrete (checker 3) s ≡ true)
      (query_default ℕ_discrete world (some (checker 3)) true (pool (3 ∷ 1 ∷ []) ∷ []))
unfolding healthy_servers is_healthy mark_failed Health.failed Dict.get Dict.insert ℕ_discrete
query_default-asks_healthy_example =
    query_default-asks_healthy ℕ_discrete world (checker 3) true (pool (3 ∷ 1 ∷ []) ∷ []) refl

query_default-unchecked_example :
    SameRun
      (query_default ℕ_discrete world (some (checker 3)) false (pool (3 ∷ []) ∷ []))
      (query_default {E = ℕ} ℕ_discrete world none false (pool (3 ∷ []) ∷ []))
unfolding healthy_servers is_healthy mark_failed Health.failed Dict.get Dict.insert ℕ_discrete
query_default-unchecked_example =
    query_default-unchecked ℕ_discrete world (checker 3) false (pool (3 ∷ []) ∷ []) refl
