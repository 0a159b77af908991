-- ===== src/Health/Tests.antt =====
-- The tests of health.rs, and its theorems at two servers.
use ferrous_dns.Base.{ℕ, ◌≡◌, refl, false, List, [], ◌∷◌, arith, ℕ_discrete}
use ferrous_dns.Base.Dict
use ferrous_dns.Health
use ferrous_dns.Health.{
  ServerStatus, healthy, unhealthy, unknown, Probe, timed_out, answered, succeeded, failed,
}
use ferrous_dns.Health.History.{Event, probed, reloaded, run, results, status_of, get_status-run}

-- Server 1 times out twice, while server 2 answers; the latest event comes first.
abbrev down : List (Event ℕ ℕ)
down = probed 1 (timed_out 0) ∷ probed 2 (answered false 5 0) ∷ probed 1 (timed_out 0) ∷ []

abbrev back : List (Event ℕ ℕ)
back = probed 1 (answered false 7 0) ∷ reloaded (1 ∷ 2 ∷ []) ∷ down

is_down : Health.is_healthy ℕ_discrete (run ℕ_discrete 2 1 down) 1 ≡ false
unfolding Health.is_healthy Health.check_server Health.mark_failed Health.mark_healthy succeeded
    failed Dict.get Dict.insert ℕ_discrete
is_down = refl

get_status-run_example :
    (Health.get_status ℕ_discrete (run ℕ_discrete 2 1 back) 1
      ≡ status_of 2 1 (results ℕ_discrete 1 back))
get_status-run_example = get_status-run ℕ_discrete 2 1 1 back (omega arith) (omega arith)
