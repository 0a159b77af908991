-- ===== src/Login/Tests.antt =====
-- The tests of login_rate_limiter.rs, and its theorems at two clients.
use ferrous_dns.Base.{◌≡◌, ◌≢◌, none, List, [], ◌∷◌, arith}
use ferrous_dns.Ip.{IpAddr, IpAddr-discrete, to_canonical}
use ferrous_dns.Login.{rate_limited, new, window_key, mask_prefix, check_at}
use ferrous_dns.Login.Attempts.{Attempt, failed, logged_in, run, still_open, count, verdict}
use ferrous_dns.Login.History.{check_at-run}
use ferrous_dns.Login.Lockout.{locked_out}

abbrev client : IpAddr
client = IpAddr.v4 1

abbrev other : IpAddr
other = IpAddr.v4 2

abbrev guesses : List Attempt
guesses = failed client 100 ∷ failed other 101 ∷ logged_in other ∷ failed client 105 ∷ []

check_at-run_example :
    (check_at (run (new 2 60) guesses) client 110
      ≡ verdict 2 (still_open 60 110 (count 60 (window_key client) none guesses)))
check_at-run_example =
    check_at-run 2 60 guesses client 110 (omega arith, (omega arith, (omega arith, omega arith)))

others_differ : IpAddr.v4 2 ≢ IpAddr.v4 1
others_differ e = cc

locked_out_example : check_at (run (new 2 60) guesses) client 110 ≡ rate_limited
unfolding window_key to_canonical mask_prefix IpAddr-discrete
locked_out_example =
    locked_out 2 60 guesses client 110 (omega arith)
      (omega arith, (omega arith, (omega arith, omega arith)))
      (λ _. omega arith, (λ _. omega arith, (others_differ, (λ _. omega arith, tt)))) (omega arith)
