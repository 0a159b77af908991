-- ===== src/Login/Attempts.antt =====
-- What the callers of login_rate_limiter.rs do, and what one client's own attempts amount to by its
-- contract: a count in a window that is open.
use ferrous_dns.Base.{ℕ, ◌≤◌, ite, leb, ◌==◌, if◌then◌else◌, Option, none, some, List, [], ◌∷◌}
use ferrous_dns.Ip.{IpAddr, IpAddr-discrete}
use ferrous_dns.Login.{
  FailureWindow, LoginRateLimiter, LoginCheck, accepted, rate_limited, is_open, window_key,
  count_failure, record_failure_at, reset,
}

-- What the callers do: they count a wrong credential, or clear the count after a login.
pub data Attempt : Type 0 where
  failed : IpAddr → ℕ → Attempt
  logged_in : IpAddr → Attempt

unfoldable pub attempt : LoginRateLimiter → Attempt → LoginRateLimiter
attempt l (failed client now) = record_failure_at l client now
attempt l (logged_in client) = reset l client

abbrev pub run : LoginRateLimiter → List Attempt → LoginRateLimiter
run l [] = l
run l (e ∷ es) = run (attempt l e) es

-- The times do not go back, from `since` to `now`.
abbrev pub InOrder : ℕ → List Attempt → ℕ → Type 0
InOrder since [] now = since ≤ now
InOrder since (failed client s ∷ es) now = (since ≤ s) × InOrder s es now
InOrder since (logged_in client ∷ es) now = InOrder since es now

abbrev pub still_open : ℕ → ℕ → Option FailureWindow → Option FailureWindow
still_open window now none = none
still_open window now (some w) = if is_open window now w then some w else none

-- A failure starts a count, or adds to one whose window is open.
abbrev pub next_count : ℕ → Option FailureWindow → FailureWindow
next_count now none = record { opened_at = now; failures = 1 }
next_count now (some w) = count_failure w

-- The count of the clients that share the key `k`.
abbrev pub counted : ℕ → IpAddr → Option FailureWindow → Attempt → Option FailureWindow
counted window k seen (failed client now) =
    ite (IpAddr-discrete (window_key client) k) (some (next_count now (still_open window now seen)))
      seen
counted window k seen (logged_in client) = ite (IpAddr-discrete (window_key client) k) none seen

abbrev pub count : ℕ → IpAddr → Option FailureWindow → List Attempt → Option FailureWindow
count window k seen [] = seen
count window k seen (e ∷ es) = count window k (counted window k seen e) es

abbrev pub verdict : ℕ → Option FailureWindow → LoginCheck
verdict max_failures none = accepted
verdict max_failures (some w) =
    if max_failures == 0
    then accepted
    else if leb max_failures w.failures
    then rate_limited
    else accepted
