-- ===== src/Login/Lockout.antt =====
-- When login_rate_limiter.rs refuses a client, and when it lets it in again.
use ferrous_dns.Base.{
  ℕ, ◌+◌, ◌-◌, ◌^◌, ◌≤◌, ◌<◌, ◌≡◌, ◌≢◌, ◌∙◌, refl, inl, inr, ite, if_pos, if_neg, true, leb, ltb,
  if◌then◌else◌, Option, none, some, List, [], ◌∷◌, arith, Bool-cases,
}
use ferrous_dns.Ip.{IpAddr, IpAddr-discrete}
use ferrous_dns.Login.{
  FailureWindow, accepted, rate_limited, new, window_key, check_at, count_failure,
}
use ferrous_dns.Login.Attempts.{
  Attempt, failed, logged_in, run, InOrder, still_open, next_count, count, verdict,
}
use ferrous_dns.Login.History.{check_at-run}

-- The attempts of the key `k` are failures, each within one window before `now`.
abbrev pub OnlyFailures : ℕ → IpAddr → ℕ → List Attempt → Type 0
OnlyFailures window k now [] = Unit
OnlyFailures window k now (failed client s ∷ es) =
    (window_key client ≡ k → now < s + window) × OnlyFailures window k now es
OnlyFailures window k now (logged_in client ∷ es) =
    (window_key client ≢ k) × OnlyFailures window k now es

abbrev pub own_failures : IpAddr → List Attempt → ℕ
own_failures k [] = 0
own_failures k (failed client s ∷ es) =
    ite (IpAddr-discrete (window_key client) k) (own_failures k es + 1) (own_failures k es)
own_failures k (logged_in client ∷ es) = own_failures k es

-- The failures of the key `k` are a window or more before `now`.
abbrev pub LongAgo : ℕ → IpAddr → ℕ → List Attempt → Type 0
LongAgo window k now [] = Unit
LongAgo window k now (failed client s ∷ es) =
    (window_key client ≡ k → s + window ≤ now) × LongAgo window k now es
LongAgo window k now (logged_in client ∷ es) = LongAgo window k now es

InOrder-le : (since : ℕ) (es : List Attempt) (now : ℕ) → InOrder since es now → since ≤ now
InOrder-le since [] now h = h
InOrder-le since (failed client s ∷ es) now h = omega (arith, h.0, InOrder-le s es now h.1)
InOrder-le since (logged_in client ∷ es) now h = InOrder-le since es now h

abbrev Counts : ℕ → ℕ → ℕ → Option FailureWindow → Type 0
Counts window now n none = n ≡ 0
Counts window now n (some w) =
    (w.failures ≡ n) × (0 < n) × (now < w.opened_at + window) × (w.opened_at ≤ now)

next_count-Counts :
    (window now s n : ℕ) (seen : Option FailureWindow)
    → s ≤ now
    → now < s + window
    → n + 1 < 2 ^ 32
    → Counts window now n seen
    → Counts window now (n + 1) (some (next_count s (still_open window s seen)))
unfolding count_failure
next_count-Counts window now s n none h recent small c = (omega arith, omega arith, recent, h)
next_count-Counts window now s n (some w) h recent small c =
    let opened : ltb (s - w.opened_at) window ≡ true = ground arith in
    rw opened (omega (arith, c.0), omega arith, c.2, c.3)

count-Counts :
    (window : ℕ) (k : IpAddr) (now since n : ℕ) (es : List Attempt) (seen : Option FailureWindow)
    → InOrder since es now
    → OnlyFailures window k now es
    → n + own_failures k es < 2 ^ 32
    → Counts window now n seen
    → Counts window now (n + own_failures k es) (count window k seen es)
count-Counts window k now since n [] seen h o small c = let e : n + 0 ≡ n = omega arith in rw e c
count-Counts window k now since n (failed client s ∷ es) seen h o small c =
    elim (IpAddr-discrete (window_key client) k) [
      | yes p ↦
          let e : n + (own_failures k es + 1) ≡ n + 1 + own_failures k es = omega arith in
          rw (if_pos _ p) (
            rw (if_pos _ p) (
              rw e (
                count-Counts window k now s (n + 1) es _ h.1 o.1
                  (rw e at (rw (if_pos _ p) at small))
                  (next_count-Counts window now s n seen (InOrder-le s es now h.1) (o.0 p)
                    (omega (arith, rw e at (rw (if_pos _ p) at small))) c))))
      | no p ↦ rw (if_neg _ p) (
          rw (if_neg _ p)
            (count-Counts window k now s n es seen h.1 o.1 (rw (if_neg _ p) at small) c))
    ]
count-Counts window k now since n (logged_in client ∷ es) seen h o small c =
    rw (if_neg (IpAddr-discrete (window_key client) k) o.0)
      (count-Counts window k now since n es seen h o.1 small c)

verdict-Counts :
    (max_failures window now n : ℕ) (seen : Option FailureWindow)
    → 0 < max_failures
    → Counts window now n seen
    → (verdict max_failures (still_open window now seen)
        ≡ (if leb max_failures n then rate_limited else accepted))
verdict-Counts max_failures window now n none on c = ground arith
verdict-Counts max_failures window now n (some w) on c =
    let opened : ltb (now - w.opened_at) window ≡ true = ground (arith, c.2, c.3) in
    rw opened (rw c.0 (ground arith))

-- A client whose attempts so far are `n` failures, fewer than 2^32 and all within one window before
-- `now`, is refused at `now` exactly when `n` is `max_failures` or more, whatever other clients do
-- in between. `max_failures` is not zero, and the times do not go back.
pub locked_out :
    (max_failures window : ℕ) (es : List Attempt) (client : IpAddr) (now : ℕ)
    → 0 < max_failures
    → InOrder 0 es now
    → OnlyFailures window (window_key client) now es
    → own_failures (window_key client) es < 2 ^ 32
    → (check_at (run (new max_failures window) es) client now ≡ (
        if leb max_failures (own_failures (window_key client) es) then rate_limited else accepted))
locked_out max_failures window es client now on h o small =
    check_at-run max_failures window es client now h
    ∙ verdict-Counts max_failures window now _ _ on (
        rw from_zero at
          (count-Counts window (window_key client) now 0 0 es none h o (omega arith) refl))
  where
    from_zero : 0 + own_failures (window_key client) es ≡ own_failures (window_key client) es
    from_zero = omega arith

abbrev Closed : ℕ → ℕ → Option FailureWindow → Type 0
Closed window now none = Unit
Closed window now (some w) = w.opened_at + window ≤ now

next_count-Closed :
    (window now s : ℕ) (seen : Option FailureWindow)
    → s + window ≤ now
    → Closed window now seen
    → Closed window now (some (next_count s (still_open window s seen)))
unfolding count_failure
next_count-Closed window now s none h c = h
next_count-Closed window now s (some w) h c = elim (Bool-cases (ltb (s - w.opened_at) window)) [
  | inl opened ↦ rw opened c
  | inr closed ↦ rw closed h
]

count-Closed :
    (window : ℕ) (k : IpAddr) (now : ℕ) (es : List Attempt) (seen : Option FailureWindow)
    → LongAgo window k now es
    → Closed window now seen
    → Closed window now (count window k seen es)
count-Closed window k now [] seen o c = c
count-Closed window k now (failed client s ∷ es) seen o c =
    elim (IpAddr-discrete (window_key client) k) [
      | yes p ↦
          rw (if_pos (IpAddr-discrete (window_key client) k) p)
            (count-Closed window k now es _ o.1 (next_count-Closed window now s seen (o.0 p) c))
      | no p ↦
          rw (if_neg (IpAddr-discrete (window_key client) k) p)
            (count-Closed window k now es seen o.1 c)
    ]
count-Closed window k now (logged_in client ∷ es) seen o c =
    elim (IpAddr-discrete (window_key client) k) [
      | yes p ↦
          rw (if_pos (IpAddr-discrete (window_key client) k) p)
            (count-Closed window k now es none o tt)
      | no p ↦
          rw (if_neg (IpAddr-discrete (window_key client) k) p)
            (count-Closed window k now es seen o c)
    ]

verdict-Closed :
    (max_failures window now : ℕ) (seen : Option FailureWindow)
    → Closed window now seen
    → verdict max_failures (still_open window now seen) ≡ accepted
verdict-Closed max_failures window now none c = refl
verdict-Closed max_failures window now (some w) c = ground arith

-- A client is accepted once its failures are all a window or more ago, whatever logins and attempts
-- of others lie between, where the times do not go back.
pub let_in_again :
    (max_failures window : ℕ) (es : List Attempt) (client : IpAddr) (now : ℕ)
    → InOrder 0 es now
    → LongAgo window (window_key client) now es
    → check_at (run (new max_failures window) es) client now ≡ accepted
let_in_again max_failures window es client now h o =
    check_at-run max_failures window es client now h
    ∙ verdict-Closed max_failures window now _
        (count-Closed window (window_key client) now es none o tt)
