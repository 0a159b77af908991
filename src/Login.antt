-- ===== src/Login.antt =====
-- The lockout of wrong credentials, crates/application/src/use_cases/auth/login_rate_limiter.rs.
-- Times and the window are numbers of one unit, and the clock reading is an argument.
pub mod Attempts
pub mod History
pub mod Lockout
pub mod Keys
mod Tests
use ferrous_dns.Base.{
  ℕ, ◌+◌, ◌-◌, ◌^◌, min, bit_and, Bool, true, false, not, ◌&&◌, leb, ltb, ◌==◌, if◌then◌else◌,
  Option, none, some, List, [], length,
}
use ferrous_dns.Base.Dict
use ferrous_dns.Ip.{IpAddr, IpAddr-discrete, to_canonical}

abbrev pub prune_threshold : ℕ
prune_threshold = 1024

pub record FailureWindow : Type 0 where
  pub opened_at : ℕ
  pub failures : ℕ

pub record LoginRateLimiter : Type 0 where
  pub max_failures : ℕ
  pub window : ℕ
  pub windows : List (IpAddr × FailureWindow)

-- `Result<(), DomainError>`; the only error is `RateLimited`.
pub data LoginCheck : Type 0 where
  accepted rate_limited : LoginCheck

abbrev pub new : ℕ → ℕ → LoginRateLimiter
new max_failures window = record { max_failures = max_failures; window = window; windows = [] }

-- `duration_since` saturates at zero.
abbrev pub is_open : ℕ → ℕ → FailureWindow → Bool
is_open window now w = ltb (now - w.opened_at) window

-- The mask is `!((1u128 << 64) - 1)`.
unfoldable pub mask_prefix : IpAddr → IpAddr
mask_prefix (IpAddr.v4 bits) = IpAddr.v4 bits
mask_prefix (IpAddr.v6 bits) = IpAddr.v6 (bit_and bits (2 ^ 128 - 1 - (2 ^ 64 - 1)))

unfoldable pub window_key : IpAddr → IpAddr
window_key client = mask_prefix (to_canonical client)

unfoldable pub check_at : LoginRateLimiter → IpAddr → ℕ → LoginCheck
check_at l client now =
    if l.max_failures == 0
    then accepted
    else elim (Dict.get IpAddr-discrete (window_key client) l.windows) [
      | none ↦ accepted
      | some w ↦
          if is_open l.window now w && leb l.max_failures w.failures then rate_limited else accepted
    ]

unfoldable pub prune : LoginRateLimiter → ℕ → List (IpAddr × FailureWindow)
prune l now =
    if ltb prune_threshold (length l.windows)
    then Dict.retain IpAddr-discrete (λ _ w. is_open l.window now w) l.windows
    else l.windows

unfoldable pub or_insert : Option FailureWindow → ℕ → FailureWindow
or_insert none now = record { opened_at = now; failures = 0 }
or_insert (some w) now = w

unfoldable pub reopen : ℕ → ℕ → FailureWindow → FailureWindow
reopen window now w =
    if leb window (now - w.opened_at) then record { opened_at = now; failures = 0 } else w

unfoldable pub count_failure : FailureWindow → FailureWindow
count_failure w = record w { failures = min (w.failures + 1) (2 ^ 32 - 1) }

unfoldable pub record_failure_at : LoginRateLimiter → IpAddr → ℕ → LoginRateLimiter
record_failure_at l client now =
    if l.max_failures == 0
    then l
    else (let key = window_key client in
        let windows = prune l now in
        let w = or_insert (Dict.get IpAddr-discrete key windows) now in
        record l {
          windows = Dict.insert IpAddr-discrete key (count_failure (reopen l.window now w)) windows;
        })

unfoldable pub reset : LoginRateLimiter → IpAddr → LoginRateLimiter
reset l client = record l { windows = Dict.remove IpAddr-discrete (window_key client) l.windows }
