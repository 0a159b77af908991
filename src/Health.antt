-- ===== src/Health.antt =====
-- The health of upstream servers, crates/infrastructure/src/dns/load_balancer/health.rs. A server
-- is a key of any type with equality, and the text of an error a value of any type: the checker
-- only compares the one and stores the other.
pub mod History
pub mod Rotation
mod Tests
use ferrous_dns.Base.{
  ℕ, ◌+◌, ◌-◌, ◌^◌, min, Bool, true, false, ◌||◌, leb, if◌then◌else◌, Option, none, some, List, [],
  ◌∷◌, ite,
}
use ferrous_dns.Base.Dict

pub data ServerStatus : Type 0 where
  healthy unhealthy unknown : ServerStatus

pub record ServerHealth (E : Type 0) : Type 0 where
  pub status : ServerStatus
  pub consecutive_failures : ℕ
  pub consecutive_successes : ℕ
  pub last_check_latency_ms : Option ℕ
  pub last_error : Option E

pub record HealthChecker (K E : Type 0) : Type 0 where
  pub health_map : List (K × ServerHealth E)
  pub failure_threshold : ℕ
  pub success_threshold : ℕ

-- How a probe of a server ended: what `check_server` gets from the transport and from the parser of
-- the response, whose test `is_server_error` is the flag of `answered`.
pub data Probe (E : Type 0) : Type 0 where
  no_transport : E → Probe E
  timed_out : E → Probe E
  send_failed : ℕ → E → Probe E
  answered : Bool → ℕ → E → Probe E
  unparsed : ℕ → E → Probe E

abbrev pub saturating_succ : ℕ → ℕ
saturating_succ n = min (n + 1) (2 ^ 16 - 1)

module _ {E : Type 0} where
  abbrev pub default : ServerHealth E
  default = record {
    status = unknown;
    consecutive_failures = 0;
    consecutive_successes = 0;
    last_check_latency_ms = none;
    last_error = none;
  }

  abbrev pub or_default : Option (ServerHealth E) → ServerHealth E
  or_default none = default
  or_default (some h) = h

  unfoldable pub succeeded : ℕ → ℕ → ServerHealth E → ServerHealth E
  succeeded success_threshold latency_ms h =
      let successes = saturating_succ h.consecutive_successes in
      record {
        status = if leb success_threshold successes then healthy else h.status;
        consecutive_failures = 0;
        consecutive_successes = successes;
        last_check_latency_ms = some latency_ms;
        last_error = none;
      }

  unfoldable pub failed : ℕ → Option ℕ → E → ServerHealth E → ServerHealth E
  failed failure_threshold latency_ms error h =
      let failures = saturating_succ h.consecutive_failures in
      record {
        status = if leb failure_threshold failures then unhealthy else h.status;
        consecutive_failures = failures;
        consecutive_successes = 0;
        last_check_latency_ms = latency_ms;
        last_error = some error;
      }

abbrev pub in_rotation : ServerStatus → Bool
in_rotation healthy = true
in_rotation unknown = true
in_rotation unhealthy = false

module _ {K : Type 0} (same : Discrete K) where
  abbrev pub is_live : K → List K → Bool
  is_live protocol [] = false
  is_live protocol (p ∷ live) = ite (same p protocol) true (is_live protocol live)

module _ {K E : Type 0} (same : Discrete K) where
  abbrev pub new : ℕ → ℕ → HealthChecker K E
  new failure_threshold success_threshold = record {
    health_map = [];
    failure_threshold = failure_threshold;
    success_threshold = success_threshold;
  }

  unfoldable pub mark_healthy : HealthChecker K E → K → ℕ → HealthChecker K E
  mark_healthy c protocol latency_ms = record c {
    health_map =
        Dict.insert same protocol
          (succeeded c.success_threshold latency_ms
            (or_default (Dict.get same protocol c.health_map)))
          c.health_map;
  }

  unfoldable pub mark_failed : HealthChecker K E → K → Option ℕ → E → HealthChecker K E
  mark_failed c protocol latency_ms error = record c {
    health_map =
        Dict.insert same protocol
          (failed c.failure_threshold latency_ms error
            (or_default (Dict.get same protocol c.health_map)))
          c.health_map;
  }

  unfoldable pub check_server : HealthChecker K E → K → Probe E → HealthChecker K E
  check_server c protocol (no_transport e) = mark_failed c protocol none e
  check_server c protocol (timed_out e) = mark_failed c protocol none e
  check_server c protocol (send_failed latency_ms e) = mark_failed c protocol (some latency_ms) e
  check_server c protocol (answered true latency_ms e) = mark_failed c protocol (some latency_ms) e
  check_server c protocol (answered false latency_ms e) = mark_healthy c protocol latency_ms
  check_server c protocol (unparsed latency_ms e) = mark_failed c protocol (some latency_ms) e

  unfoldable pub retain_live : HealthChecker K E → List K → HealthChecker K E
  retain_live c live = record c {
    health_map = Dict.retain same (λ p _. is_live same p live) c.health_map;
  }

  unfoldable pub get_status : HealthChecker K E → K → ServerStatus
  get_status c protocol = (or_default (Dict.get same protocol c.health_map)).status

  unfoldable pub is_healthy : HealthChecker K E → K → Bool
  is_healthy c protocol = elim (Dict.get same protocol c.health_map) [
    | none ↦ true
    | some h ↦ in_rotation h.status
  ]
