-- ===== src/Health/History.antt =====
-- health.rs against its contract: the status of a server is a function of the results of its own
-- probes since it joined.
use ferrous_dns.Base.{
  ℕ, ◌+◌, ◌-◌, ◌^◌, ◌<◌, ◌≡◌, refl, ite, if_pos, if_neg, min, Bool, true, false, leb, if◌then◌else◌,
  Bool-cases, Option-cases, inl, inr, Option, none, some, List, [], ◌∷◌, arith,
}
use ferrous_dns.Base.Dict
use ferrous_dns.Health
use ferrous_dns.Health.{
  ServerStatus, healthy, unhealthy, unknown, ServerHealth, HealthChecker, Probe, no_transport,
  timed_out, send_failed, answered, unparsed, saturating_succ, or_default, default, succeeded,
  failed, is_live,
}

-- What a tick does: it probes a server, or drops the servers that are no longer configured.
pub data Event (K E : Type 0) : Type 0 where
  probed : K → Probe E → Event K E
  reloaded : List K → Event K E

abbrev pub passed : {E : Type 0} → Probe E → Bool
passed (no_transport e) = false
passed (timed_out e) = false
passed (send_failed latency_ms e) = false
passed (answered server_error latency_ms e) = if server_error then false else true
passed (unparsed latency_ms e) = false

-- How many of the latest results are equal to `result`.
abbrev pub streak : Bool → List Bool → ℕ
streak result [] = 0
streak true (true ∷ rs) = streak true rs + 1
streak true (false ∷ rs) = 0
streak false (false ∷ rs) = streak false rs + 1
streak false (true ∷ rs) = 0

-- The status that results amount to, the latest first.
abbrev pub status_of : ℕ → ℕ → List Bool → ServerStatus
status_of failure_threshold success_threshold [] = unknown
status_of failure_threshold success_threshold (true ∷ rs) =
    if leb success_threshold (streak true (true ∷ rs))
    then healthy
    else status_of failure_threshold success_threshold rs
status_of failure_threshold success_threshold (false ∷ rs) =
    if leb failure_threshold (streak false (false ∷ rs))
    then unhealthy
    else status_of failure_threshold success_threshold rs

module _ {K E : Type 0} (same : Discrete K) where
  abbrev pub step : HealthChecker K E → Event K E → HealthChecker K E
  step c (probed p probe) = Health.check_server same c p probe
  step c (reloaded live) = Health.retain_live same c live

  -- The checker after the events, the latest first.
  abbrev pub run : ℕ → ℕ → List (Event K E) → HealthChecker K E
  run failure_threshold success_threshold [] = Health.new same failure_threshold success_threshold
  run failure_threshold success_threshold (e ∷ es) =
      step (run failure_threshold success_threshold es) e

  -- The results of the server's own probes since it joined, the latest first.
  abbrev pub results : K → List (Event K E) → List Bool
  results k [] = []
  results k (probed p probe ∷ es) = ite (same p k) (passed probe ∷ results k es) (results k es)
  results k (reloaded live ∷ es) = if is_live same k live then results k es else []

-- The stored entry is what the results amount to; the counters stop at their highest value.
record Summary {E : Type 0} (ft st : ℕ) (h : ServerHealth E) (rs : List Bool) : Type 0 where
  pub status : h.status ≡ status_of ft st rs
  pub failures : h.consecutive_failures ≡ min (streak false rs) (2 ^ 16 - 1)
  pub successes : h.consecutive_successes ≡ min (streak true rs) (2 ^ 16 - 1)

module _ (ft st : ℕ) (ft_fits : ft < 2 ^ 16) (st_fits : st < 2 ^ 16) where
  Summary-succeeded :
      {E : Type 0} (h : ServerHealth E) (latency_ms : ℕ) (rs : List Bool)
      → Summary ft st h rs
      → Summary ft st (succeeded st latency_ms h) (true ∷ rs)
  unfolding succeeded
  Summary-succeeded h latency_ms rs v = record {
    status = ground (arith, v.status, v.successes);
    failures = omega arith;
    successes = omega (arith, v.successes);
  }

  Summary-failed :
      {E : Type 0} (h : ServerHealth E) (latency_ms : Option ℕ) (error : E) (rs : List Bool)
      → Summary ft st h rs
      → Summary ft st (failed ft latency_ms error h) (false ∷ rs)
  unfolding failed
  Summary-failed h latency_ms error rs v = record {
    status = ground (arith, v.status, v.failures);
    failures = omega (arith, v.failures);
    successes = omega arith;
  }

  module _ {K E : Type 0} (same : Discrete K) (k : K) where
    record Tracks (c : HealthChecker K E) (rs : List Bool) : Type 0 where
      pub same_failures : c.failure_threshold ≡ ft
      pub same_successes : c.success_threshold ≡ st
      pub distinct : Dict.IsDistinct same c.health_map
      pub summary : Summary ft st (or_default (Dict.get same k c.health_map)) rs

    -- A change of one server's entry is seen by that server alone.
    Tracks-insert :
        (c : HealthChecker K E) (p : K) (h : ServerHealth E) (rs rs' : List Bool)
        → Tracks c rs
        → (p ≡ k → Summary ft st h rs')
        → Tracks
            (record c { health_map = Dict.insert same p h c.health_map })
            (ite (same p k) rs' rs)
    Tracks-insert c p h rs rs' t v = record {
      same_failures = t.same_failures;
      same_successes = t.same_successes;
      distinct = Dict.insert-IsDistinct same p h c.health_map t.distinct;
      summary = rw (Dict.get-insert same p k h c.health_map) (elim (same p k) [
        | yes e ↦ rw (if_pos _ e) (rw (if_pos _ e) (v e))
        | no e ↦ rw (if_neg _ e) (rw (if_neg _ e) t.summary)
      ]);
    }

    Tracks-mark_healthy :
        (c : HealthChecker K E) (p : K) (latency_ms : ℕ) (rs : List Bool)
        → Tracks c rs
        → Tracks (Health.mark_healthy same c p latency_ms) (ite (same p k) (true ∷ rs) rs)
    unfolding Health.mark_healthy
    Tracks-mark_healthy c p latency_ms rs t =
        Tracks-insert c p _ rs (true ∷ rs) t
          λ e. rw e (rw t.same_successes (Summary-succeeded _ latency_ms rs t.summary))

    Tracks-mark_failed :
        (c : HealthChecker K E) (p : K) (latency_ms : Option ℕ) (error : E) (rs : List Bool)
        → Tracks c rs
        → Tracks (Health.mark_failed same c p latency_ms error) (ite (same p k) (false ∷ rs) rs)
    unfolding Health.mark_failed
    Tracks-mark_failed c p latency_ms error rs t =
        Tracks-insert c p _ rs (false ∷ rs) t
          λ e. rw e (rw t.same_failures (Summary-failed _ latency_ms error rs t.summary))

    Tracks-check_server :
        (c : HealthChecker K E) (p : K) (probe : Probe E) (rs : List Bool)
        → Tracks c rs
        → Tracks (Health.check_server same c p probe) (ite (same p k) (passed probe ∷ rs) rs)
    unfolding Health.check_server
    Tracks-check_server c p (no_transport e) rs t = Tracks-mark_failed c p none e rs t
    Tracks-check_server c p (timed_out e) rs t = Tracks-mark_failed c p none e rs t
    Tracks-check_server c p (send_failed latency_ms e) rs t =
        Tracks-mark_failed c p (some latency_ms) e rs t
    Tracks-check_server c p (answered true latency_ms e) rs t =
        Tracks-mark_failed c p (some latency_ms) e rs t
    Tracks-check_server c p (answered false latency_ms e) rs t =
        Tracks-mark_healthy c p latency_ms rs t
    Tracks-check_server c p (unparsed latency_ms e) rs t =
        Tracks-mark_failed c p (some latency_ms) e rs t

    Tracks-retain_live :
        (c : HealthChecker K E) (live : List K) (rs : List Bool)
        → Tracks c rs
        → Tracks (Health.retain_live same c live) (if is_live same k live then rs else [])
    unfolding Health.retain_live
    Tracks-retain_live c live rs t = record {
      same_failures = t.same_failures;
      same_successes = t.same_successes;
      distinct = Dict.retain-IsDistinct same keep c.health_map t.distinct;
      summary = elim (Bool-cases (is_live same k live)) [
        | inl kept ↦ rw kept (elim (Option-cases (Dict.get same k c.health_map)) [
          | inl absent ↦
              rw (Dict.get-retain-none same keep k c.health_map absent) (rw absent at t.summary)
          | inr (h, e) ↦
              rw (Dict.get-retain_kept same keep k h c.health_map e kept) (rw e at t.summary)
        ])
        | inr gone ↦
            rw gone (rw dropped_entry record { status = refl; failures = refl; successes = refl })
      ];
    }
      where
        keep : K → ServerHealth E → Bool
        keep = λ p _. is_live same p live

        dropped_entry :
            is_live same k live ≡ false
            → Dict.get same k (Dict.retain same keep c.health_map) ≡ none
        dropped_entry gone = elim (Option-cases (Dict.get same k c.health_map)) [
          | inl absent ↦ Dict.get-retain-none same keep k c.health_map absent
          | inr (h, e) ↦ Dict.get-retain_dropped same keep k h c.health_map t.distinct e gone
        ]

    Tracks-run : (es : List (Event K E)) → Tracks (run same ft st es) (results same k es)
    unfolding Dict.get
    Tracks-run [] = record {
      same_failures = refl;
      same_successes = refl;
      distinct = tt;
      summary = record { status = refl; failures = refl; successes = refl };
    }
    Tracks-run (probed p probe ∷ es) =
        Tracks-check_server (run same ft st es) p probe (results same k es) (Tracks-run es)
    Tracks-run (reloaded live ∷ es) =
        Tracks-retain_live (run same ft st es) live (results same k es) (Tracks-run es)

-- After any probes of any servers and any reloads, the status of a server is the one that the
-- results of its own probes amount to, from its start or the last reload without it: healthy from
-- `success_threshold` successes in a row on, unhealthy from `failure_threshold` failures in a row
-- on, and otherwise as before. The thresholds are below 2^16.
pub get_status-run :
    {K E : Type 0} (same : Discrete K) (failure_threshold success_threshold : ℕ) (k : K)
    (es : List (Event K E))
    → failure_threshold < 2 ^ 16
    → success_threshold < 2 ^ 16
    → (Health.get_status same (run same failure_threshold success_threshold es) k
        ≡ status_of failure_threshold success_threshold (results same k es))
unfolding Health.get_status
get_status-run same ft st k es hf hs = (Tracks-run ft st hf hs same k es).summary.status
