-- ===== src/Health/Rotation.antt =====
-- When health.rs takes a server out of rotation, and when it puts it back.
use ferrous_dns.Base.{
  ℕ, zero, suc, ◌+◌, ◌^◌, ◌≤◌, ◌<◌, ◌≡◌, ◌∙◌, refl, sym, ap, Bool, true, false, leb, Bool-cases,
  Option-cases, inl, inr, List, [], ◌∷◌, ◌++◌, arith,
}
use ferrous_dns.Base.Dict
use ferrous_dns.Health
use ferrous_dns.Health.{
  ServerStatus, healthy, unhealthy, unknown, HealthChecker, in_rotation, or_default,
}
use ferrous_dns.Health.History.{Event, run, results, streak, status_of, get_status-run}

abbrev pub times : ℕ → Bool → List Bool
times zero b = []
times (suc n) b = b ∷ times n b

is_healthy_lem :
    {K E : Type 0} (same : Discrete K) (c : HealthChecker K E) (k : K)
    → Health.is_healthy same c k ≡ in_rotation (Health.get_status same c k)
unfolding Health.is_healthy Health.get_status
is_healthy_lem same c k = elim (Option-cases (Dict.get same k c.health_map)) [
  | inl absent ↦ rw (absent, Health.is_healthy, Health.get_status) refl
  | inr (h, e) ↦ rw (e, Health.is_healthy, Health.get_status) refl
]

-- A streak is a prefix.
streak-times :
    (n : ℕ) (b : Bool) (rs : List Bool)
    → n ≤ streak b rs
    → (earlier : List Bool) × (rs ≡ times n b ++ earlier)
streak-times zero b rs h = (rs, refl)
streak-times (suc n) b [] h = absurd (omega arith)
streak-times (suc n) true (true ∷ rs) h =
    let (earlier, e) = streak-times n true rs (omega arith) in (earlier, ap (λ t. true ∷ t) e)
streak-times (suc n) true (false ∷ rs) h = absurd (omega arith)
streak-times (suc n) false (true ∷ rs) h = absurd (omega arith)
streak-times (suc n) false (false ∷ rs) h =
    let (earlier, e) = streak-times n false rs (omega arith) in (earlier, ap (λ t. false ∷ t) e)

-- The results hold a run of `n` failures in a row.
abbrev pub FailuresInARow : ℕ → List Bool → Type 0
FailuresInARow n rs =
    (later : List Bool) × (earlier : List Bool) × (rs ≡ later ++ (times n false ++ earlier))

FailuresInARow-more :
    (n : ℕ) (r : Bool) (rs : List Bool) → FailuresInARow n rs → FailuresInARow n (r ∷ rs)
FailuresInARow-more n r rs (later, earlier, e) = (r ∷ later, earlier, ap (λ t. r ∷ t) e)

unhealthy-FailuresInARow :
    (ft st : ℕ) (rs : List Bool) → in_rotation (status_of ft st rs) ≡ false → FailuresInARow ft rs
unhealthy-FailuresInARow ft st [] h = cc
unhealthy-FailuresInARow ft st (true ∷ rs) h = elim (Bool-cases (leb st (streak true rs + 1))) [
  | inl back ↦ cc
  | inr no_change ↦
      FailuresInARow-more ft true rs (unhealthy-FailuresInARow ft st rs (rw no_change at h))
]
unhealthy-FailuresInARow ft st (false ∷ rs) h = elim (Bool-cases (leb ft (streak false rs + 1))) [
  | inl reached ↦
      let (earlier, e) = streak-times ft false (false ∷ rs) (ground arith) in ([], earlier, e)
  | inr no_change ↦
      FailuresInARow-more ft false rs (unhealthy-FailuresInARow ft st rs (rw no_change at h))
]

-- A server is out of rotation only if `failure_threshold` of its own probes in a row failed at some
-- time since it joined, for thresholds below 2^16.
pub leaves-FailuresInARow :
    {K E : Type 0} (same : Discrete K) (failure_threshold success_threshold : ℕ) (k : K)
    (es : List (Event K E))
    → failure_threshold < 2 ^ 16
    → success_threshold < 2 ^ 16
    → Health.is_healthy same (run same failure_threshold success_threshold es) k ≡ false
    → FailuresInARow failure_threshold (results same k es)
leaves-FailuresInARow same ft st k es hf hs h = unhealthy-FailuresInARow ft st (results same k es) (
    sym (ap in_rotation (get_status-run same ft st k es hf hs))
    ∙ sym (is_healthy_lem same (run same ft st es) k)
    ∙ h)

status_of-reached :
    (ft st : ℕ) (rs : List Bool) → 0 < ft → ft ≤ streak false rs → status_of ft st rs ≡ unhealthy
status_of-reached ft st [] pos h = absurd (omega arith)
status_of-reached ft st (true ∷ rs) pos h = absurd (omega arith)
status_of-reached ft st (false ∷ rs) pos h =
    let reached : leb ft (streak false rs + 1) ≡ true = ground arith in rw reached refl

status_of-recovered :
    (ft st : ℕ) (rs : List Bool) → 0 < st → st ≤ streak true rs → status_of ft st rs ≡ healthy
status_of-recovered ft st [] pos h = absurd (omega arith)
status_of-recovered ft st (false ∷ rs) pos h = absurd (omega arith)
status_of-recovered ft st (true ∷ rs) pos h =
    let reached : leb st (streak true rs + 1) ≡ true = ground arith in rw reached refl

-- A server is out of rotation once the latest `failure_threshold` of its own probes failed, for
-- thresholds below 2^16 of which the first is not zero.
pub is_healthy-failed :
    {K E : Type 0} (same : Discrete K) (failure_threshold success_threshold : ℕ) (k : K)
    (es : List (Event K E))
    → 0 < failure_threshold
    → failure_threshold < 2 ^ 16
    → success_threshold < 2 ^ 16
    → failure_threshold ≤ streak false (results same k es)
    → Health.is_healthy same (run same failure_threshold success_threshold es) k ≡ false
is_healthy-failed same ft st k es pos hf hs h =
    is_healthy_lem same (run same ft st es) k
    ∙ ap in_rotation (get_status-run same ft st k es hf hs ∙ status_of-reached ft st _ pos h)

-- A server is in rotation once the latest `success_threshold` of its own probes succeeded, for
-- thresholds below 2^16 of which the second is not zero.
pub is_healthy-recovered :
    {K E : Type 0} (same : Discrete K) (failure_threshold success_threshold : ℕ) (k : K)
    (es : List (Event K E))
    → failure_threshold < 2 ^ 16
    → 0 < success_threshold
    → success_threshold < 2 ^ 16
    → success_threshold ≤ streak true (results same k es)
    → Health.is_healthy same (run same failure_threshold success_threshold es) k ≡ true
is_healthy-recovered same ft st k es hf pos hs h =
    is_healthy_lem same (run same ft st es) k
    ∙ ap in_rotation (get_status-run same ft st k es hf hs ∙ status_of-recovered ft st _ pos h)
