-- ===== src/CacheRecord/Timer.antt =====
-- The refresh timer of record.rs: any number of threads swap it, in any order.
use ferrous_dns.Base.{
  ℕ, ◌+◌, ◌≤◌, ◌<◌, ◌≡◌, ap, Bool, true, false, ◌==◌, if◌then◌else◌, List, [], ◌∷◌, All, arith,
}
use ferrous_dns.CacheRecord.{
  CachedRecord, timer_lapsed, timer_parked, timer_claimed, swap_refresh_timer, set_refresh_timer,
  lapse_refresh_timer, try_claim_refresh_timer, try_start_claimed_refresh, park_claimed_refresh,
  try_reclaim_parked_refresh, try_unpark_refresh, try_rearm_lapsed_refresh,
}

-- A call on the timer by some thread.
pub data Step : Type 0 where
  sets unparks rearms claims : ℕ → Step
  lapses starts parks reclaims : Step

-- Whether a call swapped the timer: a set and a lapse always do.
abbrev pub attempt : {D S : Type 0} → CachedRecord D S → Step → CachedRecord D S × Bool
attempt r (sets d) = (set_refresh_timer r d, true)
attempt r lapses = (lapse_refresh_timer r, true)
attempt r (claims d) = try_claim_refresh_timer r d
attempt r starts = try_start_claimed_refresh r
attempt r parks = (park_claimed_refresh r, true)
attempt r reclaims = try_reclaim_parked_refresh r
attempt r (unparks d) = try_unpark_refresh r d
attempt r (rearms d) = try_rearm_lapsed_refresh r d

-- The record after the calls, the latest first.
abbrev pub run : {D S : Type 0} → CachedRecord D S → List Step → CachedRecord D S
run r [] = r
run r (s ∷ ss) = (attempt (run r ss) s).0

abbrev one_if : Bool → ℕ
one_if true = 1
one_if false = 0

-- A call that took the timer for a worker: a claim, or a reclaim of a parked one.
abbrev takes : Step → Bool → ℕ
takes (claims d) won = one_if won
takes reclaims won = one_if won
takes (sets d) won = 0
takes lapses won = 0
takes starts won = 0
takes parks won = 0
takes (unparks d) won = 0
takes (rearms d) won = 0

abbrev begins : Step → Bool → ℕ
begins starts won = one_if won
begins (claims d) won = 0
begins reclaims won = 0
begins (sets d) won = 0
begins lapses won = 0
begins parks won = 0
begins (unparks d) won = 0
begins (rearms d) won = 0

abbrev pub taken : {D S : Type 0} → CachedRecord D S → List Step → ℕ
taken r [] = 0
taken r (s ∷ ss) = takes s (attempt (run r ss) s).1 + taken r ss

abbrev pub begun : {D S : Type 0} → CachedRecord D S → List Step → ℕ
begun r [] = 0
begun r (s ∷ ss) = begins s (attempt (run r ss) s).1 + begun r ss

-- The second that a call arms is none of the three states.
abbrev pub IsDue : ℕ → Type 0
IsDue d = (timer_lapsed < d) × (d < timer_parked)

abbrev pub ArmsDue : Step → Type 0
ArmsDue (sets d) = IsDue d
ArmsDue (unparks d) = IsDue d
ArmsDue (rearms d) = IsDue d
ArmsDue (claims d) = IsDue d
ArmsDue lapses = Unit
ArmsDue starts = Unit
ArmsDue parks = Unit
ArmsDue reclaims = Unit

module _ {D S : Type 0} where
  is_claimed : CachedRecord D S → ℕ
  is_claimed r = one_if (r.counters.refresh_timer == timer_claimed)

  attempt-claimed :
      (r : CachedRecord D S) (s : Step)
      → ArmsDue s
      → (begins s (attempt r s).1 + is_claimed (attempt r s).0
          ≤ takes s (attempt r s).1 + is_claimed r)
  unfolding is_claimed set_refresh_timer lapse_refresh_timer try_claim_refresh_timer
      try_start_claimed_refresh park_claimed_refresh try_reclaim_parked_refresh try_unpark_refresh
      try_rearm_lapsed_refresh swap_refresh_timer
  attempt-claimed r (sets d) h = ground arith
  attempt-claimed r lapses h = ground arith
  attempt-claimed r (claims d) h = ground arith
  attempt-claimed r starts h = ground arith
  attempt-claimed r parks h = ground arith
  attempt-claimed r reclaims h = ground arith
  attempt-claimed r (unparks d) h = ground arith
  attempt-claimed r (rearms d) h = ground arith

  run-claimed :
      (r : CachedRecord D S) (ss : List Step)
      → All ArmsDue ss
      → begun r ss + is_claimed (run r ss) ≤ taken r ss + is_claimed r
  run-claimed r [] h = omega arith
  run-claimed r (s ∷ ss) h = omega (arith, attempt-claimed (run r ss) s h.0, run-claimed r ss h.1)

  -- However the calls of the threads interleave, no more renewals start than timers were taken
  -- from a record whose timer was not taken at first, where every second that is armed is a time
  -- and not one of the three states.
  pub begun-le_taken :
      (r : CachedRecord D S) (ss : List Step)
      → (r.counters.refresh_timer == timer_claimed) ≡ false
      → All ArmsDue ss
      → begun r ss ≤ taken r ss
  unfolding is_claimed
  begun-le_taken r ss free h =
      let none_taken : one_if (r.counters.refresh_timer == timer_claimed) ≡ 0 = ap one_if free in
      omega (arith, run-claimed r ss h, none_taken)

-- A call that armed the timer for the second `d`, and one that claimed it.
abbrev arms_at : ℕ → Step → Bool → ℕ
arms_at d (sets e) won = one_if (e == d)
arms_at d (unparks e) won = if e == d then one_if won else 0
arms_at d (rearms e) won = if e == d then one_if won else 0
arms_at d (claims e) won = 0
arms_at d lapses won = 0
arms_at d starts won = 0
arms_at d parks won = 0
arms_at d reclaims won = 0

abbrev claims_at : ℕ → Step → Bool → ℕ
claims_at d (claims e) won = if e == d then one_if won else 0
claims_at d (sets e) won = 0
claims_at d (unparks e) won = 0
claims_at d (rearms e) won = 0
claims_at d lapses won = 0
claims_at d starts won = 0
claims_at d parks won = 0
claims_at d reclaims won = 0

abbrev pub armed : {D S : Type 0} → ℕ → CachedRecord D S → List Step → ℕ
armed d r [] = 0
armed d r (s ∷ ss) = arms_at d s (attempt (run r ss) s).1 + armed d r ss

abbrev pub claimed : {D S : Type 0} → ℕ → CachedRecord D S → List Step → ℕ
claimed d r [] = 0
claimed d r (s ∷ ss) = claims_at d s (attempt (run r ss) s).1 + claimed d r ss

module _ {D S : Type 0} (d : ℕ) (due : IsDue d) where
  is_pending : CachedRecord D S → ℕ
  is_pending r = one_if (r.counters.refresh_timer == d)

  attempt-pending :
      (r : CachedRecord D S) (s : Step)
      → (claims_at d s (attempt r s).1 + is_pending (attempt r s).0
          ≤ arms_at d s (attempt r s).1 + is_pending r)
  unfolding is_pending set_refresh_timer lapse_refresh_timer try_claim_refresh_timer
      try_start_claimed_refresh park_claimed_refresh try_reclaim_parked_refresh try_unpark_refresh
      try_rearm_lapsed_refresh swap_refresh_timer
  attempt-pending r (sets e) = ground (arith, due.0, due.1)
  attempt-pending r lapses = ground (arith, due.0, due.1)
  attempt-pending r (claims e) = ground (arith, due.0, due.1)
  attempt-pending r starts = ground (arith, due.0, due.1)
  attempt-pending r parks = ground (arith, due.0, due.1)
  attempt-pending r reclaims = ground (arith, due.0, due.1)
  attempt-pending r (unparks e) = ground (arith, due.0, due.1)
  attempt-pending r (rearms e) = ground (arith, due.0, due.1)

  run-pending :
      (r : CachedRecord D S) (ss : List Step)
      → claimed d r ss + is_pending (run r ss) ≤ armed d r ss + is_pending r
  run-pending r [] = omega arith
  run-pending r (s ∷ ss) = omega (arith, attempt-pending (run r ss) s, run-pending r ss)

  -- However the calls of the threads interleave, the timer of one second, none of the three states,
  -- is claimed at most as often as it was armed for that second, from a record whose timer is
  -- another at first.
  pub claimed-le_armed :
      (r : CachedRecord D S) (ss : List Step)
      → (r.counters.refresh_timer == d) ≡ false
      → claimed d r ss ≤ armed d r ss
  unfolding is_pending
  claimed-le_armed r ss other =
      let none_pending : one_if (r.counters.refresh_timer == d) ≡ 0 = ap one_if other in
      omega (arith, run-pending r ss, none_pending)
