-- ===== src/RefreshTimers/Sweep.antt =====
-- What a sweep drops.
use ferrous_dns.Base.{
  ℕ, suc, ◌+◌, ◌-◌, ◌≤◌, ◌≡◌, refl, ap, Bool, ltb, ◌==◌, if◌then◌else◌, List, [], ◌∷◌, ◌++◌, length,
  arith, Bool-cases, length-append, inl, inr,
}
use ferrous_dns.RefreshTimers.{
  ScheduledRefresh, TimerKind, Lane, timers_at, retain, put_back, retain_lane, sweep_lane,
}
use ferrous_dns.RefreshTimers.Order.{timers_of}

module _ {K : Type 0} (keep : K → TimerKind → Bool) where
  -- The timers that `keep` accepts.
  abbrev pub accepted : List (ScheduledRefresh K) → List (ScheduledRefresh K)
  accepted [] = []
  accepted (t ∷ ts) = if keep t.key t.kind then t ∷ accepted ts else accepted ts

  pub accepted-append :
      (xs ys : List (ScheduledRefresh K)) → accepted (xs ++ ys) ≡ accepted xs ++ accepted ys
  accepted-append [] ys = refl
  accepted-append (x ∷ xs) ys = elim (Bool-cases (keep x.key x.kind)) [
    | inl e ↦ rw e (ap (λ l. x ∷ l) (accepted-append xs ys))
    | inr e ↦ rw e (accepted-append xs ys)
  ]

  pub accepted-retain :
      (kind : TimerKind) (s : ℕ) (keys : List K)
      → accepted (timers_at kind s (retain (λ k. keep k kind) keys))
        ≡ accepted (timers_at kind s keys)
  accepted-retain kind s [] = refl
  accepted-retain kind s (k ∷ keys) = elim (Bool-cases (keep k kind)) [
    | inl e ↦
        rw (e, e)
          (ap (λ l. record { due_at_secs = s; key = k; kind = kind } ∷ l)
            (accepted-retain kind s keys))
    | inr e ↦ rw e (accepted-retain kind s keys)
  ]

  length-retain :
      (kind : TimerKind) (keys : List K) → length (retain (λ k. keep k kind) keys) ≤ length keys
  length-retain kind [] = omega arith
  length-retain kind (k ∷ keys) = elim (Bool-cases (keep k kind)) [
    | inl e ↦ rw e (omega (arith, length-retain kind keys))
    | inr e ↦ rw e (omega (arith, length-retain kind keys))
  ]

  length-timers_at :
      (kind : TimerKind) (s : ℕ) (keys : List K) → length (timers_at kind s keys) ≡ length keys
  length-timers_at kind s [] = refl
  length-timers_at kind s (k ∷ keys) = ap suc (length-timers_at kind s keys)

  pub timers_of-put_back :
      (kind : TimerKind) (s : ℕ) (keys : List K) (lane : Lane K)
      → timers_of kind (put_back s keys lane) ≡ timers_at kind s keys ++ timers_of kind lane
  timers_of-put_back kind s [] lane = refl
  timers_of-put_back kind s (k ∷ keys) lane = refl

  -- What a lane loses: no timer that is accepted, and as many as are counted.
  abbrev pub Loses : TimerKind → Lane K → Lane K → ℕ → Type 0
  Loses kind before after removed =
      (accepted (timers_of kind after) ≡ accepted (timers_of kind before))
      × (length (timers_of kind after) + removed ≡ length (timers_of kind before))

  Loses-entry :
      (kind : TimerKind) (s : ℕ) (keys : List K) (before after : Lane K) (removed : ℕ)
      → Loses kind before after removed
      → Loses kind
          ((s, keys) ∷ before)
          (put_back s (retain (λ k. keep k kind) keys) after)
          ((length keys - length (retain (λ k. keep k kind) keys)) + removed)
  Loses-entry kind s keys before after removed (h, k) =
      let kept = retain (λ k. keep k kind) keys in
      (
        rw
            (
              timers_of-put_back kind s kept after,
              accepted-append (timers_at kind s kept) (timers_of kind after),
              accepted-append (timers_at kind s keys) (timers_of kind before),
              accepted-retain kind s keys,
              h,
            )
            refl,
        rw (timers_of-put_back kind s kept after) (
            omega (
              arith,
              k,
              length-append (timers_at kind s kept) (timers_of kind after),
              length-append (timers_at kind s keys) (timers_of kind before),
              length-timers_at kind s kept,
              length-timers_at kind s keys,
              length-retain kind keys,
            )),
      )

  pub retain_lane-Loses :
      (kind : TimerKind) (lane : Lane K)
      → Loses kind lane
          (retain_lane (λ k. keep k kind) lane).0
          (retain_lane (λ k. keep k kind) lane).1
  unfolding retain_lane
  retain_lane-Loses kind [] = (refl, refl)
  retain_lane-Loses kind ((s, keys) ∷ lane) =
      Loses-entry kind s keys lane _ _ (retain_lane-Loses kind lane)

  Loses-kept :
      (kind : TimerKind) (s : ℕ) (keys : List K) (before after : Lane K) (removed : ℕ)
      → Loses kind before after removed
      → Loses kind ((s, keys) ∷ before) ((s, keys) ∷ after) removed
  Loses-kept kind s keys before after removed (h, k) = (
    rw
        (
          accepted-append (timers_at kind s keys) (timers_of kind after),
          accepted-append (timers_at kind s keys) (timers_of kind before),
          h,
        )
        refl,
    omega (
      arith,
      k,
      length-append (timers_at kind s keys) (timers_of kind after),
      length-append (timers_at kind s keys) (timers_of kind before),
    ),
  )

  pub sweep_lane-Loses :
      (kind : TimerKind) (from budget : ℕ) (lane : Lane K)
      → Loses kind lane
          (sweep_lane from (λ k. keep k kind) budget lane).lane
          (sweep_lane from (λ k. keep k kind) budget lane).removed
  unfolding sweep_lane
  sweep_lane-Loses kind from budget [] = (refl, refl)
  sweep_lane-Loses kind from budget ((s, keys) ∷ lane) = elim (Bool-cases (ltb s from)) [
    | inl e ↦
        let out = sweep_lane from (λ k. keep k kind) budget lane in
        rw (e, sweep_lane)
          (Loses-kept kind s keys lane out.lane out.removed
            (sweep_lane-Loses kind from budget lane))
    | inr e ↦ elim (Bool-cases (budget == 0)) [
      | inl f ↦ rw (e, f, sweep_lane) (refl, omega arith)
      | inr f ↦
          rw (e, f, sweep_lane)
            (let out = sweep_lane from (λ k. keep k kind) (budget - length keys) lane in
              Loses-entry kind s keys lane out.lane out.removed
                (sweep_lane-Loses kind from (budget - length keys) lane))
    ]
  ]
