-- ===== src/RefreshTimers/Left.antt =====
-- What a sweep leaves.
use ferrous_dns.Base.{
  ℕ, ◌+◌, ◌-◌, ◌<◌, ◌≡◌, refl, sym, ap, ◌∙◌, Bool, false, ltb, ◌==◌, if◌then◌else◌, List, [], ◌∷◌,
  ◌++◌, length, All, arith, Bool-cases, length-append, inl, inr, Option, none, some, Option-cases,
}
use ferrous_dns.RefreshTimers.{
  ScheduledRefresh, TimerKind, due, retry, negative_expiry, Lane, RefreshSchedule, timers_at,
  retain, put_back, retain_lane, Swept, SweepFrom, sweep_lane, sweep_retries, sweep_timers,
  sweep_negatives, sweep, is_start, is_due, is_negative, resume_in, start,
}
use ferrous_dns.RefreshTimers.Order.{IsAscending, timers_of, all_timers, IsValid}
use ferrous_dns.RefreshTimers.Sweep.{
  accepted, accepted-append, timers_of-put_back, Loses, retain_lane-Loses, sweep_lane-Loses,
}

module _ {K : Type 0} where
  abbrev Above : ℕ → Lane K → Type 0
  Above a lane = All (λ (e : ℕ × List K). a < e.0) lane

  put_back-Above :
      (a s : ℕ) (keys : List K) (lane : Lane K)
      → a < s
      → Above a lane
      → Above a (put_back s keys lane)
  put_back-Above a s [] lane h k = k
  put_back-Above a s (key ∷ keys) lane h k = (h, k)

  put_back-IsAscending :
      (s : ℕ) (keys : List K) (lane : Lane K)
      → Above s lane
      → IsAscending lane
      → IsAscending (put_back s keys lane)
  put_back-IsAscending s [] lane h k = k
  put_back-IsAscending s (key ∷ keys) lane h k = (h, k)

  retain_lane-Above :
      (a : ℕ) (keep : K → Bool) (lane : Lane K) → Above a lane → Above a (retain_lane keep lane).0
  unfolding retain_lane
  retain_lane-Above a keep [] h = tt
  retain_lane-Above a keep ((s, keys) ∷ lane) h =
      put_back-Above a s (retain keep keys) _ h.0 (retain_lane-Above a keep lane h.1)

  retain_lane-IsAscending :
      (keep : K → Bool) (lane : Lane K) → IsAscending lane → IsAscending (retain_lane keep lane).0
  unfolding retain_lane
  retain_lane-IsAscending keep [] h = tt
  retain_lane-IsAscending keep ((s, keys) ∷ lane) h =
      put_back-IsAscending s (retain keep keys) _ (retain_lane-Above s keep lane h.0)
        (retain_lane-IsAscending keep lane h.1)

  sweep_lane-Above :
      (a from : ℕ) (keep : K → Bool) (budget : ℕ) (lane : Lane K)
      → Above a lane
      → Above a (sweep_lane from keep budget lane).lane
  unfolding sweep_lane
  sweep_lane-Above a from keep budget [] h = tt
  sweep_lane-Above a from keep budget ((s, keys) ∷ lane) h = elim (Bool-cases (ltb s from)) [
    | inl e ↦ rw (e, sweep_lane) (h.0, sweep_lane-Above a from keep budget lane h.1)
    | inr e ↦ elim (Bool-cases (budget == 0)) [
      | inl f ↦ rw (e, f, sweep_lane) h
      | inr f ↦
          rw (e, f, sweep_lane)
            (put_back-Above a s (retain keep keys) _ h.0
              (sweep_lane-Above a from keep (budget - length keys) lane h.1))
    ]
  ]

  sweep_lane-IsAscending :
      (from : ℕ) (keep : K → Bool) (budget : ℕ) (lane : Lane K)
      → IsAscending lane
      → IsAscending (sweep_lane from keep budget lane).lane
  unfolding sweep_lane
  sweep_lane-IsAscending from keep budget [] h = tt
  sweep_lane-IsAscending from keep budget ((s, keys) ∷ lane) h = elim (Bool-cases (ltb s from)) [
    | inl e ↦
        rw (e, sweep_lane)
          (
            sweep_lane-Above s from keep budget lane h.0,
            sweep_lane-IsAscending from keep budget lane h.1,
          )
    | inr e ↦ elim (Bool-cases (budget == 0)) [
      | inl f ↦ rw (e, f, sweep_lane) h
      | inr f ↦
          rw (e, f, sweep_lane)
            (put_back-IsAscending s (retain keep keys) _
              (sweep_lane-Above s from keep (budget - length keys) lane h.0)
              (sweep_lane-IsAscending from keep (budget - length keys) lane h.1))
    ]
  ]

module _ {K : Type 0} (keep : K → TimerKind → Bool) where
  timers_at-accepted :
      (kind : TimerKind) (s : ℕ) (keys : List K)
      → timers_at kind s (retain (λ k. keep k kind) keys) ≡ accepted keep (timers_at kind s keys)
  timers_at-accepted kind s [] = refl
  timers_at-accepted kind s (k ∷ keys) = elim (Bool-cases (keep k kind)) [
    | inl e ↦ rw e (
        ap (λ l. record { due_at_secs = s; key = k; kind = kind } ∷ l)
          (timers_at-accepted kind s keys))
    | inr e ↦ rw e (timers_at-accepted kind s keys)
  ]

  retain_lane-accepted :
      (kind : TimerKind) (lane : Lane K)
      → timers_of kind (retain_lane (λ k. keep k kind) lane).0 ≡ accepted keep (timers_of kind lane)
  unfolding retain_lane
  retain_lane-accepted kind [] = refl
  retain_lane-accepted kind ((s, keys) ∷ lane) =
      rw
        (
          timers_of-put_back keep kind s (retain (λ k. keep k kind) keys)
              (retain_lane (λ k. keep k kind) lane).0,
          accepted-append keep (timers_at kind s keys) (timers_of kind lane),
          timers_at-accepted kind s keys,
          retain_lane-accepted kind lane,
        )
        refl

  sweep_lane-accepted :
      (kind : TimerKind) (budget : ℕ) (lane : Lane K)
      → (sweep_lane 0 (λ k. keep k kind) budget lane).resume ≡ none
      → timers_of kind (sweep_lane 0 (λ k. keep k kind) budget lane).lane
        ≡ accepted keep (timers_of kind lane)
  unfolding sweep_lane
  sweep_lane-accepted kind budget [] h = refl
  sweep_lane-accepted kind budget ((s, keys) ∷ lane) h =
      let e : ltb s 0 ≡ false = ground arith in
      elim (Bool-cases (budget == 0)) [
        | inl f ↦ let p : some s ≡ none = rw (e, f, sweep_lane) at h in absurd (cc)
        | inr f ↦
            rw
              (
                e,
                f,
                sweep_lane,
                timers_of-put_back keep kind s (retain (λ k. keep k kind) keys)
                    (sweep_lane 0 (λ k. keep k kind) (budget - length keys) lane).lane,
                accepted-append keep (timers_at kind s keys) (timers_of kind lane),
                timers_at-accepted kind s keys,
                sweep_lane-accepted kind (budget - length keys) lane (rw (e, f, sweep_lane) at h),
              )
              refl
      ]

  accepted_three :
      (xs ys zs : List (ScheduledRefresh K))
      → accepted keep (xs ++ (ys ++ zs))
        ≡ accepted keep xs ++ (accepted keep ys ++ accepted keep zs)
  accepted_three xs ys zs = rw (accepted-append keep xs (ys ++ zs), accepted-append keep ys zs) refl

  -- What the three lanes lose together.
  Loses-three :
      (t t' y y' n n' : Lane K) (a b c : ℕ)
      → Loses keep due t t' a
      → Loses keep retry y y' b
      → Loses keep negative_expiry n n' c
      → let before = timers_of due t ++ (timers_of retry y ++ timers_of negative_expiry n) in
        let after = timers_of due t' ++ (timers_of retry y' ++ timers_of negative_expiry n') in
        (accepted keep after ≡ accepted keep before)
        × (length after + (b + (a + c)) ≡ length before)
  Loses-three t t' y y' n n' a b c (ht, lt) (hy, ly) (hn, ln) = (
    rw
        (
          accepted_three (timers_of due t') (timers_of retry y') (timers_of negative_expiry n'),
          accepted_three (timers_of due t) (timers_of retry y) (timers_of negative_expiry n),
          ht,
          hy,
          hn,
        )
        refl,
    omega (
      arith,
      lt,
      ly,
      ln,
      length-append (timers_of due t') (timers_of retry y' ++ timers_of negative_expiry n'),
      length-append (timers_of retry y') (timers_of negative_expiry n'),
      length-append (timers_of due t) (timers_of retry y ++ timers_of negative_expiry n),
      length-append (timers_of retry y) (timers_of negative_expiry n),
    ),
  )

  -- A lane loses no accepted timer and stays in order.
  abbrev Keeps : TimerKind → Lane K → Lane K → ℕ → Type 0
  Keeps kind before after removed = Loses keep kind before after removed × IsAscending after

  sweep_retries-Keeps :
      (from : SweepFrom) (lane : Lane K)
      → IsAscending lane
      → Keeps retry lane
          (sweep_retries from (λ k. keep k retry) lane).0
          (sweep_retries from (λ k. keep k retry) lane).1
  unfolding sweep_retries
  sweep_retries-Keeps from lane h = elim (Bool-cases (is_start from)) [
    | inl e ↦
        rw (e, sweep_retries)
          (retain_lane-Loses keep retry lane, retain_lane-IsAscending (λ k. keep k retry) lane h)
    | inr e ↦ rw (e, sweep_retries) ((refl, omega arith), h)
  ]

  sweep_timers-Keeps :
      (from : SweepFrom) (budget : ℕ) (lane : Lane K)
      → IsAscending lane
      → Keeps due lane
          (sweep_timers from (λ k. keep k due) budget lane).lane
          (sweep_timers from (λ k. keep k due) budget lane).removed
  unfolding sweep_timers
  sweep_timers-Keeps from budget lane h = elim (Bool-cases (is_due from.kind)) [
    | inl e ↦
        rw (e, sweep_timers)
          (
            sweep_lane-Loses keep due from.second budget lane,
            sweep_lane-IsAscending from.second (λ k. keep k due) budget lane h,
          )
    | inr e ↦ rw (e, sweep_timers) ((refl, omega arith), h)
  ]

  sweep_negatives-Keeps :
      (from : SweepFrom) (first : Swept K) (lane : Lane K)
      → IsAscending lane
      → Keeps negative_expiry lane
          (sweep_negatives from (λ k. keep k negative_expiry) first lane).lane
          (sweep_negatives from (λ k. keep k negative_expiry) first lane).removed
  unfolding sweep_negatives
  sweep_negatives-Keeps from first lane h = elim (Option-cases first.resume) [
    | inl e ↦
        let begin = if is_negative from.kind then from.second else 0 in
        rw (e, sweep_negatives)
          (
            sweep_lane-Loses keep negative_expiry begin first.budget lane,
            sweep_lane-IsAscending begin (λ k. keep k negative_expiry) first.budget lane h,
          )
    | inr (s, e) ↦ rw (e, sweep_negatives) ((refl, omega arith), h)
  ]

  -- A step of a sweep, from wherever it resumes and whatever its budget, drops no timer that `keep`
  -- accepts and changes the order of none of those; and the schedule's lanes stay in order and its
  -- `len` the count of its timers.
  pub sweep-accepted :
      (r : RefreshSchedule K) (from : SweepFrom) (budget : ℕ)
      → IsValid r
      → (accepted keep (all_timers (sweep r from budget keep).0) ≡ accepted keep (all_timers r))
        × IsValid (sweep r from budget keep).0
  unfolding sweep
  sweep-accepted r from budget (t, (y, (n, l))) =
      let first = sweep_timers from (λ k. keep k due) budget r.timers in
      let retries = sweep_retries from (λ k. keep k retry) r.retries in
      let second = sweep_negatives from (λ k. keep k negative_expiry) first r.negatives in
      let (lt, at) = sweep_timers-Keeps from budget r.timers t in
      let (ly, ay) = sweep_retries-Keeps from r.retries y in
      let (ln, an) = sweep_negatives-Keeps from first r.negatives n in
      let (same, counted) =
        Loses-three r.timers first.lane r.retries retries.0 r.negatives second.lane first.removed
          retries.1 second.removed lt ly ln in
      (same, (at, (ay, (an, omega (arith, counted, l)))))

  -- When the first step of a sweep gets through all timers, it leaves just those that `keep`
  -- accepts, in their order.
  pub sweep_complete :
      (r : RefreshSchedule K) (budget : ℕ)
      → (sweep r start budget keep).1 ≡ none
      → all_timers (sweep r start budget keep).0 ≡ accepted keep (all_timers r)
  unfolding sweep sweep_retries sweep_timers sweep_negatives
  sweep_complete r budget h =
      let first = sweep_lane 0 (λ k. keep k due) budget r.timers in
      let rejects : K → Bool = λ k. keep k negative_expiry in
      let left = sweep_negatives start rejects first r.negatives in
      elim (Option-cases first.resume) [
        | inr (s, e) ↦
            let p : some (record { kind = due; second = s }) ≡ none = rw (e, sweep) at h in
            absurd (cc)
        | inl e ↦
            let h' : resume_in negative_expiry left.resume ≡ none = rw (e, sweep) at h in
            let swept : left ≡ sweep_lane 0 rejects first.budget r.negatives =
              rw (e, sweep_negatives) refl in
            elim (Option-cases left.resume) [
              | inr (s, f) ↦
                  let p : Path (Option SweepFrom)
                      (some (record { kind = negative_expiry; second = s })) none =
                    rw f at h' in
                  absurd (cc)
              | inl f ↦
                  rw
                    (
                      sweep_lane-accepted due budget r.timers e,
                      retain_lane-accepted retry r.retries,
                      ap (λ (o : Swept K). o.lane) swept,
                      sweep_lane-accepted negative_expiry first.budget r.negatives
                          (ap (λ (o : Swept K). o.resume) (sym swept) ∙ f),
                      accepted_three (timers_of due r.timers) (timers_of retry r.retries)
                          (timers_of negative_expiry r.negatives),
                    )
                    refl
            ]
      ]
