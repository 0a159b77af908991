-- ===== src/RefreshTimers/Registered.antt =====
-- What a call of `register` adds.
use ferrous_dns.Base.{
  append_assoc, ℕ, suc, ◌+◌, ◌<◌, ◌≡◌, refl, ap, ltb, ◌==◌, List, [], ◌∷◌, ◌++◌, length, All, arith,
  Bool-cases, length-append, inl, inr, ==_iff,
}
use mathlib.Core.List.{Perm, perm_middle}
use mathlib.Core.List.Perm
use ferrous_dns.RefreshTimers.{
  ScheduledRefresh, TimerKind, due, retry, negative_expiry, Lane, RefreshSchedule, push, register,
  timers_at,
}
use ferrous_dns.RefreshTimers.Order.{IsAscending, timers_of, all_timers, IsValid}

module _ {K : Type 0} where
  abbrev pub timer : TimerKind → ℕ → K → ScheduledRefresh K
  timer kind second key = record { due_at_secs = second; key = key; kind = kind }

  timers_at-append :
      (kind : TimerKind) (s : ℕ) (keys : List K) (key : K)
      → timers_at kind s (keys ++ key ∷ []) ≡ timers_at kind s keys ++ timer kind s key ∷ []
  timers_at-append kind s [] key = refl
  timers_at-append kind s (k ∷ keys) key =
      ap (λ l. timer kind s k ∷ l) (timers_at-append kind s keys key)

  push-perm :
      (kind : TimerKind) (second : ℕ) (key : K) (lane : Lane K)
      → Perm (timers_of kind (push second key lane)) (timer kind second key ∷ timers_of kind lane)
  unfolding push
  push-perm kind second key [] = Perm.refl _
  push-perm kind second key ((s, keys) ∷ lane) = elim (Bool-cases (ltb second s)) [
    | inl e ↦ rw (e, push) (Perm.refl _)
    | inr e ↦ elim (Bool-cases (second == s)) [
      | inl f ↦
          let same : second ≡ s = (==_iff second s).0 f in
          rw
            (
              e,
              f,
              push,
              timers_at-append kind s keys key,
              append_assoc (timers_at kind s keys) (timer kind s key ∷ []) (timers_of kind lane),
            )
            (rw⁻¹ same (perm_middle (timers_at kind second keys) (timers_of kind lane)))
      | inr f ↦
          rw (e, f, push)
            (Perm.trans (Perm.append_left (timers_at kind s keys) (push-perm kind second key lane))
              (perm_middle (timers_at kind s keys) (timers_of kind lane)))
    ]
  ]

  push_above :
      (a second : ℕ) (key : K) (lane : Lane K)
      → a < second
      → All (λ (e : ℕ × List K). a < e.0) lane
      → All (λ (e : ℕ × List K). a < e.0) (push second key lane)
  unfolding push
  push_above a second key [] h k = (h, tt)
  push_above a second key ((s, keys) ∷ lane) h k = elim (Bool-cases (ltb second s)) [
    | inl e ↦ rw (e, push) (h, k)
    | inr e ↦ elim (Bool-cases (second == s)) [
      | inl f ↦ rw (e, f, push) k
      | inr f ↦ rw (e, f, push) (k.0, push_above a second key lane h k.1)
    ]
  ]

  below-All :
      (a b : ℕ) (lane : Lane K)
      → a < b
      → All (λ (e : ℕ × List K). b < e.0) lane
      → All (λ (e : ℕ × List K). a < e.0) lane
  below-All a b [] h k = tt
  below-All a b (e ∷ lane) h k = (omega (arith, h, k.0), below-All a b lane h k.1)

  push-IsAscending :
      (second : ℕ) (key : K) (lane : Lane K) → IsAscending lane → IsAscending (push second key lane)
  unfolding push
  push-IsAscending second key [] h = (tt, tt)
  push-IsAscending second key ((s, keys) ∷ lane) h = elim (Bool-cases (ltb second s)) [
    | inl e ↦
        let lt : second < s = ground arith in rw (e, push) ((lt, below-All second s lane lt h.0), h)
    | inr e ↦ elim (Bool-cases (second == s)) [
      | inl f ↦ rw (e, f, push) h
      | inr f ↦
          let lt : s < second = ground arith in
          rw (e, f, push)
            (push_above s second key lane lt h.0, push-IsAscending second key lane h.1)
    ]
  ]

  length-push :
      (kind : TimerKind) (second : ℕ) (key : K) (lane : Lane K)
      → length (timers_of kind (push second key lane)) ≡ suc (length (timers_of kind lane))
  unfolding push
  length-push kind second key [] = refl
  length-push kind second key ((s, keys) ∷ lane) = elim (Bool-cases (ltb second s)) [
    | inl e ↦ rw (e, push) refl
    | inr e ↦ elim (Bool-cases (second == s)) [
      | inl f ↦
          rw (e, f, push, timers_at-append kind s keys key)
            (omega (
              arith,
              length-append (timers_at kind s keys ++ timer kind s key ∷ []) (timers_of kind lane),
              length-append (timers_at kind s keys) (timer kind s key ∷ []),
              length-append (timers_at kind s keys) (timers_of kind lane),
            ))
      | inr f ↦
          rw (e, f, push)
            (omega (
              arith,
              length-append (timers_at kind s keys) (timers_of kind (push second key lane)),
              length-append (timers_at kind s keys) (timers_of kind lane),
              length-push kind second key lane,
            ))
    ]
  ]

  abbrev three :
      List (ScheduledRefresh K)
      → List (ScheduledRefresh K)
      → List (ScheduledRefresh K)
      → List (ScheduledRefresh K)
  three xs ys zs = xs ++ (ys ++ zs)

  length-three :
      (xs ys zs : List (ScheduledRefresh K))
      → length (three xs ys zs) ≡ length xs + (length ys + length zs)
  length-three xs ys zs = omega (arith, length-append xs (ys ++ zs), length-append ys zs)

  -- `register` adds its timer and no other, and keeps the lanes in order and `len` their count.
  pub register_lem :
      (r : RefreshSchedule K) (second : ℕ) (key : K) (kind : TimerKind)
      → IsValid r
      → Perm
          (all_timers (register r (timer kind second key)))
          (timer kind second key ∷ all_timers r)
        × IsValid (register r (timer kind second key))
  unfolding register
  register_lem r second key due (t, (y, (n, l))) =
      let ys = timers_of retry r.retries ++ timers_of negative_expiry r.negatives in
      (
        Perm.append_right ys (push-perm due second key r.timers),
        (
          push-IsAscending second key r.timers t,
          (
            y,
            (
              n,
              omega (
                arith,
                l,
                length-push due second key r.timers,
                length-append (timers_of due (push second key r.timers)) ys,
                length-append (timers_of due r.timers) ys,
              ),
            ),
          ),
        ),
      )
  register_lem r second key retry (t, (y, (n, l))) =
      let xs = timers_of due r.timers in
      let zs = timers_of negative_expiry r.negatives in
      (
        Perm.trans
            (Perm.append_left xs (Perm.append_right zs (push-perm retry second key r.retries)))
            (perm_middle xs (timers_of retry r.retries ++ zs)),
        (
          t,
          (
            push-IsAscending second key r.retries y,
            (
              n,
              omega (
                arith,
                l,
                length-push retry second key r.retries,
                length-three xs (timers_of retry (push second key r.retries)) zs,
                length-three xs (timers_of retry r.retries) zs,
              ),
            ),
          ),
        ),
      )
  register_lem r second key negative_expiry (t, (y, (n, l))) =
      let xs = timers_of due r.timers in
      let ys = timers_of retry r.retries in
      let zs = timers_of negative_expiry r.negatives in
      (
        Perm.trans
            (Perm.append_left xs (
              Perm.trans (Perm.append_left ys (push-perm negative_expiry second key r.negatives))
                (perm_middle ys zs)))
            (perm_middle xs (ys ++ zs)),
        (
          t,
          (
            y,
            (
              push-IsAscending second key r.negatives n,
              omega (
                arith,
                l,
                length-push negative_expiry second key r.negatives,
                length-three xs ys (timers_of negative_expiry (push second key r.negatives)),
                length-three xs ys zs,
              ),
            ),
          ),
        ),
      )
