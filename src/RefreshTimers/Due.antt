-- ===== src/RefreshTimers/Due.antt =====
-- What a call of `take_due` takes and leaves.
use ferrous_dns.Base.{
  append_assoc, All-append, ℕ, ◌≤◌, ◌<◌, ◌≡◌, refl, sym, ap, ◌∙◌, ltb, List, [], ◌∷◌, ◌++◌, length,
  All, arith, Bool-cases, length-append, inl, inr,
}
use mathlib.Core.List.{Perm, perm_append_comm}
use mathlib.Core.List.Perm
use ferrous_dns.RefreshTimers.{
  ScheduledRefresh, TimerKind, due, retry, negative_expiry, Lane, RefreshSchedule, timers_at,
  pop_due, take_due,
}
use ferrous_dns.RefreshTimers.Order.{
  IsAscending, timers_of, all_timers, IsValid, IsSorted, sort_by_due-perm, sort_by_due-All,
  sort_by_due-IsSorted, length-sort_by_due,
}

module _ {A : Type 0} where
  -- Two pairs of lists, by their first parts and by their second parts.
  interleave-perm : (a b c d : List A) → Perm ((a ++ b) ++ (c ++ d)) ((a ++ c) ++ (b ++ d))
  interleave-perm a b c d =
      rw (append_assoc a b (c ++ d), append_assoc a c (b ++ d))
        (Perm.append_left a (
          rw⁻¹ (append_assoc b c d, append_assoc c b d)
            (Perm.append_right d (perm_append_comm b c))))

module _ {K : Type 0} where
  abbrev IsDue : ℕ → ScheduledRefresh K → Type 0
  IsDue now t = t.due_at_secs ≤ now

  abbrev IsLater : ℕ → ScheduledRefresh K → Type 0
  IsLater now t = now < t.due_at_secs

  timers_at-All :
      (P : ScheduledRefresh K → Type 0) (kind : TimerKind) (s : ℕ) (keys : List K)
      → ((k : K) → P (record { due_at_secs = s; key = k; kind = kind }))
      → All P (timers_at kind s keys)
  timers_at-All P kind s [] h = tt
  timers_at-All P kind s (k ∷ keys) h = (h k, timers_at-All P kind s keys h)

  IsLater-All :
      (kind : TimerKind) (now : ℕ) (lane : Lane K)
      → All (λ (e : ℕ × List K). now < e.0) lane
      → All (IsLater now) (timers_of kind lane)
  IsLater-All kind now [] h = tt
  IsLater-All kind now ((s, keys) ∷ lane) h =
      All-append (IsLater now) (timers_at kind s keys) (timers_of kind lane)
        (timers_at-All (IsLater now) kind s keys (λ k. h.0)) (IsLater-All kind now lane h.1)

  above :
      (a b : ℕ) (lane : Lane K)
      → a < b
      → All (λ (e : ℕ × List K). b < e.0) lane
      → All (λ (e : ℕ × List K). a < e.0) lane
  above a b [] h k = tt
  above a b (e ∷ lane) h k = (omega (arith, h, k.0), above a b lane h k.1)

  -- What a lane gives up is due, what it keeps is not, and together they are what it held.
  pop_due_lem :
      (kind : TimerKind) (now : ℕ) (lane : Lane K)
      → IsAscending lane
      → (timers_of kind lane
          ≡ (pop_due kind now lane).0 ++ timers_of kind (pop_due kind now lane).1)
        × (All (IsDue now) (pop_due kind now lane).0
            × (All (IsLater now) (timers_of kind (pop_due kind now lane).1)
                × IsAscending (pop_due kind now lane).1))
  unfolding pop_due
  pop_due_lem kind now [] h = (refl, (tt, (tt, tt)))
  pop_due_lem kind now ((s, keys) ∷ lane) h = elim (Bool-cases (ltb now s)) [
    | inl e ↦
        let lt : now < s = ground arith in
        rw (e, pop_due)
          (refl, (tt, (IsLater-All kind now ((s, keys) ∷ lane) (lt, above now s lane lt h.0), h)))
    | inr e ↦
        let le : s ≤ now = ground arith in
        let (held, (due_now, rest)) = pop_due_lem kind now lane h.1 in
        rw (e, pop_due)
          (
            ap (λ l. timers_at kind s keys ++ l) held
                ∙ sym (append_assoc (timers_at kind s keys) _ _),
            (
              All-append (IsDue now) (timers_at kind s keys) _
                  (timers_at-All (IsDue now) kind s keys (λ k. le)) due_now,
              rest,
            ),
          )
  ]

  -- Every timer that the schedule held is taken once if it is due and kept once if it is not; those
  -- taken are in the order of their seconds.
  abbrev pub Takes : ℕ → RefreshSchedule K → List (ScheduledRefresh K) × RefreshSchedule K → Type 0
  Takes now r (taken, left) =
      Perm (all_timers r) (taken ++ all_timers left)
      × (IsSorted taken × (All (IsDue now) taken × All (IsLater now) (all_timers left)))

  -- From a schedule whose lanes are in order and whose `len` counts its timers, `take_due` takes
  -- every timer that is due at `now` or before, each once and the earliest first, and keeps all
  -- the others; and what it leaves is such a schedule again.
  pub take_due_lem :
      (r : RefreshSchedule K) (now : ℕ)
      → IsValid r
      → Takes now r (take_due r now) × IsValid (take_due r now).1
  unfolding take_due
  take_due_lem r now (ht, (hr, (hn, hlen))) =
      let lt = pop_due_lem due now r.timers ht in
      let ly = pop_due_lem retry now r.retries hr in
      let ln = pop_due_lem negative_expiry now r.negatives hn in
      (
        (
          Perm.trans holds (Perm.append_right rest (Perm.symm (sort_by_due-perm taken))),
          (
            sort_by_due-IsSorted taken,
            (
              sort_by_due-All (IsDue now) taken (
                  All-append (IsDue now) t.0 _ lt.1.0 (All-append (IsDue now) y.0 _ ly.1.0 ln.1.0)),
              All-append (IsLater now) (timers_of due t.1) _ lt.1.1.0
                  (All-append (IsLater now) (timers_of retry y.1) _ ly.1.1.0 ln.1.1.0),
            ),
          ),
        ),
        (
          lt.1.1.1,
          (
            ly.1.1.1,
            (
              ln.1.1.1,
              omega (arith, hlen, length-sort_by_due taken, counts, length-append taken rest),
            ),
          ),
        ),
      )
    where
      t : List (ScheduledRefresh K) × Lane K
      t = pop_due due now r.timers

      y : List (ScheduledRefresh K) × Lane K
      y = pop_due retry now r.retries

      n : List (ScheduledRefresh K) × Lane K
      n = pop_due negative_expiry now r.negatives

      taken : List (ScheduledRefresh K)
      taken = t.0 ++ (y.0 ++ n.0)

      rest : List (ScheduledRefresh K)
      rest = timers_of due t.1 ++ (timers_of retry y.1 ++ timers_of negative_expiry n.1)

      pairs :
          all_timers r
          ≡ (t.0 ++ timers_of due t.1)
            ++ ((y.0 ++ timers_of retry y.1) ++ (n.0 ++ timers_of negative_expiry n.1))
      pairs =
          rw⁻¹
            (
              (pop_due_lem due now r.timers ht).0,
              (pop_due_lem retry now r.retries hr).0,
              (pop_due_lem negative_expiry now r.negatives hn).0,
            )
            refl

      holds : Perm (all_timers r) (taken ++ rest)
      holds = rw pairs (
          Perm.trans
            (Perm.append_left (t.0 ++ timers_of due t.1)
              (interleave-perm y.0 (timers_of retry y.1) n.0 (timers_of negative_expiry n.1)))
            (interleave-perm t.0 (timers_of due t.1) (y.0 ++ n.0)
              (timers_of retry y.1 ++ timers_of negative_expiry n.1)))

      counts : length (all_timers r) ≡ length (taken ++ rest)
      counts = omega (
        arith,
        ap length pairs,
        length-append (t.0 ++ timers_of due t.1)
            ((y.0 ++ timers_of retry y.1) ++ (n.0 ++ timers_of negative_expiry n.1)),
        length-append t.0 (timers_of due t.1),
        length-append (y.0 ++ timers_of retry y.1) (n.0 ++ timers_of negative_expiry n.1),
        length-append y.0 (timers_of retry y.1),
        length-append n.0 (timers_of negative_expiry n.1),
        length-append taken rest,
        length-append t.0 (y.0 ++ n.0),
        length-append y.0 n.0,
        length-append (timers_of due t.1) (timers_of retry y.1 ++ timers_of negative_expiry n.1),
        length-append (timers_of retry y.1) (timers_of negative_expiry n.1),
      )
