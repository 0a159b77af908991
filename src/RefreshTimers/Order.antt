-- ===== src/RefreshTimers/Order.antt =====
-- The lanes in ascending order, the timers that they hold, and lists of timers up to their order.
use ferrous_dns.Base.{
  ℕ, suc, ◌≤◌, ◌<◌, ◌≡◌, refl, ap, ◌∙◌, leb, List, [], ◌∷◌, ◌++◌, length, All, arith, Bool-cases,
  inl, inr,
}
use mathlib.Core.List.{Perm}
use mathlib.Core.List.Perm
use ferrous_dns.RefreshTimers.{
  ScheduledRefresh, TimerKind, due, retry, negative_expiry, Lane, RefreshSchedule, timers_at,
  insert_sorted, sort_by_due,
}

module _ {K : Type 0} where
  abbrev pub IsAscending : Lane K → Type 0
  IsAscending [] = Unit {0}
  IsAscending ((s, keys) ∷ lane) = All (λ (e : ℕ × List K). s < e.0) lane × IsAscending lane

  abbrev pub timers_of : TimerKind → Lane K → List (ScheduledRefresh K)
  timers_of kind [] = []
  timers_of kind ((s, keys) ∷ lane) = timers_at kind s keys ++ timers_of kind lane

  abbrev pub all_timers : RefreshSchedule K → List (ScheduledRefresh K)
  all_timers r =
      timers_of due r.timers ++ (timers_of retry r.retries ++ timers_of negative_expiry r.negatives)

  -- The lanes are in order, and `len` counts their timers.
  abbrev pub IsValid : RefreshSchedule K → Type 0
  IsValid r =
      IsAscending r.timers
      × (IsAscending r.retries × (IsAscending r.negatives × (r.len ≡ length (all_timers r))))

  abbrev pub IsSorted : List (ScheduledRefresh K) → Type 0
  IsSorted [] = Unit {0}
  IsSorted (t ∷ ts) =
      All (λ (u : ScheduledRefresh K). t.due_at_secs ≤ u.due_at_secs) ts × IsSorted ts

  length-insert_sorted :
      (t : ScheduledRefresh K) (ts : List (ScheduledRefresh K))
      → length (insert_sorted t ts) ≡ suc (length ts)
  unfolding insert_sorted
  length-insert_sorted t [] = refl
  length-insert_sorted t (u ∷ ts) = elim (Bool-cases (leb t.due_at_secs u.due_at_secs)) [
    | inl e ↦ rw (e, insert_sorted) refl
    | inr e ↦ rw (e, insert_sorted) (ap suc (length-insert_sorted t ts))
  ]

  pub length-sort_by_due : (ts : List (ScheduledRefresh K)) → length (sort_by_due ts) ≡ length ts
  unfolding sort_by_due
  length-sort_by_due [] = refl
  length-sort_by_due (t ∷ ts) =
      length-insert_sorted t (sort_by_due ts) ∙ ap suc (length-sort_by_due ts)

  insert_sorted-perm :
      (t : ScheduledRefresh K) (ts : List (ScheduledRefresh K)) → Perm (insert_sorted t ts) (t ∷ ts)
  unfolding insert_sorted
  insert_sorted-perm t [] = Perm.refl (t ∷ [])
  insert_sorted-perm t (u ∷ ts) = elim (Bool-cases (leb t.due_at_secs u.due_at_secs)) [
    | inl e ↦ rw (e, insert_sorted) (Perm.refl (t ∷ u ∷ ts))
    | inr e ↦
        rw (e, insert_sorted)
          (Perm.trans (Perm.cons u (insert_sorted-perm t ts)) (Perm.swap t u ts))
  ]

  pub sort_by_due-perm : (ts : List (ScheduledRefresh K)) → Perm (sort_by_due ts) ts
  unfolding sort_by_due
  sort_by_due-perm [] = Perm.nil
  sort_by_due-perm (t ∷ ts) =
      Perm.trans (insert_sorted-perm t (sort_by_due ts)) (Perm.cons t (sort_by_due-perm ts))

  insert_sorted-All :
      (P : ScheduledRefresh K → Type 0) (t : ScheduledRefresh K) (ts : List (ScheduledRefresh K))
      → P t
      → All P ts
      → All P (insert_sorted t ts)
  unfolding insert_sorted
  insert_sorted-All P t [] h k = (h, tt)
  insert_sorted-All P t (u ∷ ts) h k = elim (Bool-cases (leb t.due_at_secs u.due_at_secs)) [
    | inl e ↦ rw (e, insert_sorted) (h, k)
    | inr e ↦ rw (e, insert_sorted) (k.0, insert_sorted-All P t ts h k.1)
  ]

  pub sort_by_due-All :
      (P : ScheduledRefresh K → Type 0) (ts : List (ScheduledRefresh K))
      → All P ts
      → All P (sort_by_due ts)
  unfolding sort_by_due
  sort_by_due-All P [] h = tt
  sort_by_due-All P (t ∷ ts) h =
      insert_sorted-All P t (sort_by_due ts) h.0 (sort_by_due-All P ts h.1)

  All-trans :
      (a b : ℕ) (ts : List (ScheduledRefresh K))
      → a ≤ b
      → All (λ (u : ScheduledRefresh K). b ≤ u.due_at_secs) ts
      → All (λ (u : ScheduledRefresh K). a ≤ u.due_at_secs) ts
  All-trans a b [] h k = tt
  All-trans a b (t ∷ ts) h k = (omega (arith, h, k.0), All-trans a b ts h k.1)

  insert_sorted-IsSorted :
      (t : ScheduledRefresh K) (ts : List (ScheduledRefresh K))
      → IsSorted ts
      → IsSorted (insert_sorted t ts)
  unfolding insert_sorted
  insert_sorted-IsSorted t [] h = (tt, tt)
  insert_sorted-IsSorted t (u ∷ ts) h = elim (Bool-cases (leb t.due_at_secs u.due_at_secs)) [
    | inl e ↦
        let le : t.due_at_secs ≤ u.due_at_secs = ground arith in
        rw (e, insert_sorted) ((le, All-trans t.due_at_secs u.due_at_secs ts le h.0), h)
    | inr e ↦
        let le : u.due_at_secs ≤ t.due_at_secs = ground arith in
        rw (e, insert_sorted)
          (
            insert_sorted-All (λ v. u.due_at_secs ≤ v.due_at_secs) t ts le h.0,
            insert_sorted-IsSorted t ts h.1,
          )
  ]

  pub sort_by_due-IsSorted : (ts : List (ScheduledRefresh K)) → IsSorted (sort_by_due ts)
  unfolding sort_by_due
  sort_by_due-IsSorted [] = tt
  sort_by_due-IsSorted (t ∷ ts) =
      insert_sorted-IsSorted t (sort_by_due ts) (sort_by_due-IsSorted ts)
