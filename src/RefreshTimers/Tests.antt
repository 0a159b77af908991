-- ===== src/RefreshTimers/Tests.antt =====
-- Keys are numbers. Timers of three kinds, and a sweep that rejects the odd keys.
use ferrous_dns.Base.{ℕ, ◌%◌, ◌≡◌, refl, Bool, ◌==◌, some, [], ◌∷◌, arith}
use mathlib.Core.List.{Perm}
use ferrous_dns.RefreshTimers.{
  TimerKind, due, retry, RefreshSchedule, register, pop_due, take_due, insert_sorted, sort_by_due,
  sweep, sweep_lane, sweep_timers, sweep_negatives, sweep_retries, start, refresh_due_at,
}
use ferrous_dns.RefreshTimers.Order.{IsValid, all_timers}
use ferrous_dns.RefreshTimers.Due.{take_due_lem, Takes}
use ferrous_dns.RefreshTimers.Registered.{register_lem, timer}
use ferrous_dns.RefreshTimers.Sweep.{accepted}
use ferrous_dns.RefreshTimers.Left.{sweep-accepted, sweep_complete}

abbrev schedule : RefreshSchedule ℕ
schedule = record {
  timers = (5, 1 ∷ 2 ∷ []) ∷ (9, 3 ∷ []) ∷ [];
  retries = (4, 4 ∷ []) ∷ [];
  negatives = [];
  len = 4;
}

abbrev is_even : ℕ → TimerKind → Bool
is_even key kind = key % 2 == 0

valid : IsValid schedule
valid = ((((omega arith, tt)), (tt, tt)), ((tt, tt), (tt, refl)))

takes_in_order : (take_due schedule 5).0 ≡ timer retry 4 4 ∷ timer due 5 1 ∷ timer due 5 2 ∷ []
unfolding take_due pop_due sort_by_due insert_sorted
takes_in_order = refl

resumes : (sweep schedule start 2 is_even).1 ≡ some (record { kind = due; second = 9 })
unfolding sweep sweep_timers sweep_negatives sweep_retries sweep_lane
resumes = refl

lead_applies : refresh_due_at 100 300 290 ≡ 340
unfolding refresh_due_at
lead_applies = refl

take_due_lem_example : Takes 5 schedule (take_due schedule 5) × IsValid (take_due schedule 5).1
take_due_lem_example = take_due_lem schedule 5 valid

register_lem_example :
    Perm (all_timers (register schedule (timer due 7 8))) (timer due 7 8 ∷ all_timers schedule)
    × IsValid (register schedule (timer due 7 8))
register_lem_example = register_lem schedule 7 8 due valid

sweep-accepted_example :
    (accepted is_even (all_timers (sweep schedule start 2 is_even).0)
      ≡ accepted is_even (all_timers schedule))
    × IsValid (sweep schedule start 2 is_even).0
sweep-accepted_example = sweep-accepted is_even schedule start 2 valid

sweep_complete_example :
    all_timers (sweep schedule start 8 is_even).0 ≡ accepted is_even (all_timers schedule)
unfolding sweep sweep_timers sweep_negatives sweep_retries sweep_lane
sweep_complete_example = sweep_complete is_even schedule 8 refl
