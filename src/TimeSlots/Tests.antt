-- ===== src/TimeSlots/Tests.antt =====
-- The tests of schedule.rs, and its theorems at a school day.
use ferrous_dns.Base.{
  ℕ, ◌+◌, ◌*◌, ◌≡◌, refl, true, false, ltb, ◌&&◌, if◌then◌else◌, Option, none, some, [], ◌∷◌,
}
use ferrous_dns.Base.Ascii.{codes}
use ferrous_dns.TimeSlots.{
  block_all, allow_all, TimeSlot, parse_time, is_ascii_digit, is_on, evaluate, evaluate_slots,
}
use ferrous_dns.TimeSlots.Evaluation.{some_active, evaluate_slots_lem}
use ferrous_dns.TimeSlots.Format.{format, parse_time-exact}

-- Monday to Friday from eight to three, and an hour off at noon.
abbrev school : TimeSlot
school = record { days = 31; start_time = 28800; end_time = 54000; action = block_all }

abbrev noon : TimeSlot
noon = record { days = 127; start_time = 43200; end_time = 46800; action = allow_all }

block_wins : evaluate_slots (noon ∷ school ∷ []) 0 43200 ≡ some block_all
unfolding evaluate_slots evaluate is_on
block_wins = refl

evaluate_slots_lem_example :
    (evaluate_slots (noon ∷ school ∷ []) 5 43200 ≡ (
      if some_active true 5 43200 (noon ∷ school ∷ [])
      then some block_all
      else if some_active false 5 43200 (noon ∷ school ∷ [])
      then some allow_all
      else none))
evaluate_slots_lem_example = evaluate_slots_lem (noon ∷ school ∷ []) 5 43200

-- Times of a day as their minutes.
abbrev minutes_of_day : ℕ → ℕ → ℕ → Option ℕ
minutes_of_day hours minutes seconds =
    if ltb hours 24 && ltb minutes 60 then some (hours * 60 + minutes) else none

parses : parse_time minutes_of_day (codes "09:30") ≡ some 570
unfolding parse_time is_ascii_digit
parses = refl

parse_time-exact_example :
    (hours : ℕ) × (minutes : ℕ) × (codes "09:30" ≡ format hours minutes)
    × (minutes_of_day hours minutes 0 ≡ some 570)
parse_time-exact_example = parse_time-exact minutes_of_day (codes "09:30") 570 parses
