-- ===== src/TimeSlots.antt =====
-- The time slots of a schedule, crates/domain/src/entities/schedule.rs. A weekday is its number from
-- Monday, and a time of day the number of its seconds. `from_hms_opt` of the chrono package, which
-- makes a time from hours, minutes and seconds, is a parameter.
pub mod Evaluation
pub mod Format
mod Tests
use ferrous_dns.Base.{
  ℕ, ◌+◌, ◌-◌, ◌*◌, ◌^◌, bit_and, Bool, true, false, not, ◌&&◌, ◌||◌, leb, ltb, ◌==◌, if◌then◌else◌,
  Option, none, some, List, [], ◌∷◌,
}

pub data ScheduleAction : Type 0 where
  block_all allow_all : ScheduleAction

pub record TimeSlot : Type 0 where
  pub days : ℕ
  pub start_time : ℕ
  pub end_time : ℕ
  pub action : ScheduleAction

-- `Result<(), String>`; the text of an error is left out.
pub data Validity : Type 0 where
  valid no_day too_large not_before : Validity

unfoldable pub validate_days : ℕ → Validity
validate_days days = if days == 0 then no_day else if ltb 127 days then too_large else valid

unfoldable pub validate_time_range : ℕ → ℕ → Validity
validate_time_range start_time end_time = if leb end_time start_time then not_before else valid

unfoldable pub is_ascii_digit : ℕ → Bool
is_ascii_digit c = leb b'0' c && leb c b'9'

unfoldable pub parse_time : {T : Type 0} → (ℕ → ℕ → ℕ → Option T) → List ℕ → Option T
parse_time from_hms_opt (h1 ∷ h2 ∷ colon ∷ m1 ∷ m2 ∷ []) =
    if not (colon == b':')
    then none
    else if not
        (is_ascii_digit h1 && (is_ascii_digit h2 && (is_ascii_digit m1 && is_ascii_digit m2)))
    then none
    else from_hms_opt ((h1 - b'0') * 10 + (h2 - b'0')) ((m1 - b'0') * 10 + (m2 - b'0')) 0
parse_time from_hms_opt _ = none

unfoldable pub is_on : ℕ → ℕ → Bool
is_on days weekday = not (bit_and days (2 ^ weekday) == 0)

unfoldable pub evaluate : List TimeSlot → ℕ → ℕ → Bool → Option ScheduleAction
evaluate [] weekday time found_allow = if found_allow then some allow_all else none
evaluate (slot ∷ slots) weekday time found_allow =
    if not (is_on slot.days weekday)
    then evaluate slots weekday time found_allow
    else if ltb time slot.start_time || leb slot.end_time time
    then evaluate slots weekday time found_allow
    else elim slot.action [
      | block_all ↦ some block_all
      | allow_all ↦ evaluate slots weekday time true
    ]

unfoldable pub evaluate_slots : List TimeSlot → ℕ → ℕ → Option ScheduleAction
evaluate_slots slots weekday time = evaluate slots weekday time false
