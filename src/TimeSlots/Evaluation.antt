-- ===== src/TimeSlots/Evaluation.antt =====
-- What the slots of schedule.rs say at a time: a block wins, wherever it stands.
use ferrous_dns.Base.{
  ℕ, ◌≡◌, ◌⊎◌, refl, Bool, true, false, not, ◌&&◌, ◌||◌, leb, ltb, if◌then◌else◌, none, some, List,
  [], ◌∷◌, any, arith, inl, inr,
}
use ferrous_dns.Base.Bits.{bit_and-pow}
use ferrous_dns.TimeSlots.{
  ScheduleAction, block_all, allow_all, TimeSlot, valid, validate_days, validate_time_range, is_on,
  evaluate, evaluate_slots,
}

abbrev pub is_active : ℕ → ℕ → TimeSlot → Bool
is_active weekday time slot =
    is_on slot.days weekday && (leb slot.start_time time && ltb time slot.end_time)

abbrev pub blocks : ScheduleAction → Bool
blocks block_all = true
blocks allow_all = false

-- Whether a slot with the action is active.
abbrev pub some_active : Bool → ℕ → ℕ → List TimeSlot → Bool
some_active block weekday time [] = false
some_active block weekday time (slot ∷ slots) =
    (is_active weekday time slot && (if blocks slot.action then block else not block))
    || some_active block weekday time slots

action-cases : (action : ScheduleAction) → (action ≡ block_all) ⊎ (action ≡ allow_all)
action-cases block_all = inl refl
action-cases allow_all = inr refl

evaluate_lem :
    (slots : List TimeSlot) (weekday time : ℕ) (found_allow : Bool)
    → (evaluate slots weekday time found_allow ≡ (
        if some_active true weekday time slots
        then some block_all
        else if found_allow || some_active false weekday time slots
        then some allow_all
        else none))
unfolding evaluate
evaluate_lem [] weekday time true = refl
evaluate_lem [] weekday time false = refl
evaluate_lem (slot ∷ slots) weekday time found_allow = elim (action-cases slot.action) [
  | inl blocking ↦
      rw (blocking, evaluate, some_active)
        (ground (arith, evaluate_lem slots weekday time found_allow))
  | inr allowing ↦
      rw (allowing, evaluate, some_active)
        (ground (
          arith,
          evaluate_lem slots weekday time found_allow,
          evaluate_lem slots weekday time true,
        ))
]

-- The slots block exactly when an active one blocks, whatever their order; otherwise they allow
-- exactly when an active one allows, and say nothing when none is active.
pub evaluate_slots_lem :
    (slots : List TimeSlot) (weekday time : ℕ)
    → (evaluate_slots slots weekday time ≡ (
        if some_active true weekday time slots
        then some block_all
        else if some_active false weekday time slots
        then some allow_all
        else none))
unfolding evaluate_slots
evaluate_slots_lem slots weekday time = evaluate_lem slots weekday time false

abbrev pub weekdays : List ℕ
weekdays = 0 ∷ 1 ∷ 2 ∷ 3 ∷ 4 ∷ 5 ∷ 6 ∷ []

-- A slot whose days and times the validation accepts is active at its start on some weekday.
pub valid-is_active :
    (slot : TimeSlot)
    → validate_days slot.days ≡ valid
    → validate_time_range slot.start_time slot.end_time ≡ valid
    → any (λ weekday. is_active weekday slot.start_time slot) weekdays ≡ true
unfolding validate_days validate_time_range is_on
valid-is_active slot d t = ground (
  arith,
  bit_and-pow 0 slot.days,
  bit_and-pow 1 slot.days,
  bit_and-pow 2 slot.days,
  bit_and-pow 3 slot.days,
  bit_and-pow 4 slot.days,
  bit_and-pow 5 slot.days,
  bit_and-pow 6 slot.days,
)
