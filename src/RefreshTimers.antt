-- ===== src/RefreshTimers.antt =====
-- The timers of the cache's entries, crates/infrastructure/src/dns/cache/schedule.rs. A key is of
-- any type: the schedule only stores it. A `BTreeMap` from seconds to keys is the list of its
-- entries in ascending order. `refresh_due_at` is given the product that it computes in floating
-- point.
pub mod Order
pub mod Due
pub mod Registered
pub mod Sweep
pub mod Left
mod Tests
use ferrous_dns.Base.{
  ℕ, zero, suc, ◌+◌, ◌-◌, ◌/◌, min, max, Bool, true, false, ◌&&◌, ltb, leb, ◌==◌, if◌then◌else◌,
  Option, none, some, List, [], ◌∷◌, ◌++◌, length, map,
}

abbrev pub refresh_lead_secs : ℕ
refresh_lead_secs = 60

pub data TimerKind : Type 0 where
  due retry negative_expiry : TimerKind

pub record ScheduledRefresh (K : Type 0) : Type 0 where
  pub due_at_secs : ℕ
  pub key : K
  pub kind : TimerKind

-- `ttl.div_ceil(2)`.
abbrev pub half_up : ℕ → ℕ
half_up ttl = (ttl + 1) / 2

-- `proportional` is `(ttl as f64 * threshold.clamp(0.0, 1.0)) as u64`.
unfoldable pub refresh_due_at : ℕ → ℕ → ℕ → ℕ
refresh_due_at inserted_at_secs ttl proportional =
    let lead =
      if ltb refresh_lead_secs ttl then max (ttl - refresh_lead_secs) (half_up ttl) else ttl in
    inserted_at_secs + max (min proportional lead) 1

abbrev pub Lane : Type 0 → Type 0
Lane K = List (ℕ × List K)

pub record RefreshSchedule (K : Type 0) : Type 0 where
  pub timers : Lane K
  pub retries : Lane K
  pub negatives : Lane K
  pub len : ℕ

-- Where a sweep resumes.
pub record SweepFrom : Type 0 where
  pub kind : TimerKind
  pub second : ℕ

abbrev pub start : SweepFrom
start = record { kind = due; second = 0 }

-- What a sweep of a lane leaves: the lane, the budget, how many timers went, where to resume.
pub record Swept (K : Type 0) : Type 0 where
  pub lane : Lane K
  pub budget : ℕ
  pub removed : ℕ
  pub resume : Option ℕ

abbrev pub resume_in : TimerKind → Option ℕ → Option SweepFrom
resume_in kind none = none
resume_in kind (some second) = some (record { kind = kind; second = second })

abbrev pub is_start : SweepFrom → Bool
is_start from = elim from.kind [ due ↦ from.second == 0 | _ ↦ false ]

abbrev pub is_due : TimerKind → Bool
is_due kind = elim kind [ due ↦ true | _ ↦ false ]

abbrev pub is_negative : TimerKind → Bool
is_negative kind = elim kind [ negative_expiry ↦ true | _ ↦ false ]

module _ {K : Type 0} where
  abbrev pub empty : RefreshSchedule K
  empty = record { timers = []; retries = []; negatives = []; len = 0 }

  -- `entry(second).or_default().push(key)`.
  unfoldable pub push : ℕ → K → Lane K → Lane K
  push second key [] = (second, key ∷ []) ∷ []
  push second key ((s, keys) ∷ lane) =
      if ltb second s
      then (second, key ∷ []) ∷ (s, keys) ∷ lane
      else if second == s
      then (s, keys ++ key ∷ []) ∷ lane
      else (s, keys) ∷ push second key lane

  unfoldable pub register : RefreshSchedule K → ScheduledRefresh K → RefreshSchedule K
  register r timer = elim timer.kind [
    | due ↦ record r { timers = push timer.due_at_secs timer.key r.timers; len = r.len + 1 }
    | retry ↦ record r { retries = push timer.due_at_secs timer.key r.retries; len = r.len + 1 }
    | negative_expiry ↦ record r {
      negatives = push timer.due_at_secs timer.key r.negatives;
      len = r.len + 1;
    }
  ]

  abbrev pub timers_at : TimerKind → ℕ → List K → List (ScheduledRefresh K)
  timers_at kind second = map (λ key. record { due_at_secs = second; key = key; kind = kind })

  -- The loop over `first_entry`: the timers of a lane that are due, and the lane after.
  unfoldable pub pop_due : TimerKind → ℕ → Lane K → List (ScheduledRefresh K) × Lane K
  pop_due kind now_secs [] = ([], [])
  pop_due kind now_secs ((second, keys) ∷ lane) =
      let rest = pop_due kind now_secs lane in
      if ltb now_secs second
      then ([], (second, keys) ∷ lane)
      else (timers_at kind second keys ++ rest.0, rest.1)

  -- `sort_by_key(|timer| timer.due_at_secs)`, which is stable.
  unfoldable pub insert_sorted :
      ScheduledRefresh K → List (ScheduledRefresh K) → List (ScheduledRefresh K)
  insert_sorted timer [] = timer ∷ []
  insert_sorted timer (t ∷ timers) =
      if leb timer.due_at_secs t.due_at_secs
      then timer ∷ t ∷ timers
      else t ∷ insert_sorted timer timers

  unfoldable pub sort_by_due : List (ScheduledRefresh K) → List (ScheduledRefresh K)
  sort_by_due [] = []
  sort_by_due (timer ∷ timers) = insert_sorted timer (sort_by_due timers)

  unfoldable pub take_due : RefreshSchedule K → ℕ → List (ScheduledRefresh K) × RefreshSchedule K
  take_due r now_secs =
      let timers = pop_due due now_secs r.timers in
      let retries = pop_due retry now_secs r.retries in
      let negatives = pop_due negative_expiry now_secs r.negatives in
      let taken = sort_by_due (timers.0 ++ (retries.0 ++ negatives.0)) in
      (
        taken,
        record {
          timers = timers.1;
          retries = retries.1;
          negatives = negatives.1;
          len = r.len - length taken;
        },
      )

  abbrev pub is_empty : RefreshSchedule K → Bool
  is_empty r = r.len == 0

  abbrev pub retain : (K → Bool) → List K → List K
  retain keep [] = []
  retain keep (key ∷ keys) = if keep key then key ∷ retain keep keys else retain keep keys

  -- An entry of a lane without keys is taken out.
  abbrev pub put_back : ℕ → List K → Lane K → Lane K
  put_back second [] lane = lane
  put_back second (key ∷ keys) lane = (second, key ∷ keys) ∷ lane

  -- `retries.retain`: the lane after, and how many timers went.
  unfoldable pub retain_lane : (K → Bool) → Lane K → Lane K × ℕ
  retain_lane keep [] = ([], 0)
  retain_lane keep ((second, keys) ∷ lane) =
      let rest = retain_lane keep lane in
      (
        put_back second (retain keep keys) rest.0,
        (length keys - length (retain keep keys)) + rest.1,
      )

  unfoldable pub sweep_lane : ℕ → (K → Bool) → ℕ → Lane K → Swept K
  sweep_lane from keep budget [] = record { lane = []; budget = budget; removed = 0; resume = none }
  sweep_lane from keep budget ((second, keys) ∷ lane) =
      let skipped = sweep_lane from keep budget lane in
      let kept = retain keep keys in
      let rest = sweep_lane from keep (budget - length keys) lane in
      if ltb second from
      then record skipped { lane = (second, keys) ∷ skipped.lane }
      else if budget == 0
      then record { lane = (second, keys) ∷ lane; budget = 0; removed = 0; resume = some second }
      else record rest {
        lane = put_back second kept rest.lane;
        removed = (length keys - length kept) + rest.removed;
      }

  abbrev pub unswept : ℕ → Lane K → Swept K
  unswept budget lane = record { lane = lane; budget = budget; removed = 0; resume = none }

  -- The first step of a sweep also sweeps the retries.
  unfoldable pub sweep_retries : SweepFrom → (K → Bool) → Lane K → Lane K × ℕ
  sweep_retries from keep lane = if is_start from then retain_lane keep lane else (lane, 0)

  unfoldable pub sweep_timers : SweepFrom → (K → Bool) → ℕ → Lane K → Swept K
  sweep_timers from keep budget lane =
      if is_due from.kind then sweep_lane from.second keep budget lane else unswept budget lane

  -- The negative lane, when the positive one does not have to be resumed.
  unfoldable pub sweep_negatives : SweepFrom → (K → Bool) → Swept K → Lane K → Swept K
  sweep_negatives from keep first lane = elim first.resume [
    | some s ↦ unswept first.budget lane
    | none ↦ sweep_lane (if is_negative from.kind then from.second else 0) keep first.budget lane
  ]

  unfoldable pub sweep :
      RefreshSchedule K
      → SweepFrom
      → ℕ
      → (K → TimerKind → Bool)
      → RefreshSchedule K × Option SweepFrom
  sweep r from budget keep =
      let retries = sweep_retries from (λ key. keep key retry) r.retries in
      let first = sweep_timers from (λ key. keep key due) budget r.timers in
      let second = sweep_negatives from (λ key. keep key negative_expiry) first r.negatives in
      (
        record {
          timers = first.lane;
          retries = retries.0;
          negatives = second.lane;
          len = r.len - (retries.1 + (first.removed + second.removed));
        },
        elim first.resume [
          | some s ↦ resume_in due (some s)
          | none ↦ resume_in negative_expiry second.resume
        ],
      )
