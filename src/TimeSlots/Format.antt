-- ===== src/TimeSlots/Format.antt =====
-- The times that schedule.rs parses: zero-padded `HH:MM` and nothing else.
use ferrous_dns.Base.{
  ℕ, ◌+◌, ◌-◌, ◌*◌, ◌/◌, ◌%◌, ◌≤◌, ◌<◌, ◌≡◌, refl, Bool, true, ◌&&◌, ◌==◌, Option, none, some, List,
  [], ◌∷◌, arith, Bool-cases, inl, inr,
}
use ferrous_dns.TimeSlots.{parse_time, is_ascii_digit}

-- `%H:%M`.
abbrev pub format : ℕ → ℕ → List ℕ
format hours minutes =
    (b'0' + hours / 10)
    ∷ (b'0' + hours % 10)
    ∷ b':'
    ∷ (b'0' + minutes / 10)
    ∷ (b'0' + minutes % 10)
    ∷ []

-- Hours and minutes below 100, written with two digits each, are read back, and chrono decides
-- whether they are a time.
pub parse_time-format :
    {T : Type 0} (from_hms_opt : ℕ → ℕ → ℕ → Option T) (hours minutes : ℕ)
    → hours < 100
    → minutes < 100
    → parse_time from_hms_opt (format hours minutes) ≡ from_hms_opt hours minutes 0
unfolding parse_time is_ascii_digit
parse_time-format from_hms_opt hours minutes h m =
    let digits : (is_ascii_digit (b'0' + hours / 10)
          && (is_ascii_digit (b'0' + hours % 10)
              && (is_ascii_digit (b'0' + minutes / 10) && is_ascii_digit (b'0' + minutes % 10))))
        ≡ true =
      ground arith in
    let hh : (b'0' + hours / 10 - b'0') * 10 + (b'0' + hours % 10 - b'0') ≡ hours = omega arith in
    let mm : (b'0' + minutes / 10 - b'0') * 10 + (b'0' + minutes % 10 - b'0') ≡ minutes =
      omega arith in
    rw digits (rw hh (rw mm refl))

abbrev all_digits : ℕ → ℕ → ℕ → ℕ → Bool
all_digits h1 h2 m1 m2 =
    is_ascii_digit h1 && (is_ascii_digit h2 && (is_ascii_digit m1 && is_ascii_digit m2))

pair_digits :
    (a b : ℕ)
    → is_ascii_digit a ≡ true
    → is_ascii_digit b ≡ true
    → (a ≡ b'0' + ((a - b'0') * 10 + (b - b'0')) / 10)
      × (b ≡ b'0' + ((a - b'0') * 10 + (b - b'0')) % 10)
unfolding is_ascii_digit
pair_digits a b da db =
    let la : (b'0' ≤ a) × (a ≤ b'9') = ground arith in
    let lb : (b'0' ≤ b) × (b ≤ b'9') = ground arith in
    (omega (arith, la.0, la.1, lb.0, lb.1), omega (arith, la.0, la.1, lb.0, lb.1))

all_digits-each :
    (h1 h2 m1 m2 : ℕ)
    → all_digits h1 h2 m1 m2 ≡ true
    → (is_ascii_digit h1 ≡ true)
      × (is_ascii_digit h2 ≡ true)
      × (is_ascii_digit m1 ≡ true)
      × (is_ascii_digit m2 ≡ true)
all_digits-each h1 h2 m1 m2 e = ground arith

cons-same : {x y : ℕ} {xs ys : List ℕ} → x ≡ y → xs ≡ ys → ◌≡◌ {A = List ℕ} (x ∷ xs) (y ∷ ys)
cons-same p q = cc

as_format :
    (h1 h2 colon m1 m2 : ℕ)
    → colon ≡ b':'
    → all_digits h1 h2 m1 m2 ≡ true
    → (◌≡◌ {A = List ℕ}
        (h1 ∷ h2 ∷ colon ∷ m1 ∷ m2 ∷ [])
        (format ((h1 - b'0') * 10 + (h2 - b'0')) ((m1 - b'0') * 10 + (m2 - b'0'))))
as_format h1 h2 colon m1 m2 is_colon digits =
    let each = all_digits-each h1 h2 m1 m2 digits in
    let h = pair_digits h1 h2 each.0 each.1 in
    let m = pair_digits m1 m2 each.2 each.3 in
    cons-same h.0 (cons-same h.1 (cons-same is_colon (cons-same m.0 (cons-same m.1 refl))))

none-some : {T : Type 0} {time : T} → none ≡ some time → ⊥
none-some e = cc

-- A text that is parsed is the format of some hours and minutes, and its time is the one that
-- chrono makes of them.
pub parse_time-exact :
    {T : Type 0} (from_hms_opt : ℕ → ℕ → ℕ → Option T) (text : List ℕ) (time : T)
    → parse_time from_hms_opt text ≡ some time
    → (hours : ℕ) × (minutes : ℕ) × (text ≡ format hours minutes)
      × (from_hms_opt hours minutes 0 ≡ some time)
unfolding parse_time is_ascii_digit
parse_time-exact from_hms_opt [] time e = cc
parse_time-exact from_hms_opt (a ∷ []) time e = cc
parse_time-exact from_hms_opt (a ∷ b ∷ []) time e = cc
parse_time-exact from_hms_opt (a ∷ b ∷ c ∷ []) time e = cc
parse_time-exact from_hms_opt (a ∷ b ∷ c ∷ d ∷ []) time e = cc
parse_time-exact from_hms_opt (h1 ∷ h2 ∷ colon ∷ m1 ∷ m2 ∷ []) time e =
    elim (Bool-cases (colon == b':')) [
      | inr other ↦ absurd (none-some (rw other at e))
      | inl is_colon ↦ elim (Bool-cases (all_digits h1 h2 m1 m2)) [
        | inr other ↦ absurd (none-some (rw other at (rw is_colon at e)))
        | inl digits ↦ (
          (h1 - b'0') * 10 + (h2 - b'0'),
          (m1 - b'0') * 10 + (m2 - b'0'),
          as_format h1 h2 colon m1 m2 (ground arith) digits,
          rw digits at (rw is_colon at e),
        )
      ]
    ]
parse_time-exact from_hms_opt (a ∷ b ∷ c ∷ d ∷ f ∷ g ∷ rest) time e = cc
