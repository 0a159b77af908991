-- ===== src/OwnerNames/Tests.antt =====
-- The tests of `lowercase_owner_names`, and its theorems at one response.
use ferrous_dns.Base.{ℕ, ◌≡◌, ◌⊎◌, refl, List, [], ◌∷◌, ◌++◌}
use ferrous_dns.Base.Ascii.{to_ascii_lowercase, is_ascii_uppercase}
use ferrous_dns.FastPath.Outcome.{reject, ok, slice, Ensures, Gives}
use ferrous_dns.OwnerNames.{
  owner_labels, lowercase_owner_names, get, count, checked_add, walk_name, walk_questions,
  walk_records, has_uppercase, make_lowercase, lower_range,
}
use ferrous_dns.OwnerNames.Lowered.{
  Lowered, HasUppercase, SameHeader, lowercase_owner_names-Lowered,
  lowercase_owner_names-SameHeader,
}

-- One question, `aB.`, and one answer whose owner is a pointer to it, with two bytes of data.
abbrev header : List ℕ
header = 0x12 ∷ 0x34 ∷ 0x81 ∷ 0x80 ∷ 0 ∷ 1 ∷ 0 ∷ 1 ∷ 0 ∷ 0 ∷ 0 ∷ 0 ∷ []

abbrev answer : List ℕ
answer = 0xc0 ∷ 12 ∷ 0 ∷ 16 ∷ 0 ∷ 1 ∷ 0 ∷ 0 ∷ 0 ∷ 60 ∷ 0 ∷ 2 ∷ b'X' ∷ b'Y' ∷ []

abbrev response : List ℕ
response = header ++ (2 ∷ b'a' ∷ b'B' ∷ 0 ∷ 0 ∷ 16 ∷ 0 ∷ 1 ∷ answer)

abbrev rewritten : List ℕ
rewritten = header ++ (2 ∷ b'a' ∷ b'b' ∷ 0 ∷ 0 ∷ 16 ∷ 0 ∷ 1 ∷ answer)

labels_found : owner_labels response ≡ ok ((13, 15) ∷ [])
unfolding owner_labels count get checked_add walk_questions walk_records walk_name
labels_found = refl

rewrites : lowercase_owner_names response ≡ ok rewritten
unfolding lowercase_owner_names owner_labels count get checked_add walk_questions walk_records
    walk_name has_uppercase make_lowercase lower_range slice to_ascii_lowercase is_ascii_uppercase
rewrites = refl

-- Nothing is left to change.
unchanged : lowercase_owner_names rewritten ≡ reject
unfolding lowercase_owner_names owner_labels count get checked_add walk_questions walk_records
    walk_name has_uppercase make_lowercase lower_range slice to_ascii_lowercase is_ascii_uppercase
unchanged = refl

lowercase_owner_names-Lowered_example :
    (HasUppercase ((13, 15) ∷ []) response
      × Gives (Lowered ((13, 15) ∷ []) response) (lowercase_owner_names response))
    ⊎ ((¬ HasUppercase ((13, 15) ∷ []) response) × (lowercase_owner_names response ≡ reject))
lowercase_owner_names-Lowered_example =
    lowercase_owner_names-Lowered response ((13, 15) ∷ []) labels_found

lowercase_owner_names-SameHeader_example :
    Ensures (SameHeader response) (lowercase_owner_names response)
lowercase_owner_names-SameHeader_example = lowercase_owner_names-SameHeader response
