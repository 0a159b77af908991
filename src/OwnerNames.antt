-- ===== src/OwnerNames.antt =====
-- The owner names of a response in lower case: `lowercase_owner_names` and `walk_name` of
-- crates/infrastructure/src/dns/forwarding/response_validator.rs. A response is the list of its
-- bytes.
pub mod Walk
pub mod Lowered
mod Tests
use ferrous_dns.Base.{
  ℕ, zero, suc, ◌+◌, ◌-◌, ◌*◌, ◌^◌, bit_and, Bool, true, false, not, ◌&&◌, ◌||◌, leb, ltb, ◌==◌,
  if◌then◌else◌, Option, none, some, List, [], ◌∷◌, ◌++◌, length, get_elem?, any,
}
use ferrous_dns.Base.Ascii.{to_ascii_lowercase, is_ascii_uppercase}
use ferrous_dns.FastPath.Outcome.{Outcome, panic, stuck, reject, ok, ◌>>=◌, ◌>>◌, reject_if, slice}

abbrev pub header_len : ℕ
header_len = 12

-- `*wire.get(i)?`.
unfoldable pub get : List ℕ → ℕ → Outcome ℕ
get wire i = elim (get_elem? wire i) [ none ↦ reject | some b ↦ ok b ]

unfoldable pub checked_add : ℕ → ℕ → Outcome ℕ
checked_add a b = if ltb (a + b) (2 ^ 64) then ok (a + b) else reject

unfoldable pub count : List ℕ → ℕ → Outcome ℕ
count wire at = do hi ← get wire at; lo ← get wire (at + 1); ok (hi * 256 + lo)

abbrev pub Labels : Type 0
Labels = List (ℕ × ℕ)

-- The end of the name, and the labels with those of the name.
unfoldable pub walk_name : ℕ → List ℕ → ℕ → Labels → Outcome (ℕ × Labels)
walk_name zero wire pos labels = stuck
walk_name (suc fuel) wire pos labels = do
  len ← get wire pos
  elim (len == 0) [
    | true ↦ do end ← checked_add pos 1; ok (end, labels)
    | false ↦ elim (bit_and len 0xC0 == 0xC0) [
      | true ↦ do _ ← get wire (pos + 1); end ← checked_add pos 2; ok (end, labels)
      | false ↦ do
        reject_if (not (bit_and len 0xC0 == 0))
        reject_if (ltb (length wire) (pos + 1 + len))
        walk_name fuel wire (pos + 1 + len) (labels ++ ((pos + 1, pos + 1 + len) ∷ []))
    ]
  ]

-- Each label takes a byte at least, so one round more than the response has bytes is enough.
unfoldable pub walk_questions : ℕ → List ℕ → ℕ → Labels → Outcome (ℕ × Labels)
walk_questions zero wire pos labels = ok (pos, labels)
walk_questions (suc n) wire pos labels = do
  (end, labels') ← walk_name (suc (length wire)) wire pos labels
  next ← checked_add end 4
  walk_questions n wire next labels'

unfoldable pub walk_records : ℕ → List ℕ → ℕ → Labels → Outcome (ℕ × Labels)
walk_records zero wire pos labels = ok (pos, labels)
walk_records (suc n) wire pos labels = do
  (end, labels') ← walk_name (suc (length wire)) wire pos labels
  rdlength_at ← checked_add end 8
  rdlength ← count wire rdlength_at
  rdata_at ← checked_add rdlength_at 2
  next ← checked_add rdata_at rdlength
  walk_records n wire next labels'

-- The labels of every owner name, up to the test of the last position.
unfoldable pub owner_labels : List ℕ → Outcome Labels
owner_labels wire = do
  qdcount ← count wire 4
  ancount ← count wire 6
  nscount ← count wire 8
  arcount ← count wire 10
  (pos, labels) ← walk_questions qdcount wire header_len []
  (pos', labels') ← walk_records (ancount + nscount + arcount) wire pos labels
  reject_if (ltb (length wire) pos')
  ok labels'

unfoldable pub has_uppercase : List ℕ → Labels → Outcome Bool
has_uppercase wire [] = ok false
has_uppercase wire ((start, end) ∷ labels) = do
  bytes ← slice wire start end
  if any is_ascii_uppercase bytes then ok true else has_uppercase wire labels

-- The bytes at the positions from `start` to `end` in lower case.
unfoldable pub lower_range : ℕ → ℕ → List ℕ → List ℕ
lower_range start end [] = []
lower_range start end (b ∷ bs) =
    (if start == 0 && ltb 0 end then to_ascii_lowercase b else b)
    ∷ lower_range (start - 1) (end - 1) bs

-- `buf[start..end].make_ascii_lowercase()`.
unfoldable pub make_lowercase : List ℕ → Labels → Outcome (List ℕ)
make_lowercase buf [] = ok buf
make_lowercase buf ((start, end) ∷ labels) =
    if leb start end && leb end (length buf)
    then make_lowercase (lower_range start end buf) labels
    else panic

unfoldable pub lowercase_owner_names : List ℕ → Outcome (List ℕ)
lowercase_owner_names wire = do
  labels ← owner_labels wire
  has ← has_uppercase wire labels
  reject_if (not has)
  make_lowercase wire labels
