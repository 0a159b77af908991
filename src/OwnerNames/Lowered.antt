-- ===== src/OwnerNames/Lowered.antt =====
-- What `lowercase_owner_names` of response_validator.rs changes: the bytes of the owner labels, and
-- nothing else.
use ferrous_dns.Base.{
  ℕ, zero, suc, ◌-◌, ◌<◌, ◌≡◌, ◌∙◌, refl, sym, ap, Bool, true, false, ◌&&◌, ◌||◌, leb, ltb, ◌==◌,
  if◌then◌else◌, Option, none, some, List, [], ◌∷◌, length, get_elem?, All, any, arith, ◌+◌, ◌⊎◌,
  take, drop, any-true, any-false, get_elem?-take, get_elem?-drop, get_elem?-some_lt, length-take,
  Bool-cases, inl, inr,
}
use ferrous_dns.Base.Ascii.{to_ascii_lowercase, is_ascii_uppercase}
use ferrous_dns.FastPath.Outcome.{
  ok, reject, Gives, Gives-weaken, Gives-Ensures, Ensures, Ensures->>=, Ensures-weaken, Ensures-ok,
  slice_returns,
}
use ferrous_dns.OwnerNames.{
  Labels, header_len, owner_labels, has_uppercase, lower_range, make_lowercase,
  lowercase_owner_names,
}
use ferrous_dns.OwnerNames.Walk.{Inside, owner_labels-Ensures}

abbrev pub covered : Labels → ℕ → Bool
covered [] i = false
covered ((start, end) ∷ ls) i = (leb start i && ltb i end) || covered ls i

abbrev pub lower_if : Bool → Option ℕ → Option ℕ
lower_if b none = none
lower_if b (some c) = some (if b then to_ascii_lowercase c else c)

lower_if-false : (x : Option ℕ) → lower_if false x ≡ x
lower_if-false none = refl
lower_if-false (some c) = refl

lower_if-lower_if : (a b : Bool) (x : Option ℕ) → lower_if b (lower_if a x) ≡ lower_if (a || b) x
unfolding to_ascii_lowercase
lower_if-lower_if a b none = refl
lower_if-lower_if false false (some c) = refl
lower_if-lower_if false true (some c) = refl
lower_if-lower_if true false (some c) = refl
lower_if-lower_if true true (some c) = ap some (ground arith)

length-lower_range : (start end : ℕ) (bs : List ℕ) → length (lower_range start end bs) ≡ length bs
unfolding lower_range
length-lower_range start end [] = refl
length-lower_range start end (b ∷ bs) = ap suc (length-lower_range (start - 1) (end - 1) bs)

get_elem?-lower_range :
    (start end : ℕ) (bs : List ℕ) (i : ℕ)
    → get_elem? (lower_range start end bs) i ≡ lower_if (leb start i && ltb i end) (get_elem? bs i)
unfolding lower_range
get_elem?-lower_range start end [] i = refl
get_elem?-lower_range start end (b ∷ bs) zero =
    let same : (start == 0) ≡ leb start 0 = ground arith in rw same refl
get_elem?-lower_range start end (b ∷ bs) (suc i) =
    let shift : (leb (start - 1) i && ltb i (end - 1)) ≡ (leb start (suc i) && ltb (suc i) end) =
      ground arith in
    get_elem?-lower_range (start - 1) (end - 1) bs i ∙ ap (λ t. lower_if t (get_elem? bs i)) shift

-- The output has the input's length, and differs from it at covered positions alone.
pub record Lowered (labels : Labels) (wire out : List ℕ) : Type 0 where
  pub same_length : length out ≡ length wire
  pub at : (i : ℕ) → get_elem? out i ≡ lower_if (covered labels i) (get_elem? wire i)

-- A byte of one of the labels is a capital.
abbrev pub HasUppercase : Labels → List ℕ → Type 0
HasUppercase labels wire =
    (i : ℕ) × (c : ℕ) × (covered labels i ≡ true)
    × (get_elem? wire i ≡ some c)
    × (is_ascii_uppercase c ≡ true)

label_at :
    (wire : List ℕ) (start end i : ℕ)
    → i < end - start
    → get_elem? (take (end - start) (drop start wire)) i ≡ get_elem? wire (start + i)
label_at wire start end i h =
    get_elem?-take (end - start) (drop start wire) i h ∙ get_elem?-drop start wire i

module _ (wire : List ℕ) (start end : ℕ) (labels : Labels) where
  abbrev bytes : List ℕ
  bytes = take (end - start) (drop start wire)

  found-HasUppercase :
      any is_ascii_uppercase bytes ≡ true → HasUppercase ((start, end) ∷ labels) wire
  found-HasUppercase found =
      let (i, c, at, capital) = any-true is_ascii_uppercase bytes found in
      let below : i < end - start =
        omega
          (arith, get_elem?-some_lt bytes i c at, length-take (end - start) (drop start wire)) in
      let first : (leb start (start + i) && ltb (start + i) end) ≡ true = ground arith in
      (start + i, c, rw first refl, sym (label_at wire start end i below) ∙ at, capital)

  later-HasUppercase : HasUppercase labels wire → HasUppercase ((start, end) ∷ labels) wire
  later-HasUppercase (i, c, later, at, capital) = (i, c, ground arith, at, capital)

  none-HasUppercase :
      any is_ascii_uppercase bytes ≡ false
      → ¬ HasUppercase labels wire
      → ¬ HasUppercase ((start, end) ∷ labels) wire
  none-HasUppercase none_found no_later (i, c, here, at, capital) =
      elim (Bool-cases (leb start i && ltb i end)) [
        | inl first ↦
            let below : i - start < end - start = ground arith in
            let back : start + (i - start) ≡ i = ground arith in
            let small : is_ascii_uppercase c ≡ false =
              any-false is_ascii_uppercase bytes (i - start) c none_found
                (label_at wire start end (i - start) below ∙ ap (get_elem? wire) back ∙ at) in
            absurd cc
        | inr other ↦
            let later : covered labels i ≡ true = ground arith in
            no_later (i, c, later, at, capital)
      ]

has_uppercase_lem :
    (wire : List ℕ) (labels : Labels)
    → All (Inside wire) labels
    → (HasUppercase labels wire × (has_uppercase wire labels ≡ ok true))
      ⊎ ((¬ HasUppercase labels wire) × (has_uppercase wire labels ≡ ok false))
unfolding has_uppercase
has_uppercase_lem wire [] h = inr (λ u. cc, refl)
has_uppercase_lem wire ((start, end) ∷ labels) h =
    rw (slice_returns wire start end h.0.2)
      (elim (Bool-cases (any is_ascii_uppercase (bytes wire start end labels))) [
        | inl found ↦ inl (found-HasUppercase wire start end labels found, rw found refl)
        | inr none_found ↦ elim (has_uppercase_lem wire labels h.1) [
          | inl later ↦
              inl (later-HasUppercase wire start end labels later.0, rw none_found later.1)
          | inr no_later ↦ inr (
            none-HasUppercase wire start end labels none_found no_later.0,
            rw none_found no_later.1,
          )
        ]
      ])

Inside-length :
    (wire buf : List ℕ) (labels : Labels)
    → length buf ≡ length wire
    → All (Inside wire) labels
    → All (Inside buf) labels
Inside-length wire buf [] e h = tt
Inside-length wire buf (l ∷ labels) e h =
    ((h.0.0, h.0.1, omega (arith, h.0.2, e)), Inside-length wire buf labels e h.1)

make_lowercase-Gives :
    (buf : List ℕ) (labels : Labels)
    → All (Inside buf) labels
    → Gives (Lowered labels buf) (make_lowercase buf labels)
unfolding make_lowercase
make_lowercase-Gives buf [] h = record {
  same_length = refl;
  at = λ i. sym (lower_if-false (get_elem? buf i));
}
make_lowercase-Gives buf ((start, end) ∷ labels) h =
    let buf' = lower_range start end buf in
    let size = length-lower_range start end buf in
    let in_range : (leb start end && leb end (length buf)) ≡ true = ground (arith, h.0.1, h.0.2) in
    rw in_range (
      Gives-weaken (Lowered labels buf') (Lowered ((start, end) ∷ labels) buf)
        (make_lowercase buf' labels)
        (make_lowercase-Gives buf' labels (Inside-length buf buf' labels size h.1))
        λ out l. record {
          same_length = l.same_length ∙ size;
          at = λ i.
              l.at i
              ∙ ap (lower_if (covered labels i)) (get_elem?-lower_range start end buf i)
              ∙ lower_if-lower_if (leb start i && ltb i end) (covered labels i) (get_elem? buf i);
        })

-- If the walk of the response finds these labels, then either a byte of a label is a capital, and
-- the rewrite gives the response with the bytes of the labels in lower case and every other byte as
-- it was, or none is, and the rewrite gives `None`.
pub lowercase_owner_names-Lowered :
    (wire : List ℕ) (labels : Labels)
    → owner_labels wire ≡ ok labels
    → (HasUppercase labels wire × Gives (Lowered labels wire) (lowercase_owner_names wire))
      ⊎ ((¬ HasUppercase labels wire) × (lowercase_owner_names wire ≡ reject))
unfolding lowercase_owner_names
lowercase_owner_names-Lowered wire labels e =
    let inside = Ensures-ok (All (Inside wire)) (owner_labels wire) e (owner_labels-Ensures wire) in
    rw e (elim (has_uppercase_lem wire labels inside) [
      | inl some_capital ↦
          inl (some_capital.0, rw some_capital.1 (make_lowercase-Gives wire labels inside))
      | inr no_capital ↦ inr (no_capital.0, rw no_capital.1 refl)
    ])

header-uncovered :
    (wire : List ℕ) (labels : Labels) (i : ℕ)
    → All (Inside wire) labels
    → i < header_len
    → covered labels i ≡ false
header-uncovered wire [] i h below = refl
header-uncovered wire ((start, end) ∷ labels) i h below =
    let rest = header-uncovered wire labels i h.1 below in
    let outside : leb start i ≡ false = ground (arith, h.0.0) in rw outside rest

-- What holds of a rewritten response, whatever its labels are.
pub record SameHeader (wire out : List ℕ) : Type 0 where
  pub same_length : length out ≡ length wire
  pub header : (i : ℕ) → i < header_len → get_elem? out i ≡ get_elem? wire i

Lowered-SameHeader :
    (wire : List ℕ) (labels : Labels)
    → All (Inside wire) labels
    → (out : List ℕ) → Lowered labels wire out
    → SameHeader wire out
Lowered-SameHeader wire labels inside out l = record {
  same_length = l.same_length;
  header = λ i below.
      l.at i
      ∙ ap (λ t. lower_if t (get_elem? wire i)) (header-uncovered wire labels i inside below)
      ∙ lower_if-false (get_elem? wire i);
}

-- On every response, well formed or not, the rewrite returns: it never indexes or slices out of
-- range, and its loops end. A response that it rewrites keeps its length and its header.
pub lowercase_owner_names-SameHeader :
    (wire : List ℕ) → Ensures (SameHeader wire) (lowercase_owner_names wire)
unfolding lowercase_owner_names
lowercase_owner_names-SameHeader wire =
    Ensures->>= (All (Inside wire)) (SameHeader wire) (owner_labels wire) _
      (owner_labels-Ensures wire)
      λ labels inside. elim (has_uppercase_lem wire labels inside) [
        | inr no_capital ↦ rw no_capital.1 tt
        | inl some_capital ↦ rw some_capital.1 (
            Ensures-weaken (Lowered labels wire) (SameHeader wire) (make_lowercase wire labels)
              (Gives-Ensures (Lowered labels wire) (make_lowercase wire labels)
                (make_lowercase-Gives wire labels inside))
              (Lowered-SameHeader wire labels inside))
      ]
