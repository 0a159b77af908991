-- ===== src/OwnerNames/Walk.antt =====
-- The walk of response_validator.rs ends, and every label that it records lies in the response
-- behind the header.
use ferrous_dns.Base.{
  ℕ, zero, suc, ◌+◌, ◌≤◌, ◌<◌, ◌≡◌, bit_and, not, leb, ltb, ◌==◌, List, [], ◌∷◌, ◌++◌, length,
  get_elem?, All, arith, Bool-cases, Option-cases, inl, inr,
}
use ferrous_dns.FastPath.Outcome.{Ensures, Ensures->>=, Ensures-weaken, Ensures-reject_if}
use ferrous_dns.OwnerNames.{
  Labels, header_len, get, checked_add, count, walk_name, walk_questions, walk_records,
  owner_labels,
}

-- A label behind the header, within the response.
abbrev pub Inside : List ℕ → ℕ × ℕ → Type 0
Inside wire l = (header_len < l.0) × (l.0 ≤ l.1) × (l.1 ≤ length wire)

All-append_label :
    (wire : List ℕ) (ls : Labels) (l : ℕ × ℕ)
    → All (Inside wire) ls
    → Inside wire l
    → All (Inside wire) (ls ++ (l ∷ []))
All-append_label wire [] l h i = (i, tt)
All-append_label wire (m ∷ ls) l h i = (h.0, All-append_label wire ls l h.1 i)

get-lt : (wire : List ℕ) (i : ℕ) → Ensures (λ b. i < length wire) (get wire i)
unfolding get
get-lt [] i = tt
get-lt (b ∷ wire) zero = omega arith
get-lt (b ∷ wire) (suc i) = elim (Option-cases (get_elem? wire i)) [
  | inl absent ↦ rw (absent, Ensures) tt
  | inr (c, e) ↦
      let below : Ensures (λ b. i < length wire) (get wire i) = get-lt wire i in
      rw (e, Ensures) (omega (arith, rw (e, Ensures) at below))
]

checked_add-Ensures : (a b : ℕ) → Ensures (λ s. s ≡ a + b) (checked_add a b)
unfolding checked_add
checked_add-Ensures a b = ground arith

count-Ensures : (wire : List ℕ) (at : ℕ) → Ensures (λ n. at + 1 < length wire) (count wire at)
unfolding count
count-Ensures wire at =
    Ensures->>= (λ _. at < length wire) _ (get wire at) _ (get-lt wire at)
      λ hi _.
        Ensures->>= (λ _. at + 1 < length wire) _ (get wire (at + 1)) _ (get-lt wire (at + 1))
          λ lo h. h

-- The walk goes forward, and the labels are inside.
abbrev pub Walked : List ℕ → ℕ → ℕ × Labels → Type 0
Walked wire pos r = (pos < r.0) × All (Inside wire) r.1

walk_name-Ensures :
    (fuel : ℕ) (wire : List ℕ) (pos : ℕ) (labels : Labels)
    → header_len ≤ pos
    → length wire < fuel + pos
    → pos ≤ length wire
    → All (Inside wire) labels
    → Ensures (Walked wire pos) (walk_name fuel wire pos labels)
unfolding walk_name
walk_name-Ensures zero wire pos labels behind enough inside h = absurd (omega arith)
walk_name-Ensures (suc fuel) wire pos labels behind enough inside h =
    let Q = Walked wire pos in
    Ensures->>= (λ _. pos < length wire) Q (get wire pos) _ (get-lt wire pos)
      λ len in_range. elim (Bool-cases (len == 0)) [
        | inl root ↦ rw root (
            Ensures->>= (λ s. s ≡ pos + 1) Q (checked_add pos 1) _ (checked_add-Ensures pos 1)
              λ end e. (omega arith, h))
        | inr label ↦ rw label (elim (Bool-cases (bit_and len 0xC0 == 0xC0)) [
          | inl pointer ↦ rw pointer (
              Ensures->>= (λ _. pos + 1 < length wire) Q (get wire (pos + 1)) _
                (get-lt wire (pos + 1))
                λ _ _.
                  Ensures->>= (λ s. s ≡ pos + 2) Q (checked_add pos 2) _ (checked_add-Ensures pos 2)
                    λ end e. (omega arith, h))
          | inr literal ↦ rw literal (
              Ensures-reject_if Q (not (bit_and len 0xC0 == 0)) _ λ _.
                Ensures-reject_if Q (ltb (length wire) (pos + 1 + len)) _ λ fits.
                  Ensures-weaken (Walked wire (pos + 1 + len)) Q
                    (walk_name fuel wire (pos + 1 + len) _)
                    (walk_name-Ensures fuel wire (pos + 1 + len) _ (omega arith) (omega arith)
                      (ground arith)
                      (All-append_label wire labels _ h (omega arith, omega arith, ground arith)))
                    (λ r w. (omega (arith, w.0), w.1)))
        ])
      ]

-- A name past the end is rejected at its first byte.
name-Ensures :
    (wire : List ℕ) (pos : ℕ) (labels : Labels)
    → header_len ≤ pos
    → All (Inside wire) labels
    → Ensures (Walked wire pos) (walk_name (suc (length wire)) wire pos labels)
unfolding walk_name
name-Ensures wire pos labels behind h = elim (Bool-cases (leb pos (length wire))) [
  | inl inside ↦
      walk_name-Ensures (suc (length wire)) wire pos labels behind (omega arith) (ground arith) h
  | inr past ↦
      Ensures->>= (λ _. pos < length wire) (Walked wire pos) (get wire pos) _ (get-lt wire pos)
        λ len in_range. absurd (ground arith)
]

abbrev Behind : List ℕ → ℕ × Labels → Type 0
Behind wire r = (header_len ≤ r.0) × All (Inside wire) r.1

walk_questions-Ensures :
    (n : ℕ) (wire : List ℕ) (pos : ℕ) (labels : Labels)
    → header_len ≤ pos
    → All (Inside wire) labels
    → Ensures (Behind wire) (walk_questions n wire pos labels)
unfolding walk_questions
walk_questions-Ensures zero wire pos labels behind h = (behind, h)
walk_questions-Ensures (suc n) wire pos labels behind h =
    let Q = Behind wire in
    Ensures->>= (Walked wire pos) Q (walk_name (suc (length wire)) wire pos labels) _
      (name-Ensures wire pos labels behind h)
      λ r w.
        Ensures->>= (λ s. s ≡ r.0 + 4) Q (checked_add r.0 4) _ (checked_add-Ensures r.0 4)
          λ next e. walk_questions-Ensures n wire next r.1 (omega (arith, w.0)) w.1

walk_records-Ensures :
    (n : ℕ) (wire : List ℕ) (pos : ℕ) (labels : Labels)
    → header_len ≤ pos
    → All (Inside wire) labels
    → Ensures (Behind wire) (walk_records n wire pos labels)
unfolding walk_records
walk_records-Ensures zero wire pos labels behind h = (behind, h)
walk_records-Ensures (suc n) wire pos labels behind h =
    let Q = Behind wire in
    Ensures->>= (Walked wire pos) Q (walk_name (suc (length wire)) wire pos labels) _
      (name-Ensures wire pos labels behind h)
      λ r w.
        Ensures->>= (λ s. s ≡ r.0 + 8) Q (checked_add r.0 8) _ (checked_add-Ensures r.0 8)
          λ at e.
            Ensures->>= (λ _. at + 1 < length wire) Q (count wire at) _ (count-Ensures wire at)
              λ rdlength _.
                Ensures->>= (λ s. s ≡ at + 2) Q (checked_add at 2) _ (checked_add-Ensures at 2)
                  λ rdata_at e2.
                    Ensures->>= (λ s. s ≡ rdata_at + rdlength) Q (checked_add rdata_at rdlength) _
                      (checked_add-Ensures rdata_at rdlength)
                      λ next e3. walk_records-Ensures n wire next r.1 (omega (arith, w.0)) w.1

pub owner_labels-Ensures :
    (wire : List ℕ) → Ensures (λ labels. All (Inside wire) labels) (owner_labels wire)
unfolding owner_labels
owner_labels-Ensures wire =
    let Q : Labels → Type 0 = λ labels. All (Inside wire) labels in
    Ensures->>= (λ _. 5 < length wire) Q (count wire 4) _ (count-Ensures wire 4)
      λ qdcount _.
        Ensures->>= (λ _. 7 < length wire) Q (count wire 6) _ (count-Ensures wire 6)
          λ ancount _.
            Ensures->>= (λ _. 9 < length wire) Q (count wire 8) _ (count-Ensures wire 8)
              λ nscount _.
                Ensures->>= (λ _. 11 < length wire) Q (count wire 10) _ (count-Ensures wire 10)
                  λ arcount _.
                    Ensures->>= (Behind wire) Q (walk_questions qdcount wire header_len []) _
                      (walk_questions-Ensures qdcount wire header_len [] (omega arith) tt)
                      λ r w.
                        Ensures->>= (Behind wire) Q
                          (walk_records (ancount + nscount + arcount) wire r.0 r.1) _
                          (walk_records-Ensures (ancount + nscount + arcount) wire r.0 r.1 w.0 w.1)
                          λ s v. Ensures-reject_if Q (ltb (length wire) s.0) _ λ _. v.1
