-- ===== src/FastPath/Name/Bounds.antt =====
-- The name that fast_path.rs reads: it fits its array, and holds the bytes of a cache key.
use ferrous_dns.Base.{
  ℕ, zero, suc, ◌+◌, ◌≤◌, ◌<◌, ◌≡◌, ◌⊎◌, inl, inr, refl, Bool, true, false, not, leb, ltb, ◌==◌,
  List, [], ◌∷◌, ◌++◌, length, length-append, All, arith, Bool-cases,
}
use ferrous_dns.Base.Ascii.{to_ascii_lowercase, is_ascii_alphanumeric}
use ferrous_dns.FastPath.Outcome.{
  Ensures, Ensures->>=, Ensures-reject_if, Ensures-weaken, reject_if-Ensures, Ensures-index,
  Ensures-slice,
}
use ferrous_dns.FastPath.Name.{
  max_domain_len, push, is_unescaped, copy_label, push_dot, reject_idn, read_label, read_name,
}

-- A lower-case letter, a digit, or one of the punctuation marks of a name.
abbrev pub IsNameByte : ℕ → Type 0
IsNameByte b =
    ((b'a' ≤ b) × (b ≤ b'z'))
    ⊎ (((b'0' ≤ b) × (b ≤ b'9')) ⊎ ((b ≡ b'_') ⊎ ((b ≡ b'-') ⊎ ((b ≡ b'*') ⊎ (b ≡ b'.')))))

pub record IsDomain (domain : List ℕ) : Type 0 where
  pub fits : length domain ≤ max_domain_len
  pub bytes : All IsNameByte domain

All-append_one :
    (xs : List ℕ) (b : ℕ) → All IsNameByte xs → IsNameByte b → All IsNameByte (xs ++ (b ∷ []))
All-append_one [] b h k = (k, tt)
All-append_one (x ∷ xs) b h k = (h.0, All-append_one xs b h.1 k)

lowercase-IsNameByte :
    (b i : ℕ) → not (is_unescaped b i) ≡ false → IsNameByte (to_ascii_lowercase b)
unfolding is_unescaped to_ascii_lowercase is_ascii_alphanumeric
lowercase-IsNameByte b i h = ground arith

push-Ensures :
    (domain : List ℕ) (b n : ℕ)
    → length domain ≡ n
    → n < max_domain_len
    → All IsNameByte domain
    → IsNameByte b
    → Ensures (λ d. (length d ≡ n + 1) × All IsNameByte d) (push domain b)
unfolding push
push-Ensures domain b n e h bs nb =
    let room : leb (length domain) max_domain_len ≡ true = ground arith in
    rw room (omega (arith, length-append domain (b ∷ [])), All-append_one domain b bs nb)

copy_label-Ensures :
    (bytes : List ℕ) (i : ℕ) (domain : List ℕ)
    → length domain + length bytes ≤ max_domain_len
    → All IsNameByte domain
    → Ensures IsDomain (copy_label bytes i domain)
unfolding copy_label
copy_label-Ensures [] i domain h bs = record { fits = omega arith; bytes = bs }
copy_label-Ensures (b ∷ bytes) i domain h bs =
    Ensures-reject_if IsDomain (not (is_unescaped b i)) _ λ safe.
      Ensures->>= (λ d. (length d ≡ length domain + 1) × All IsNameByte d) IsDomain
        (push domain (to_ascii_lowercase b)) _
        (push-Ensures domain (to_ascii_lowercase b) (length domain) refl (omega arith) bs
          (lowercase-IsNameByte b i safe))
        (λ d p. copy_label-Ensures bytes (i + 1) d (omega arith) p.1)

push_dot-Ensures :
    (domain : List ℕ) (first_label : Bool)
    → IsDomain domain
    → Ensures IsDomain (push_dot domain first_label)
unfolding push_dot
push_dot-Ensures domain true v = v
push_dot-Ensures domain false v =
    Ensures-reject_if IsDomain (leb max_domain_len (length domain)) _ λ room.
      Ensures-weaken (λ d. (length d ≡ length domain + 1) × All IsNameByte d) IsDomain
        (push domain b'.')
        (push-Ensures domain b'.' (length domain) refl (ground arith) v.bytes (omega arith))
        (λ d p. record { fits = ground arith; bytes = p.1 })

reject_idn-Ensures :
    (buf : List ℕ) (pos label_len : ℕ)
    → pos + label_len ≤ length buf
    → Ensures (λ _. Unit {0}) (reject_idn buf pos label_len)
unfolding reject_idn
reject_idn-Ensures buf pos label_len h = elim (Bool-cases (leb 4 label_len)) [
  | inr short ↦ rw short tt
  | inl long ↦ rw long (
      Ensures-slice (λ _. Unit {0}) buf pos (pos + 4) _ (omega arith) (ground arith)
        (λ head e. reject_if-Ensures _))
]

abbrev LabelRead : List ℕ → ℕ → List ℕ → Type 0
LabelRead buf end d = IsDomain d × (end ≤ length buf)

read_label-Ensures :
    (buf : List ℕ) (pos label_len : ℕ) (domain : List ℕ) (first_label : Bool)
    → IsDomain domain
    → Ensures (LabelRead buf (pos + label_len)) (read_label buf pos label_len domain first_label)
unfolding read_label
read_label-Ensures buf pos label_len domain first_label v =
    let Q = LabelRead buf (pos + label_len) in
    Ensures-reject_if Q _ _ λ _.
      Ensures-reject_if Q (ltb (length buf) (pos + label_len)) _ λ in_range.
        Ensures->>= IsDomain Q (push_dot domain first_label) _
          (push_dot-Ensures domain first_label v)
          λ d w. Ensures-reject_if Q (ltb max_domain_len (length d + label_len)) _ λ fits.
            Ensures->>= (λ _. Unit {0}) Q (reject_idn buf pos label_len) _
              (reject_idn-Ensures buf pos label_len (ground arith))
              λ _ _.
                Ensures-slice Q buf pos (pos + label_len) _ (omega arith) (ground arith) λ bytes e.
                  Ensures-weaken IsDomain Q (copy_label bytes 0 d)
                    (copy_label-Ensures bytes 0 d (ground arith) w.bytes)
                    (λ d' w'. (w', ground arith))

-- The name, and the position after the root label.
abbrev pub NameRead : List ℕ → ℕ → ℕ × List ℕ → Type 0
NameRead buf pos r = (pos < r.0) × (r.0 ≤ length buf) × IsDomain r.1

pub read_name-Ensures :
    (fuel : ℕ) (buf : List ℕ) (pos : ℕ) (domain : List ℕ) (first_label : Bool)
    → pos ≤ length buf
    → length buf < fuel + pos
    → IsDomain domain
    → Ensures (NameRead buf pos) (read_name fuel buf pos domain first_label)
unfolding read_name
read_name-Ensures zero buf pos domain first_label inside enough v = absurd (omega arith)
read_name-Ensures (suc fuel) buf pos domain first_label inside enough v =
    let Q = NameRead buf pos in
    Ensures-reject_if Q (leb (length buf) pos) _ λ in_range.
      Ensures-index Q buf pos _ (ground arith) λ label_len. elim (Bool-cases (label_len == 0)) [
        | inl root ↦ rw root (omega arith, ground arith, v)
        | inr label ↦ rw label (
            Ensures->>= (LabelRead buf (pos + 1 + label_len)) Q
              (read_label buf (pos + 1) label_len domain first_label) _
              (read_label-Ensures buf (pos + 1) label_len domain first_label v)
              (λ d r.
                Ensures-weaken (NameRead buf (pos + 1 + label_len)) Q
                  (read_name fuel buf (pos + 1 + label_len) d false)
                  (read_name-Ensures fuel buf (pos + 1 + label_len) d false r.1 (omega arith) r.0)
                  (λ r' n. (omega arith, n.1, n.2))))
      ]
