-- ===== src/FastPath/Name.antt =====
-- The question name of fast_path.rs: `parse_query` from the first label to the root label.
pub mod Bounds
use ferrous_dns.Base.{
  ℕ, zero, suc, ◌+◌, ◌≤◌, Bool, true, false, not, ◌&&◌, ◌||◌, leb, ltb, ◌==◌, if◌then◌else◌, List,
  [], ◌∷◌, ◌++◌, length, bit_and,
}
use ferrous_dns.Base.Ascii.{codes, to_ascii_lowercase, eq_ignore_ascii_case, is_ascii_alphanumeric}
use ferrous_dns.FastPath.Outcome.{
  Outcome, panic, stuck, reject, ok, ◌>>=◌, ◌>>◌, reject_if, index, slice,
}

abbrev pub max_domain_len : ℕ
max_domain_len = 253

-- `domain_buf[domain_len] = b; domain_len += 1;` on the array of `MAX_DOMAIN_LEN + 1` bytes: the
-- list is its used part.
unfoldable pub push : List ℕ → ℕ → Outcome (List ℕ)
push domain b = if leb (length domain) max_domain_len then ok (domain ++ (b ∷ [])) else panic

unfoldable pub is_unescaped : ℕ → ℕ → Bool
is_unescaped b i =
    is_ascii_alphanumeric b || (b == b'_' || ((b == b'-' && not (i == 0)) || (b == b'*' && i == 0)))

unfoldable pub copy_label : List ℕ → ℕ → List ℕ → Outcome (List ℕ)
copy_label [] i domain = ok domain
copy_label (b ∷ bytes) i domain = do
  reject_if (not (is_unescaped b i))
  domain' ← push domain (to_ascii_lowercase b)
  copy_label bytes (i + 1) domain'

unfoldable pub push_dot : List ℕ → Bool → Outcome (List ℕ)
push_dot domain true = ok domain
push_dot domain false = do reject_if (leb max_domain_len (length domain)); push domain b'.'

unfoldable pub reject_idn : List ℕ → ℕ → ℕ → Outcome (Unit {0})
reject_idn buf pos label_len =
    if leb 4 label_len
    then (do head ← slice buf pos (pos + 4); reject_if (eq_ignore_ascii_case head (codes "xn--")))
    else ok tt

-- One label, whose first byte is at `pos`.
unfoldable pub read_label : List ℕ → ℕ → ℕ → List ℕ → Bool → Outcome (List ℕ)
read_label buf pos label_len domain first_label = do
  reject_if (not (bit_and label_len 0xC0 == 0))
  reject_if (ltb (length buf) (pos + label_len))
  domain' ← push_dot domain first_label
  reject_if (ltb max_domain_len (length domain' + label_len))
  reject_idn buf pos label_len
  bytes ← slice buf pos (pos + label_len)
  copy_label bytes 0 domain'

-- The loop; it returns the position after the root label, and the name.
unfoldable pub read_name : ℕ → List ℕ → ℕ → List ℕ → Bool → Outcome (ℕ × List ℕ)
read_name zero buf pos domain first_label = stuck
read_name (suc fuel) buf pos domain first_label = do
  reject_if (leb (length buf) pos)
  label_len ← index buf pos
  elim (label_len == 0) [
    | true ↦ ok (pos + 1, domain)
    | false ↦ do
      domain' ← read_label buf (pos + 1) label_len domain first_label
      read_name fuel buf (pos + 1 + label_len) domain' false
  ]
