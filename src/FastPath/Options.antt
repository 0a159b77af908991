-- ===== src/FastPath/Options.antt =====
-- The options of an OPT record, `parse_opt_options` of fast_path.rs. The cookie's lengths are from
-- crates/domain/src/value_objects/dns_request.rs.
pub mod Bounds
use ferrous_dns.Base.{
  ℕ, zero, suc, ◌+◌, Bool, true, false, not, ◌&&◌, ◌||◌, leb, ltb, ◌==◌, if◌then◌else◌, Option,
  none, some, List, length,
}
use ferrous_dns.FastPath.Outcome.{Outcome, stuck, ok, ◌>>=◌, ◌>>◌, reject_if, read_u16}

abbrev pub cookie_option_code : ℕ
cookie_option_code = 10

-- `EdnsCookie::is_valid_len`.
unfoldable pub is_valid_len : ℕ → Bool
is_valid_len len = len == 8 || (leb 16 len && leb len 40)

-- Offset and length of the first COOKIE option's data.
pub record QueryOpt : Type 0 where
  pub cookie : Option (ℕ × ℕ)

abbrev pub get_or_insert : Option (ℕ × ℕ) → ℕ × ℕ → Option (ℕ × ℕ)
get_or_insert none c = some c
get_or_insert (some b) c = some b

unfoldable pub take_cookie : ℕ → ℕ → ℕ → Option (ℕ × ℕ) → Outcome (Option (ℕ × ℕ))
take_cookie code at data_len cookie =
    if code == cookie_option_code
    then (do reject_if (not (is_valid_len data_len)); ok (get_or_insert cookie (at, data_len)))
    else ok cookie

unfoldable pub options_loop : ℕ → List ℕ → ℕ → ℕ → Option (ℕ × ℕ) → Outcome QueryOpt
options_loop zero buf at end cookie = stuck
options_loop (suc fuel) buf at end cookie = elim (ltb at end) [
  | false ↦ ok (record { cookie = cookie })
  | true ↦ do
    reject_if (ltb (length buf) (at + 4))
    code ← read_u16 buf at
    data_len ← read_u16 buf (at + 2)
    reject_if (ltb end (at + 4 + data_len))
    cookie' ← take_cookie code (at + 4) data_len cookie
    options_loop fuel buf (at + 4 + data_len) end cookie'
]

-- Each option takes four bytes at least, so `len + 1` rounds are enough.
unfoldable pub parse_opt_options : List ℕ → ℕ → ℕ → Outcome QueryOpt
parse_opt_options buf start len = do
  reject_if (ltb (length buf) (start + len))
  options_loop (suc len) buf start (start + len) none
