-- ===== src/FastPath/Options/Bounds.antt =====
-- The cookie that `parse_opt_options` of fast_path.rs finds lies in the packet.
use ferrous_dns.Base.{
  ℕ, zero, suc, ◌+◌, ◌≤◌, ◌<◌, ◌≡◌, true, not, ltb, ◌==◌, Option, none, some, List, length, arith,
  Bool-cases, inl, inr,
}
use ferrous_dns.FastPath.Outcome.{Ensures, Ensures->>=, Ensures-reject_if, Ensures-read_u16}
use ferrous_dns.FastPath.Options.{
  cookie_option_code, is_valid_len, QueryOpt, get_or_insert, take_cookie, options_loop,
  parse_opt_options,
}

-- A cookie has a length that RFC 7873 allows, and its data ends within the packet.
abbrev pub CookieInside : List ℕ → Option (ℕ × ℕ) → Type 0
CookieInside buf none = Unit
CookieInside buf (some (start, len)) = (start + len ≤ length buf) × (is_valid_len len ≡ true)

abbrev pub OptInside : List ℕ → Option QueryOpt → Type 0
OptInside buf none = Unit
OptInside buf (some o) = CookieInside buf o.cookie

get_or_insert-CookieInside :
    (buf : List ℕ) (cookie : Option (ℕ × ℕ)) (c : ℕ × ℕ)
    → CookieInside buf cookie
    → CookieInside buf (some c)
    → CookieInside buf (get_or_insert cookie c)
get_or_insert-CookieInside buf none c h k = k
get_or_insert-CookieInside buf (some b) c h k = h

take_cookie-Ensures :
    (buf : List ℕ) (code at data_len : ℕ) (cookie : Option (ℕ × ℕ))
    → at + data_len ≤ length buf
    → CookieInside buf cookie
    → Ensures (CookieInside buf) (take_cookie code at data_len cookie)
unfolding take_cookie
take_cookie-Ensures buf code at data_len cookie inside h =
    elim (Bool-cases (code == cookie_option_code)) [
      | inr other ↦ rw other h
      | inl is_cookie ↦ rw is_cookie (
          Ensures-reject_if (CookieInside buf) (not (is_valid_len data_len)) _
            λ valid. get_or_insert-CookieInside buf cookie (at, data_len) h (inside, ground arith))
    ]

options_loop-Ensures :
    (fuel : ℕ) (buf : List ℕ) (at end : ℕ) (cookie : Option (ℕ × ℕ))
    → at ≤ end
    → end < fuel + at
    → end ≤ length buf
    → CookieInside buf cookie
    → Ensures (λ o. CookieInside buf o.cookie) (options_loop fuel buf at end cookie)
unfolding options_loop
options_loop-Ensures zero buf at end cookie before enough inside h = absurd (omega arith)
options_loop-Ensures (suc fuel) buf at end cookie before enough inside h =
    let Q : QueryOpt → Type 0 = λ o. CookieInside buf o.cookie in
    elim (Bool-cases (ltb at end)) [
      | inr done ↦ rw (done, Ensures, options_loop) h
      | inl more ↦
          rw (more, Ensures, options_loop)
            (Ensures-reject_if Q (ltb (length buf) (at + 4)) _ λ header.
              Ensures-read_u16 Q buf at _ (ground arith) λ code.
                Ensures-read_u16 Q buf (at + 2) _ (ground arith) λ data_len.
                  Ensures-reject_if Q (ltb end (at + 4 + data_len)) _ λ fits.
                    Ensures->>= (CookieInside buf) Q (take_cookie code (at + 4) data_len cookie) _
                      (take_cookie-Ensures buf code (at + 4) data_len cookie (ground arith) h)
                      λ cookie' h'.
                        options_loop-Ensures fuel buf (at + 4 + data_len) end cookie' (ground arith)
                          (omega arith) inside h')
    ]

pub parse_opt_options-Ensures :
    (buf : List ℕ) (start len : ℕ)
    → Ensures (λ o. CookieInside buf o.cookie) (parse_opt_options buf start len)
unfolding parse_opt_options
parse_opt_options-Ensures buf start len =
    Ensures-reject_if (λ o. CookieInside buf o.cookie) (ltb (length buf) (start + len)) _
      λ inside.
        options_loop-Ensures (suc len) buf start (start + len) none (omega arith) (omega arith)
          (ground arith) tt
