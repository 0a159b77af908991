-- ===== src/FastPath/Tests.antt =====
-- The tests of fast_path.rs, and its theorems at a packet with a COOKIE.
use ferrous_dns.Base.{ℕ, ◌+◌, ◌≡◌, refl, true, false, some, List, [], ◌∷◌, ◌++◌, length}
use ferrous_dns.Base.Ascii.{
  codes, to_ascii_lowercase, is_ascii_alphanumeric, is_ascii_uppercase, eq_ignore_ascii_case,
  same_text,
}
use ferrous_dns.RecordType.{RecordType}
use ferrous_dns.FastPath.Outcome.{reject, ok, Ensures, slice, index, read_u16}
use ferrous_dns.FastPath.Name.{
  read_name, read_label, push_dot, reject_idn, copy_label, push, is_unescaped,
}
use ferrous_dns.FastPath.Additional.{additionals, additional_record, opt_record}
use ferrous_dns.FastPath.Options.{is_valid_len, parse_opt_options, options_loop, take_cookie}
use ferrous_dns.FastPath.Query.{
  FastPathKind, FastPathQuery, parse_query, parse_rest, classify, question, question_name,
  edns_cookie,
}
use ferrous_dns.FastPath.Safety.{IsQuery, parse_query-Ensures, accessors-return}

-- The query for `Ab.c`, type A, with one additional record.
abbrev header : List ℕ
header = 0x12 ∷ 0x34 ∷ 1 ∷ 0 ∷ 0 ∷ 1 ∷ 0 ∷ 0 ∷ 0 ∷ 0 ∷ 0 ∷ 1 ∷ []

abbrev name_and_type : List ℕ
name_and_type = 2 ∷ b'A' ∷ b'b' ∷ 1 ∷ b'c' ∷ 0 ∷ 0 ∷ 1 ∷ 0 ∷ 1 ∷ []

abbrev opt_header : List ℕ
opt_header = 0 ∷ 0 ∷ 41 ∷ 4 ∷ 0xd0 ∷ 0 ∷ 0 ∷ 0x80 ∷ 0 ∷ 0 ∷ 12 ∷ 0 ∷ 10 ∷ 0 ∷ 8 ∷ []

abbrev cookie_data : List ℕ
cookie_data = 1 ∷ 2 ∷ 3 ∷ 4 ∷ 5 ∷ 6 ∷ 7 ∷ 8 ∷ []

abbrev packet : List ℕ
packet = header ++ (name_and_type ++ (opt_header ++ cookie_data))

abbrev parsed : FastPathQuery
parsed = record {
  id = 0x1234;
  record_type = RecordType.a;
  kind = FastPathKind.ip_address;
  question_end = 22;
  client_max_size = 1232;
  wants_dnssec = true;
  recursion_desired = true;
  checking_disabled = false;
  opt = some (record { cookie = some (37, 8) });
  domain = codes "ab.c";
}

parses : parse_query packet ≡ ok parsed
unfolding parse_query parse_rest read_name read_label push_dot reject_idn copy_label push
    is_unescaped classify additionals additional_record opt_record parse_opt_options options_loop
    take_cookie is_valid_len read_u16 index slice to_ascii_lowercase is_ascii_alphanumeric
    is_ascii_uppercase eq_ignore_ascii_case same_text
parses = refl

-- The packet is cut within the cookie.
cut_short : parse_query (header ++ (name_and_type ++ opt_header)) ≡ reject
unfolding parse_query parse_rest read_name read_label push_dot reject_idn copy_label push
    is_unescaped classify additionals additional_record opt_record parse_opt_options options_loop
    take_cookie is_valid_len read_u16 index slice to_ascii_lowercase is_ascii_alphanumeric
    is_ascii_uppercase eq_ignore_ascii_case same_text
cut_short = refl

cookie_found : edns_cookie parsed packet ≡ ok cookie_data
unfolding edns_cookie slice
cookie_found = refl

parse_query-Ensures_example : Ensures (IsQuery packet) (parse_query packet)
parse_query-Ensures_example = parse_query-Ensures packet

accessors-return_example :
    Ensures (λ s. length s + 12 ≡ 22) (question parsed packet)
    × Ensures (λ s. length s + 16 ≡ 22) (question_name parsed packet)
    × Ensures (λ s. is_valid_len (length s) ≡ true) (edns_cookie parsed packet)
accessors-return_example = accessors-return packet parsed parses
