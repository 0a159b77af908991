-- ===== src/CacheHit/Tests.antt =====
-- The query for `b.c`, type A, with an OPT of 1232 bytes and no option, answered from one address.
use ferrous_dns.Base.{ℕ, zero, suc, ◌≡◌, refl, true, false, none, some, List, [], ◌∷◌, ◌++◌}
use ferrous_dns.Base.Ascii.{
  codes, to_ascii_lowercase, is_ascii_alphanumeric, is_ascii_uppercase, eq_ignore_ascii_case,
  same_text,
}
use ferrous_dns.Ip.{IpAddr}
use ferrous_dns.RecordType.{RecordType}
use ferrous_dns.FastPath.Outcome.{ok, Gives, index, read_u16, slice}
use ferrous_dns.FastPath.Name.{
  copy_label, push, is_unescaped, push_dot, reject_idn, read_label, read_name,
}
use ferrous_dns.FastPath.Options.{is_valid_len, take_cookie, options_loop, parse_opt_options}
use ferrous_dns.FastPath.Additional.{opt_record, additional_record, additionals}
use ferrous_dns.FastPath.Query.{FastPathQuery, FastPathKind, classify, parse_rest, parse_query}
use ferrous_dns.CacheHit.{build_cache_hit_response}
use ferrous_dns.CacheHit.Response.{Answers, build_cache_hit_response_lem}

abbrev packet : List ℕ
packet =
    (0x12 ∷ 0x34 ∷ 1 ∷ 0 ∷ 0 ∷ 1 ∷ 0 ∷ 0 ∷ 0 ∷ 0 ∷ 0 ∷ 1 ∷ [])
    ++ ((1 ∷ b'b' ∷ 1 ∷ b'c' ∷ 0 ∷ 0 ∷ 1 ∷ 0 ∷ 1 ∷ [])
        ++ (0 ∷ 0 ∷ 41 ∷ 4 ∷ 0xd0 ∷ 0 ∷ 0 ∷ 0 ∷ 0 ∷ 0 ∷ 0 ∷ []))

abbrev query : FastPathQuery
query = record {
  id = 0x1234;
  record_type = RecordType.a;
  kind = FastPathKind.ip_address;
  question_end = 21;
  client_max_size = 1232;
  wants_dnssec = false;
  recursion_desired = true;
  checking_disabled = false;
  opt = some (record { cookie = none });
  domain = codes "b.c";
}

parses : parse_query packet ≡ ok query
unfolding parse_query parse_rest read_name read_label push_dot reject_idn copy_label push
    is_unescaped classify additionals additional_record opt_record parse_opt_options options_loop
    take_cookie is_valid_len read_u16 index slice to_ascii_lowercase is_ascii_alphanumeric
    is_ascii_uppercase eq_ignore_ascii_case same_text
parses = refl

abbrev zeros : ℕ → List ℕ
zeros zero = []
zeros (suc n) = 0 ∷ zeros n

build_cache_hit_response_lem_example :
    Gives
      (Answers query packet (IpAddr.v4 0x7f000001 ∷ []) 60 none)
      (build_cache_hit_response query packet (IpAddr.v4 0x7f000001 ∷ []) 60 none (zeros 523))
build_cache_hit_response_lem_example =
    build_cache_hit_response_lem packet query (IpAddr.v4 0x7f000001 ∷ []) 60 none (zeros 523) parses
      refl
