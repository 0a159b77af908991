-- ===== src/CacheHit/Message.antt =====
-- The whole response written down part by part, and its length.
use ferrous_dns.Base.{
  ℕ, ◌-◌, ◌%◌, ◌^◌, ◌≤◌, ◌≡◌, refl, Bool, true, false, Option, none, some, List, [], ◌∷◌, ◌++◌,
  length, take, drop, arith, length-take, length-drop, length-append,
}
use ferrous_dns.Base.Octets.{to_octets}
use ferrous_dns.Ip.{IpAddr}
use ferrous_dns.FastPath.Query.{FastPathQuery}
use ferrous_dns.CacheHit.{answers_size, address_rr_len, opt_size, has_edns, bit, total_size}
use ferrous_dns.CacheHit.Writes.{answer_bytes, record_bytes, opt_bytes}

-- The header: the ID, QR, RD and RA, one question, the answers, no authority, the OPT if any.
abbrev pub header_bytes : FastPathQuery → List IpAddr → List ℕ
header_bytes query addresses =
    to_octets 2 query.id
    ++ (0x81
        ∷ 0x80
        ∷ (to_octets 2 1
            ++ (to_octets 2 (length addresses % 2 ^ 16)
                ++ (to_octets 2 0 ++ to_octets 2 (bit (has_edns query))))))

abbrev pub response_bytes : FastPathQuery → List ℕ → List IpAddr → ℕ → Option (List ℕ) → List ℕ
response_bytes query question addresses ttl cookie =
    header_bytes query addresses
    ++ (question ++ (answer_bytes ttl addresses ++ opt_bytes (has_edns query) cookie))

-- The response to the packet that a query was parsed from.
abbrev pub message : FastPathQuery → List ℕ → List IpAddr → ℕ → Option (List ℕ) → List ℕ
message query query_buf addresses ttl cookie =
    response_bytes query (take (query.question_end - 12) (drop 12 query_buf)) addresses ttl cookie

length-record_bytes :
    (ttl : ℕ) (addr : IpAddr) → length (record_bytes ttl addr) ≡ address_rr_len addr
length-record_bytes ttl (IpAddr.v4 bits) = refl
length-record_bytes ttl (IpAddr.v6 bits) = refl

length-answer_bytes :
    (ttl : ℕ) (addresses : List IpAddr)
    → length (answer_bytes ttl addresses) ≡ answers_size addresses
length-answer_bytes ttl [] = refl
length-answer_bytes ttl (addr ∷ addresses) = omega (
  arith,
  length-append (record_bytes ttl addr) (answer_bytes ttl addresses),
  length-record_bytes ttl addr,
  length-answer_bytes ttl addresses,
)

length-opt_bytes :
    (b : Bool) (cookie : Option (List ℕ)) → length (opt_bytes b cookie) ≡ opt_size b cookie
length-opt_bytes false cookie = refl
length-opt_bytes true none = refl
length-opt_bytes true (some cookie) = omega arith

pub length-message :
    (query : FastPathQuery) (query_buf : List ℕ) (addresses : List IpAddr) (ttl : ℕ)
    (cookie : Option (List ℕ))
    → 12 ≤ query.question_end
    → query.question_end ≤ length query_buf
    → length (message query query_buf addresses ttl cookie)
      ≡ total_size query (query.question_end - 12) addresses cookie
length-message query query_buf addresses ttl cookie h held =
    let question = take (query.question_end - 12) (drop 12 query_buf) in
    let answers = answer_bytes ttl addresses in
    let opt = opt_bytes (has_edns query) cookie in
    let header : length (header_bytes query addresses) ≡ 12 = refl in
    omega (
      arith,
      h,
      held,
      header,
      length-append (header_bytes query addresses) (question ++ (answers ++ opt)),
      length-append question (answers ++ opt),
      length-append answers opt,
      length-take (query.question_end - 12) (drop 12 query_buf),
      length-drop 12 query_buf,
      length-answer_bytes ttl addresses,
      length-opt_bytes (has_edns query) cookie,
    )
