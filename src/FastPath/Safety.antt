-- ===== src/FastPath/Safety.antt =====
-- `parse_query` of fast_path.rs on any packet.
use ferrous_dns.Base.{
  ℕ, zero, suc, ◌+◌, ◌-◌, ◌≤◌, ◌<◌, ◌≡◌, true, not, ◌||◌, leb, ltb, ◌==◌, some, is_some, List, [],
  length, bit_and, arith, Bool-cases, Option-cases, inl, inr,
}
use ferrous_dns.FastPath.Outcome.{
  ok, slice, Ensures, Ensures->>=, Ensures-weaken, Ensures-reject_if, Ensures-index,
  Ensures-read_u16, slice-Ensures, Ensures-ok,
}
use ferrous_dns.FastPath.Name.{read_name}
use ferrous_dns.FastPath.Name.Bounds.{IsDomain, NameRead, read_name-Ensures}
use ferrous_dns.FastPath.Options.{is_valid_len, parse_opt_options}
use ferrous_dns.FastPath.Options.Bounds.{CookieInside, OptInside, parse_opt_options-Ensures}
use ferrous_dns.FastPath.Additional.{
  Additional, is_valid_edns_version, opt_record, other_record, additional_record, additionals,
}
use ferrous_dns.FastPath.Query.{
  FastPathQuery, classify, parse_rest, parse_query, question, question_name, edns_cookie,
}

pub record Sound (buf : List ℕ) (s : Additional) : Type 0 where
  pub size : 512 ≤ s.client_max_size
  pub cookie : OptInside buf s.opt

opt_record-Ensures :
    (buf : List ℕ) (pos : ℕ) (s : Additional)
    → pos + 7 ≤ length buf
    → Ensures (Sound buf) (opt_record buf pos s)
unfolding opt_record
opt_record-Ensures buf pos s h =
    let Q = Sound buf in
    Ensures-reject_if Q (is_some s.opt) _ λ _.
      Ensures-read_u16 Q buf pos _ (omega arith) λ udp_size.
        Ensures-reject_if Q (ltb (length buf) (pos + 2 + 4)) _ λ header.
          Ensures-index Q buf (pos + 2 + 1) _ (ground arith) λ version.
            Ensures-reject_if Q (not (is_valid_edns_version version)) _ λ _.
              Ensures-read_u16 Q buf (pos + 2 + 2) _ (ground arith) λ do_flags.
                Ensures-reject_if Q (ltb (length buf) (pos + 6 + 2)) _ λ room.
                  Ensures-read_u16 Q buf (pos + 6) _ (ground arith) λ rdlen.
                    Ensures->>= (λ o. CookieInside buf o.cookie) Q
                      (parse_opt_options buf (pos + 6 + 2) rdlen) _
                      (parse_opt_options-Ensures buf (pos + 6 + 2) rdlen)
                      λ o inside. record { size = omega arith; cookie = inside }

other_record-Ensures :
    (buf : List ℕ) (pos : ℕ) (s : Additional)
    → Sound buf s
    → Ensures (Sound buf) (other_record buf pos s)
unfolding other_record
other_record-Ensures buf pos s v =
    let Q = Sound buf in
    Ensures-reject_if Q (ltb (length buf) (pos + 6 + 2)) _ λ room.
      Ensures-read_u16 Q buf (pos + 6) _ (ground arith)
        λ rdlen. record { size = v.size; cookie = v.cookie }

additional_record-Ensures :
    (buf : List ℕ) (s : Additional)
    → s.ar_pos < length buf
    → Sound buf s
    → Ensures (Sound buf) (additional_record buf s)
unfolding additional_record
additional_record-Ensures buf s h v =
    let Q = Sound buf in
    Ensures-index Q buf s.ar_pos _ h λ root. Ensures-reject_if Q (not (root == 0)) _ λ _.
      Ensures-reject_if Q (ltb (length buf) (s.ar_pos + 1 + 9)) _ λ room.
        Ensures-read_u16 Q buf (s.ar_pos + 1) _ (ground arith) λ rr_type.
          elim (Bool-cases (rr_type == 41)) [
            | inl is_opt ↦ rw is_opt (opt_record-Ensures buf (s.ar_pos + 3) s (ground arith))
            | inr other ↦ rw other (other_record-Ensures buf (s.ar_pos + 3) s v)
          ]

additionals-Ensures :
    (n : ℕ) (buf : List ℕ) (s : Additional)
    → Sound buf s
    → Ensures (Sound buf) (additionals n buf s)
unfolding additionals
additionals-Ensures zero buf s v = v
additionals-Ensures (suc n) buf s v = elim (Bool-cases (leb (length buf) s.ar_pos)) [
  | inl done ↦ rw (done, Ensures, additionals) v
  | inr more ↦
      rw (more, Ensures, additionals)
        (Ensures->>= (Sound buf) (Sound buf) (additional_record buf s) _
          (additional_record-Ensures buf s (ground arith) v)
          (λ s' v'. additionals-Ensures n buf s' v'))
]

-- What every query that the parser returns satisfies.
pub record IsQuery (buf : List ℕ) (q : FastPathQuery) : Type 0 where
  pub name : IsDomain q.domain
  pub question_starts : 17 ≤ q.question_end
  pub question_ends : q.question_end ≤ length buf
  pub size : 512 ≤ q.client_max_size
  pub cookie : OptInside buf q.opt

classify-Ensures : (qtype : ℕ) → Ensures (λ _. Unit {0}) (classify qtype)
unfolding classify
classify-Ensures qtype = ground arith

parse_rest-Ensures :
    (buf : List ℕ) (id flags arcount pos : ℕ) (domain : List ℕ)
    → 12 < pos
    → IsDomain domain
    → Ensures (IsQuery buf) (parse_rest buf id flags arcount pos domain)
unfolding parse_rest
parse_rest-Ensures buf id flags arcount pos domain h v =
    let Q = IsQuery buf in
    Ensures-reject_if Q (ltb (length buf) (pos + 4)) _ λ room.
      Ensures-read_u16 Q buf pos _ (ground arith) λ qtype.
        Ensures-read_u16 Q buf (pos + 2) _ (ground arith) λ qclass.
          Ensures-reject_if Q (not (qclass == 1)) _ λ _.
            Ensures->>= (λ _. Unit {0}) Q (classify qtype) _ (classify-Ensures qtype)
              λ kind _.
                Ensures->>= (Sound buf) Q (additionals arcount buf _) _
                  (additionals-Ensures arcount buf _ (record { size = omega arith; cookie = tt }))
                  λ ar w. record {
                    name = v;
                    question_starts = omega arith;
                    question_ends = ground arith;
                    size = w.size;
                    cookie = w.cookie;
                  }

-- On every packet the parser returns: it never indexes or slices out of range, never overruns the
-- array of the name, and its loops end. A query that it returns has a name of at most 253 bytes,
-- all of them lower-case letters, digits, `_`, `-`, `*` or `.`, a question that ends within the
-- packet, a client size of at least 512, and a COOKIE, if it has one, of a valid length within
-- the packet.
pub parse_query-Ensures : (buf : List ℕ) → Ensures (IsQuery buf) (parse_query buf)
unfolding parse_query
parse_query-Ensures buf =
    let Q = IsQuery buf in
    Ensures-reject_if Q (ltb (length buf) 17) _ λ long.
      Ensures-read_u16 Q buf 0 _ (ground arith) λ id.
        Ensures-read_u16 Q buf 2 _ (ground arith) λ flags.
          Ensures-reject_if Q (not (bit_and flags 0xF800 == 0)) _ λ _.
            Ensures-read_u16 Q buf 4 _ (ground arith) λ qdcount.
              Ensures-read_u16 Q buf 6 _ (ground arith) λ ancount.
                Ensures-read_u16 Q buf 8 _ (ground arith) λ nscount.
                  Ensures-read_u16 Q buf 10 _ (ground arith) λ arcount.
                    Ensures-reject_if Q
                      (not (qdcount == 1) || (not (ancount == 0) || not (nscount == 0))) _
                      λ _.
                        Ensures->>= (NameRead buf 12) Q
                          (read_name (suc (length buf)) buf 12 [] true) _
                          (read_name-Ensures (suc (length buf)) buf 12 [] true (ground arith)
                            (omega arith) (record { fits = omega arith; bytes = tt }))
                          λ r n. parse_rest-Ensures buf id flags arcount r.0 r.1 n.0 n.2

add_sub : (a b : ℕ) → a + b - a ≡ b
add_sub a b = omega arith

edns_cookie-Ensures :
    (buf : List ℕ) (q : FastPathQuery)
    → OptInside buf q.opt
    → Ensures (λ s. is_valid_len (length s) ≡ true) (edns_cookie q buf)
unfolding edns_cookie
edns_cookie-Ensures buf q h = elim (Option-cases q.opt) [
  | inl absent ↦ rw (absent, Ensures, edns_cookie) tt
  | inr (o, present) ↦
      let inside : CookieInside buf o.cookie = rw present at h in
      elim (Option-cases o.cookie) [
        | inl absent ↦ rw (present, absent, Ensures, edns_cookie) tt
        | inr ((start, len), noted) ↦
            let (room, valid) : CookieInside buf (some (start, len)) = rw noted at inside in
            rw (present, noted, Ensures, edns_cookie)
              (Ensures-reject_if (λ s. is_valid_len (length s) ≡ true)
                (ltb (length buf) (start + len)) _
                λ _.
                  Ensures-weaken (λ s. length s ≡ start + len - start)
                    (λ s. is_valid_len (length s) ≡ true) (slice buf start (start + len))
                    (slice-Ensures buf start (start + len) (omega arith) room)
                    (λ s e. rw (e, add_sub start len) valid))
      ]
]

-- The accessors of a query never panic on the packet that it was parsed from: the question has the
-- bytes of the packet from the header to the question's end in number, its name four fewer, and a
-- COOKIE that is returned has a valid length.
pub accessors-return :
    (buf : List ℕ) (q : FastPathQuery)
    → parse_query buf ≡ ok q
    → Ensures (λ s. length s + 12 ≡ q.question_end) (question q buf)
      × Ensures (λ s. length s + 16 ≡ q.question_end) (question_name q buf)
      × Ensures (λ s. is_valid_len (length s) ≡ true) (edns_cookie q buf)
unfolding question question_name
accessors-return buf q e =
    let v = Ensures-ok (IsQuery buf) (parse_query buf) e (parse_query-Ensures buf) in
    (
      Ensures-weaken (λ s. length s ≡ q.question_end - 12) (λ s. length s + 12 ≡ q.question_end)
          (slice buf 12 q.question_end)
          (slice-Ensures buf 12 q.question_end (omega (arith, v.question_starts)) v.question_ends)
          (λ s d. omega (arith, d, v.question_starts)),
      Ensures-weaken (λ s. length s ≡ q.question_end - 4 - 12) (λ s. length s + 16 ≡ q.question_end)
          (slice buf 12 (q.question_end - 4))
          (slice-Ensures buf 12 (q.question_end - 4) (omega (arith, v.question_starts))
            (omega (arith, v.question_ends)))
          (λ s d. omega (arith, d, v.question_starts)),
      edns_cookie-Ensures buf q v.cookie,
    )
