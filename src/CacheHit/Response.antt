-- ===== src/CacheHit/Response.antt =====
-- What `build_cache_hit_response` leaves in the buffer, against the message written down part by
-- part, and when it leaves the query to the slow path.
use ferrous_dns.Base.{
  append_assoc, ℕ, ◌+◌, ◌-◌, ◌%◌, ◌^◌, ◌≤◌, min, ◌≡◌, refl, ◌∙◌, Bool, true, false, ◌||◌, leb, ltb,
  Option, List, [], ◌∷◌, ◌++◌, length, take, drop, arith, Bool-cases, inl, inr, length-take,
  length-drop,
}
use ferrous_dns.Base.Octets.{to_octets}
use ferrous_dns.Ip.{IpAddr}
use ferrous_dns.FastPath.Outcome.{
  Outcome, reject, ok, ◌>>=◌, Gives, Gives->>=, Gives-weaken, slice, Ensures-ok,
}
use ferrous_dns.FastPath.Query.{FastPathQuery, parse_query}
use ferrous_dns.FastPath.Safety.{IsQuery, parse_query-Ensures}
use ferrous_dns.CacheHit.{
  response_buf_len, copy_to, answers_size, has_edns, bit, is_nil, total_size, too_big,
  write_addresses, write_opt_if, checked_sub, build_cache_hit_response,
}
use ferrous_dns.CacheHit.Message.{header_bytes, response_bytes, message, length-message}
use ferrous_dns.CacheHit.Writes.{
  Wrote, Gives-copy_to, answer_bytes, opt_bytes, Adds, write_addresses-Adds, write_opt_if-Adds,
  Wrote-equal, flat6,
}

-- A response that fits the client and the buffer, and is the message.
abbrev pub Answers :
    FastPathQuery → List ℕ → List IpAddr → ℕ → Option (List ℕ) → List ℕ × ℕ → Type 0
Answers query query_buf addresses ttl cookie (out, len) =
    (len ≤ min query.client_max_size response_buf_len)
    × (take len out ≡ message query query_buf addresses ttl cookie)

-- A query without addresses to give, or whose response would not fit the client or the buffer, is
-- left to the slow path.
abbrev pub is_deferred : FastPathQuery → List ℕ → List IpAddr → ℕ → Option (List ℕ) → Bool
is_deferred query query_buf addresses ttl cookie =
    let size = length (message query query_buf addresses ttl cookie) in
    is_nil addresses || (ltb query.client_max_size size || ltb response_buf_len size)

-- The tests of the code, on the size that it computes before it writes.
abbrev is_left : FastPathQuery → List IpAddr → Option (List ℕ) → Bool
is_left query addresses cookie =
    is_nil addresses
    || too_big query.client_max_size (total_size query (query.question_end - 12) addresses cookie)

abbrev pub Outcomes : Bool → (List ℕ × ℕ → Type 0) → Outcome (List ℕ × ℕ) → Type 0
Outcomes true P m = m ≡ reject
Outcomes false P m = Gives P m

or_false : (a b : Bool) → (a || b) ≡ false → (a ≡ false) × (b ≡ false)
or_false true b h = absurd (cc)
or_false false b h = (refl, h)

build-Gives :
    (query : FastPathQuery) (query_buf : List ℕ) (addresses : List IpAddr) (ttl : ℕ)
    (cookie : Option (List ℕ)) (out : List ℕ)
    → 12 ≤ query.question_end
    → query.question_end ≤ length query_buf
    → length out ≡ response_buf_len
    → is_left query addresses cookie ≡ false
    → Gives
        (Answers query query_buf addresses ttl cookie)
        (build_cache_hit_response query query_buf addresses ttl cookie out)
unfolding build_cache_hit_response checked_sub slice
build-Gives query query_buf addresses ttl cookie out h held l d =
    let (some_address, fits) = or_false (is_nil addresses) (too_big query.client_max_size size) d in
    let inside : ltb (length query_buf) query.question_end ≡ false = ground arith in
    let client : size ≤ query.client_max_size = ground arith in
    let room : size ≤ response_buf_len = ground arith in
    rw (some_address, inside, below, fits)
      (Gives-copy_to Q out [] (to_octets 2 query.id) 0 2 _ (refl, (l, refl)) refl (omega arith)
        λ o1 w1. Gives-copy_to Q o1 _ (0x81 ∷ 0x80 ∷ []) 2 4 _ w1 refl (omega arith) λ o2 w2.
          Gives-copy_to Q o2 _ (to_octets 2 1) 4 6 _ w2 refl (omega arith) λ o3 w3.
            Gives-copy_to Q o3 _ (to_octets 2 (length addresses % 2 ^ 16)) 6 8 _ w3 refl
              (omega arith)
              λ o4 w4. Gives-copy_to Q o4 _ (to_octets 2 0) 8 10 _ w4 refl (omega arith) λ o5 w5.
                Gives-copy_to Q o5 _ (to_octets 2 (bit (has_edns query))) 10 12 _ w5 refl
                  (omega arith)
                  λ o6 w6. rw (sliced held) (
                    answers o6 held room client (
                      Wrote-equal _ _ _ _
                        (flat6 [] (to_octets 2 query.id) (0x81 ∷ 0x80 ∷ []) (to_octets 2 1)
                          (to_octets 2 (length addresses % 2 ^ 16)) (to_octets 2 0)
                          (to_octets 2 (bit (has_edns query))))
                        w6)))
  where
    Q : List ℕ × ℕ → Type 0
    Q = Answers query query_buf addresses ttl cookie

    size : ℕ
    size = total_size query (query.question_end - 12) addresses cookie

    below : leb 12 query.question_end ≡ true
    below = ground arith

    question : List ℕ
    question = take (query.question_end - 12) (drop 12 query_buf)

    sliced :
        query.question_end ≤ length query_buf → slice query_buf 12 query.question_end ≡ ok question
    sliced k = let t : leb query.question_end (length query_buf) ≡ true = ground arith in rw t refl

    question_len : ℕ
    question_len = query.question_end - 12

    -- The message, as the writes associate it.
    parts : List ℕ
    parts =
        ((header_bytes query addresses ++ question) ++ answer_bytes ttl addresses)
        ++ opt_bytes (has_edns query) cookie

    flat : parts ≡ response_bytes query question addresses ttl cookie
    flat =
        append_assoc (header_bytes query addresses ++ question) (answer_bytes ttl addresses)
          (opt_bytes (has_edns query) cookie)
        ∙ append_assoc (header_bytes query addresses) question
            (answer_bytes ttl addresses ++ opt_bytes (has_edns query) cookie)

    body_of : List ℕ → Outcome (List ℕ × ℕ)
    body_of o = copy_to o 12 (12 + question_len) question >>= λ out.
        write_addresses out (12 + question_len) addresses ttl >>= λ r.
        write_opt_if (has_edns query) r.0 r.1 cookie

    question_fits : query.question_end ≤ length query_buf → 12 + length question ≡ 12 + question_len
    question_fits k =
        omega (arith, k, h, length-take question_len (drop 12 query_buf), length-drop 12 query_buf)

    written :
        (o : List ℕ)
        → query.question_end ≤ length query_buf
        → size ≤ response_buf_len
        → Wrote 12 (header_bytes query addresses) o
        → Gives (Adds size parts) (body_of o)
    written o held room w =
        Gives-copy_to (Adds size parts) o (header_bytes query addresses) question 12
          (12 + question_len) _ w (question_fits held) (omega (arith, room))
          λ o7 w7.
            Gives->>= _ (Adds size parts) (write_addresses o7 (12 + question_len) addresses ttl) _
              (write_addresses-Adds addresses o7 _ (12 + question_len) ttl w7 (omega (arith, room)))
              λ r s. rw s.0 (
                write_opt_if-Adds (has_edns query) cookie r.0 _
                  (12 + question_len + answers_size addresses) s.1 room)

    answers :
        (o : List ℕ)
        → query.question_end ≤ length query_buf
        → size ≤ response_buf_len
        → size ≤ query.client_max_size
        → Wrote 12 (header_bytes query addresses) o
        → Gives Q (body_of o)
    answers o held room client w =
        Gives-weaken (Adds size parts) Q (body_of o) (written o held room w)
          λ r s. (rw s.0 (omega (arith, room, client)), rw s.0 (s.1.0 ∙ flat))

build_defers :
    (query : FastPathQuery) (query_buf : List ℕ) (addresses : List IpAddr) (ttl : ℕ)
    (cookie : Option (List ℕ)) (out : List ℕ)
    → 12 ≤ query.question_end
    → is_left query addresses cookie ≡ true
    → build_cache_hit_response query query_buf addresses ttl cookie out ≡ reject
unfolding build_cache_hit_response checked_sub
build_defers query query_buf addresses ttl cookie out h d =
    let below : leb 12 query.question_end ≡ true = ground arith in
    elim (Bool-cases (is_nil addresses || ltb (length query_buf) query.question_end)) [
      | inl e ↦ rw e refl
      | inr e ↦
          let parts = or_false (is_nil addresses) (ltb (length query_buf) query.question_end) e in
          let big : too_big query.client_max_size
                (total_size query (query.question_end - 12) addresses cookie)
              ≡ true =
            rw parts.0 at d in
          rw (e, below, big) refl
    ]

-- For every packet that `parse_query` accepts and whatever the buffer held before, the answer from
-- cached addresses does not panic. It is left to the slow path exactly when there is no address or
-- when the whole message is longer than the client's size or the buffer; otherwise the first bytes of
-- the buffer are that message, which is the header, the question of the packet, a record for each
-- address in order, and the OPT with the cookie, and they are no more than the client or the buffer
-- can take.
pub build_cache_hit_response_lem :
    (packet : List ℕ) (query : FastPathQuery) (addresses : List IpAddr) (ttl : ℕ)
    (cookie : Option (List ℕ)) (out : List ℕ)
    → parse_query packet ≡ ok query
    → length out ≡ response_buf_len
    → Outcomes
        (is_deferred query packet addresses ttl cookie)
        (Answers query packet addresses ttl cookie)
        (build_cache_hit_response query packet addresses ttl cookie out)
build_cache_hit_response_lem packet query addresses ttl cookie out e l =
    let v : IsQuery packet query =
      Ensures-ok (IsQuery packet) (parse_query packet) e (parse_query-Ensures packet) in
    let after_header : 12 ≤ query.question_end = omega (arith, v.question_starts) in
    let same : is_deferred query packet addresses ttl cookie ≡ is_left query addresses cookie =
      rw (length-message query packet addresses ttl cookie after_header v.question_ends) refl in
    elim (Bool-cases (is_left query addresses cookie)) [
      | inl d ↦ rw (same ∙ d) (build_defers query packet addresses ttl cookie out after_header d)
      | inr d ↦
          rw (same ∙ d)
            (build-Gives query packet addresses ttl cookie out after_header v.question_ends l d)
    ]
