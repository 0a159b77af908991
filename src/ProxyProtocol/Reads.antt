-- ===== src/ProxyProtocol/Reads.antt =====
-- What proxy_protocol.rs reads of any stream.
use ferrous_dns.Base.{
  ℕ, ◌+◌, ◌*◌, ◌/◌, ◌≤◌, ◌≡◌, ◌∙◌, ◌⊎◌, refl, sym, ap, bit_and, leb, ltb, ◌==◌, Bool-cases, Option,
  none, some, List, [], ◌∷◌, ◌++◌, length, length-append, length-take, take, drop, take-drop, arith,
  Option-cases, inl, inr,
}
use ferrous_dns.Base.Ascii.{same_text}
use ferrous_dns.Ip.{IpAddr, to_ipv4_mapped, to_canonical}
use ferrous_dns.ProxyProtocol.{
  ProxyResult, client, failed, proxy_v2_signature, family_tcp4, family_tcp6, byte, from_octets,
  first_chunk, normalised, v4_or, v6_or, extract_source_ip, run_command, read_header,
  max_additional_len, fixed_header_len, read_proxy_v2_client_ip,
}

-- The peer, or an address that is not an IPv4-mapped one.
abbrev pub PeerOrCanonical : IpAddr → IpAddr → Type 0
PeerOrCanonical peer ip = (ip ≡ peer) ⊎ (to_canonical ip ≡ ip)

-- The part of the stream that was read.
abbrev pub Consumed : ℕ → List ℕ → List ℕ → Type 0
Consumed most stream rest = (used : List ℕ) × (stream ≡ used ++ rest) × (length used ≤ most)

-- What a result says of the stream that was read; `most` bounds the bytes taken.
abbrev pub ReadsFront : ℕ → List ℕ → IpAddr → ProxyResult → Type 0
ReadsFront most stream peer (failed e) = Unit
ReadsFront most stream peer (client ip rest) = PeerOrCanonical peer ip × Consumed most stream rest

normalised-canonical :
    (bits : ℕ)
    → to_canonical (normalised bits (to_ipv4_mapped bits)) ≡ normalised bits (to_ipv4_mapped bits)
unfolding to_canonical
normalised-canonical bits = elim (Option-cases (to_ipv4_mapped bits)) [
  | inl plain ↦ rw plain (rw (plain, to_canonical) refl)
  | inr (low, e) ↦ rw e refl
]

v4_or-PeerOrCanonical :
    (peer : IpAddr) (octets : Option (List ℕ)) → PeerOrCanonical peer (v4_or peer octets)
unfolding to_canonical
v4_or-PeerOrCanonical peer none = inl refl
v4_or-PeerOrCanonical peer (some octets) = inr refl

v6_or-PeerOrCanonical :
    (peer : IpAddr) (octets : Option (List ℕ)) → PeerOrCanonical peer (v6_or peer octets)
v6_or-PeerOrCanonical peer none = inl refl
v6_or-PeerOrCanonical peer (some octets) = inr (normalised-canonical (from_octets 0 octets))

extract-PeerOrCanonical :
    (family : ℕ) (additional : List ℕ) (peer : IpAddr)
    → PeerOrCanonical peer (extract_source_ip family additional peer)
unfolding extract_source_ip
extract-PeerOrCanonical family additional peer = elim (Bool-cases (family == family_tcp4)) [
  | inl is_v4 ↦ rw is_v4 (v4_or-PeerOrCanonical peer (first_chunk 4 additional))
  | inr not_v4 ↦ rw not_v4 (elim (Bool-cases (family == family_tcp6)) [
    | inl is_v6 ↦ rw is_v6 (v6_or-PeerOrCanonical peer (first_chunk 16 additional))
    | inr not_v6 ↦ rw not_v6 (inl refl)
  ])
]

run_command-ReadsFront :
    (command family most : ℕ) (additional stream rest : List ℕ) (peer : IpAddr)
    → Consumed most stream rest
    → ReadsFront most stream peer (run_command command family additional peer rest)
unfolding run_command
run_command-ReadsFront command family most additional stream rest peer used =
    elim (Bool-cases (command == 0)) [
      | inl local ↦ rw local (inl refl, used)
      | inr other ↦ rw other (elim (Bool-cases (command == 1)) [
        | inl proxy ↦ rw proxy (extract-PeerOrCanonical family additional peer, used)
        | inr unknown ↦ rw unknown tt
      ])
    ]

take-Consumed : (n : ℕ) (stream : List ℕ) → Consumed n stream (drop n stream)
take-Consumed n stream =
    (take n stream, sym (take-drop n stream), omega (arith, length-take n stream))

Consumed-trans : (m n : ℕ) (a b c : List ℕ) → Consumed m a b → Consumed n b c → Consumed (m + n) a c
Consumed-trans m n a b c (us, e, p) (vs, f, q) = (
  us ++ vs,
  e ∙ ap (λ t. us ++ t) f ∙ sym (append_assoc us vs c),
  omega (arith, length-append us vs),
)
  where
    append_assoc : (xs ys zs : List ℕ) → (xs ++ ys) ++ zs ≡ xs ++ (ys ++ zs)
    append_assoc [] ys zs = refl
    append_assoc (x ∷ xs) ys zs = ap (λ t. x ∷ t) (append_assoc xs ys zs)

Consumed-weaken : (m n : ℕ) (a b : List ℕ) → m ≤ n → Consumed m a b → Consumed n a b
Consumed-weaken m n a b h (us, e, p) = (us, e, omega arith)

read_header-ReadsFront :
    (header rest stream : List ℕ) (peer : IpAddr)
    → Consumed fixed_header_len stream rest
    → ReadsFront (fixed_header_len + max_additional_len) stream peer (read_header header rest peer)
unfolding read_header
read_header-ReadsFront header rest stream peer used =
    elim (Bool-cases (same_text (take 12 header) proxy_v2_signature)) [
      | inr unsigned ↦ rw unsigned tt
      | inl signed ↦ rw signed (elim (Bool-cases (byte header 12 / 16 == 2)) [
        | inr old ↦ rw old tt
        | inl v2 ↦ rw v2 (elim (Bool-cases (ltb max_additional_len len)) [
          | inl long ↦ rw long tt
          | inr short ↦ rw short (elim (Bool-cases (leb len (length rest))) [
            | inr ended ↦ rw ended tt
            | inl enough ↦ rw enough (
                run_command-ReadsFront (bit_and (byte header 12) 0x0F) (byte header 13) _
                  (take len rest) stream (drop len rest) peer
                  (Consumed-trans fixed_header_len max_additional_len stream rest (drop len rest)
                    used
                    (Consumed-weaken len max_additional_len rest (drop len rest) (ground arith)
                      (take-Consumed len rest))))
          ])
        ])
      ])
    ]
  where
    len : ℕ
    len = byte header 14 * 256 + byte header 15

-- On any stream the reader fails, or it returns the peer's address or one that is not an
-- IPv4-mapped IPv6 address, and has taken at most 552 bytes from the front of the stream.
pub read_proxy_v2_client_ip-ReadsFront :
    (stream : List ℕ) (peer : IpAddr)
    → ReadsFront
        (fixed_header_len + max_additional_len)
        stream
        peer
        (read_proxy_v2_client_ip stream peer)
unfolding read_proxy_v2_client_ip
read_proxy_v2_client_ip-ReadsFront stream peer =
    elim (Bool-cases (leb fixed_header_len (length stream))) [
      | inr ended ↦ rw ended tt
      | inl enough ↦ rw enough (
          read_header-ReadsFront (take fixed_header_len stream) (drop fixed_header_len stream)
            stream peer (take-Consumed fixed_header_len stream))
    ]
