-- ===== src/ProxyProtocol/RoundTrip.antt =====
-- A header that a proxy writes is read back by proxy_protocol.rs.
use ferrous_dns.Base.Octets.{to_octets, length-to_octets}
use ferrous_dns.Base.{
  ℕ, zero, suc, ◌+◌, ◌*◌, ◌/◌, ◌%◌, ◌^◌, ◌≤◌, ◌<◌, ◌≡◌, ◌∙◌, refl, sym, ap, true, false, leb, ltb,
  some, List, [], ◌∷◌, ◌++◌, length, length-append, take-append, drop-append, arith, Option-cases,
  inl, inr,
}
use ferrous_dns.Base.Ascii.{same_text}
use ferrous_dns.Ip.{IpAddr, to_ipv4_mapped, to_canonical}
use ferrous_dns.ProxyProtocol.{
  client, proxy_v2_signature, family_tcp4, family_tcp6, from_octets, read_exact, first_chunk,
  normalised, extract_source_ip, run_command, with_additional, read_header, with_header,
  max_additional_len, read_proxy_v2_client_ip,
}

from_octets-append :
    (acc b : ℕ) (bs : List ℕ) → from_octets acc (bs ++ (b ∷ [])) ≡ from_octets acc bs * 256 + b
from_octets-append acc b [] = refl
from_octets-append acc b (c ∷ bs) = from_octets-append (acc * 256 + c) b bs

-- A number below `bound`, which `n` octets hold.
abbrev Holds : ℕ → ℕ → Type 0
Holds zero bits = bits ≡ 0
Holds (suc n) bits = Holds n (bits / 256)

from_octets-to_octets : (n bits : ℕ) → Holds n bits → from_octets 0 (to_octets n bits) ≡ bits
from_octets-to_octets zero bits h = sym h
from_octets-to_octets (suc n) bits h =
    from_octets-append 0 (bits % 256) (to_octets n (bits / 256))
    ∙ (let e = from_octets-to_octets n (bits / 256) h in omega (arith, e))

abbrev pub family_of : IpAddr → ℕ
family_of (IpAddr.v4 bits) = family_tcp4
family_of (IpAddr.v6 bits) = family_tcp6

abbrev pub octets_of : IpAddr → List ℕ
octets_of (IpAddr.v4 bits) = to_octets 4 bits
octets_of (IpAddr.v6 bits) = to_octets 16 bits

-- An address in range.
abbrev pub IsAddress : IpAddr → Type 0
IsAddress (IpAddr.v4 bits) = bits < 2 ^ 32
IsAddress (IpAddr.v6 bits) = bits < 2 ^ 128

-- The header of a `PROXY` command: the client's address, and the ports and extensions in `extra`.
abbrev pub encode : IpAddr → List ℕ → List ℕ
encode ip extra =
    let len = length (octets_of ip ++ extra) in
    proxy_v2_signature ++ (0x21 ∷ family_of ip ∷ len / 256 ∷ len % 256 ∷ (octets_of ip ++ extra))

first_chunk-append : (n : ℕ) (xs ys : List ℕ) → length xs ≡ n → first_chunk n (xs ++ ys) ≡ some xs
first_chunk-append n xs ys e =
    let fits : leb (length xs) (length (xs ++ ys)) ≡ true = ground (arith, length-append xs ys) in
    rw (sym e) (rw fits (ap some (take-append xs ys)))

read_exact-append : (xs ys : List ℕ) → read_exact (length xs) (xs ++ ys) ≡ some (xs, ys)
read_exact-append xs ys =
    let fits : leb (length xs) (length (xs ++ ys)) ≡ true = ground (arith, length-append xs ys) in
    rw fits (rw (take-append xs ys) (rw (drop-append xs ys) refl))

normalised_lem : (bits : ℕ) → normalised bits (to_ipv4_mapped bits) ≡ to_canonical (IpAddr.v6 bits)
unfolding to_canonical
normalised_lem bits = elim (Option-cases (to_ipv4_mapped bits)) [
  | inl plain ↦ rw (plain, to_canonical) refl
  | inr (low, e) ↦ rw (e, to_canonical) refl
]

extract-encoded :
    (ip peer : IpAddr) (extra : List ℕ)
    → IsAddress ip
    → extract_source_ip (family_of ip) (octets_of ip ++ extra) peer ≡ to_canonical ip
unfolding extract_source_ip to_canonical
extract-encoded (IpAddr.v4 bits) peer extra h =
    rw (first_chunk-append 4 (to_octets 4 bits) extra (length-to_octets 4 bits))
      (ap IpAddr.v4 (from_octets-to_octets 4 bits (omega arith)))
extract-encoded (IpAddr.v6 bits) peer extra h =
    rw (first_chunk-append 16 (to_octets 16 bits) extra (length-to_octets 16 bits))
      (rw (from_octets-to_octets 16 bits (omega arith)) (normalised_lem bits))

abbrev fixed_header : ℕ → ℕ → ℕ → List ℕ
fixed_header family hi lo = proxy_v2_signature ++ (0x21 ∷ family ∷ hi ∷ lo ∷ [])

read_header-encoded :
    (family hi lo : ℕ) (body : List ℕ) (peer : IpAddr)
    → hi * 256 + lo ≤ max_additional_len
    → (read_header (fixed_header family hi lo) body peer
        ≡ with_additional 1 family peer (read_exact (hi * 256 + lo) body))
unfolding read_header same_text
read_header-encoded family hi lo body peer short =
    let allowed : ltb max_additional_len (hi * 256 + lo) ≡ false = ground arith in
    rw (allowed, read_header) refl

-- The reader finds the client that a proxy wrote, whatever follows the address in the header, and
-- leaves the stream at the byte behind the header; an IPv4-mapped IPv6 client comes out as its
-- IPv4 address. The address is in range, and the header at most as long as the reader allows.
pub read-encode :
    (ip peer : IpAddr) (extra rest : List ℕ)
    → IsAddress ip
    → length (octets_of ip ++ extra) ≤ max_additional_len
    → read_proxy_v2_client_ip (encode ip extra ++ rest) peer ≡ client (to_canonical ip) rest
unfolding read_proxy_v2_client_ip run_command
read-encode ip peer extra rest h short =
    let payload = octets_of ip ++ extra in
    let len = length payload in
    let joined : len / 256 * 256 + len % 256 ≡ len = omega arith in
    let body_read : read_exact (len / 256 * 256 + len % 256) (payload ++ rest)
        ≡ some (payload, rest) =
      rw joined (read_exact-append payload rest) in
    ap (with_header peer)
      (read_exact-append (fixed_header (family_of ip) (len / 256) (len % 256)) (payload ++ rest))
    ∙ read_header-encoded (family_of ip) (len / 256) (len % 256) (payload ++ rest) peer
        (omega (arith, joined))
    ∙ ap (with_additional 1 (family_of ip) peer) body_read
    ∙ ap (λ c. client c rest) (extract-encoded ip peer extra h)
