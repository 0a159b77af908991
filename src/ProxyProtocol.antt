-- ===== src/ProxyProtocol.antt =====
-- The PROXY Protocol v2 header, crates/infrastructure/src/dns/proxy_protocol.rs. A stream is the list
-- of the bytes that come before its end, and a read returns what is left of it.
pub mod RoundTrip
pub mod Reads
mod Tests
use ferrous_dns.Base.{
  ℕ, zero, suc, ◌+◌, ◌-◌, ◌*◌, ◌/◌, ◌%◌, ◌^◌, bit_and, Bool, true, false, not, ◌&&◌, leb, ltb, ◌==◌,
  if◌then◌else◌, Option, none, some, List, [], ◌∷◌, ◌++◌, length, get_elem?, take, drop,
}
use ferrous_dns.Base.Ascii.{same_text}
use ferrous_dns.Ip.{IpAddr, to_ipv4_mapped}

abbrev pub proxy_v2_signature : List ℕ
proxy_v2_signature = 13 ∷ 10 ∷ 13 ∷ 10 ∷ 0 ∷ 13 ∷ 10 ∷ b'Q' ∷ b'U' ∷ b'I' ∷ b'T' ∷ 10 ∷ []

abbrev pub fixed_header_len : ℕ
fixed_header_len = 16

abbrev pub max_additional_len : ℕ
max_additional_len = 536

abbrev pub family_tcp4 : ℕ
family_tcp4 = 0x11

abbrev pub family_tcp6 : ℕ
family_tcp6 = 0x21

-- `IoError` and the reasons of `InvalidInput`.
pub data ProxyError : Type 0 where
  io_error invalid_signature unsupported_version too_long unknown_command : ProxyError

pub data ProxyResult : Type 0 where
  failed : ProxyError → ProxyResult
  client : IpAddr → List ℕ → ProxyResult

-- `AsyncReadExt::read_exact`.
abbrev pub read_exact : ℕ → List ℕ → Option (List ℕ × List ℕ)
read_exact n stream = if leb n (length stream) then some (take n stream, drop n stream) else none

-- `header[i]`, in range for the array of the fixed length.
abbrev or_zero : Option ℕ → ℕ
or_zero none = 0
or_zero (some b) = b

abbrev pub byte : List ℕ → ℕ → ℕ
byte header i = or_zero (get_elem? header i)

-- The number of an address from its octets.
abbrev pub from_octets : ℕ → List ℕ → ℕ
from_octets acc [] = acc
from_octets acc (b ∷ bs) = from_octets (acc * 256 + b) bs

abbrev pub first_chunk : ℕ → List ℕ → Option (List ℕ)
first_chunk n bytes = if leb n (length bytes) then some (take n bytes) else none

abbrev pub normalised : ℕ → Option ℕ → IpAddr
normalised v6 none = IpAddr.v6 v6
normalised v6 (some v4) = IpAddr.v4 v4

abbrev pub v4_or : IpAddr → Option (List ℕ) → IpAddr
v4_or peer none = peer
v4_or peer (some octets) = IpAddr.v4 (from_octets 0 octets)

abbrev pub v6_or : IpAddr → Option (List ℕ) → IpAddr
v6_or peer none = peer
v6_or peer (some octets) = normalised (from_octets 0 octets) (to_ipv4_mapped (from_octets 0 octets))

unfoldable pub extract_source_ip : ℕ → List ℕ → IpAddr → IpAddr
extract_source_ip family additional peer_addr =
    if family == family_tcp4
    then v4_or peer_addr (first_chunk 4 additional)
    else if family == family_tcp6
    then v6_or peer_addr (first_chunk 16 additional)
    else peer_addr

-- `match command`, with the stream after the header.
unfoldable pub run_command : ℕ → ℕ → List ℕ → IpAddr → List ℕ → ProxyResult
run_command command family additional peer_addr rest =
    if command == 0
    then client peer_addr rest
    else if command == 1
    then client (extract_source_ip family additional peer_addr) rest
    else failed unknown_command

-- A read of no bytes is skipped in the code; it returns no bytes and the stream.
abbrev pub with_additional : ℕ → ℕ → IpAddr → Option (List ℕ × List ℕ) → ProxyResult
with_additional command family peer_addr none = failed io_error
with_additional command family peer_addr (some (additional, rest)) =
    run_command command family additional peer_addr rest

unfoldable pub read_header : List ℕ → List ℕ → IpAddr → ProxyResult
read_header header rest peer_addr =
    if not (same_text (take 12 header) proxy_v2_signature)
    then failed invalid_signature
    else if not (byte header 12 / 16 == 2)
    then failed unsupported_version
    else (let additional_len = byte header 14 * 256 + byte header 15 in
        if ltb max_additional_len additional_len
        then failed too_long
        else with_additional (bit_and (byte header 12) 0x0F) (byte header 13) peer_addr
            (read_exact additional_len rest))

abbrev pub with_header : IpAddr → Option (List ℕ × List ℕ) → ProxyResult
with_header peer_addr none = failed io_error
with_header peer_addr (some (header, rest)) = read_header header rest peer_addr

unfoldable pub read_proxy_v2_client_ip : List ℕ → IpAddr → ProxyResult
read_proxy_v2_client_ip stream peer_addr =
    with_header peer_addr (read_exact fixed_header_len stream)
