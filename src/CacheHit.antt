-- ===== src/CacheHit.antt =====
-- The answer to a query from cached addresses: `build_cache_hit_response` and what it calls of
-- crates/infrastructure/src/dns/wire_response.rs. The buffer is the list of its bytes, and a slice
-- of it out of range or of another length than the bytes copied into it is a panic.
pub mod Writes
pub mod Message
pub mod Response
pub mod Aging
mod Tests
use ferrous_dns.Base.{
  ℕ, suc, ◌+◌, ◌-◌, ◌%◌, ◌^◌, min, max, Bool, true, false, ◌&&◌, ◌||◌, leb, ltb, ◌==◌,
  if◌then◌else◌, Option, none, some, is_some, List, [], ◌∷◌, ◌++◌, length, take, drop,
}
use ferrous_dns.Base.Octets.{to_octets}
use ferrous_dns.Ip.{IpAddr}
use ferrous_dns.FastPath.Outcome.{Outcome, panic, stuck, reject, ok, ◌>>=◌, ◌>>◌, reject_if, slice}
use ferrous_dns.FastPath.Options.{cookie_option_code}
use ferrous_dns.FastPath.Query.{FastPathQuery}

abbrev pub response_buf_len : ℕ
response_buf_len = 523

abbrev pub opt_record : List ℕ
opt_record = 0 ∷ 0 ∷ 0x29 ∷ 0x10 ∷ 0 ∷ 0 ∷ 0 ∷ 0 ∷ 0 ∷ 0 ∷ 0 ∷ []

abbrev pub has_edns : FastPathQuery → Bool
has_edns query = is_some query.opt

-- `out[i..j].copy_from_slice(bytes)`.
unfoldable pub copy_to : List ℕ → ℕ → ℕ → List ℕ → Outcome (List ℕ)
copy_to out i j bytes =
    if leb i j && (leb j (length out) && length bytes == j - i)
    then ok (take i out ++ (bytes ++ drop j out))
    else panic

abbrev pub address_rr_len : IpAddr → ℕ
address_rr_len (IpAddr.v4 bits) = 16
address_rr_len (IpAddr.v6 bits) = 28

abbrev pub class_in : ℕ
class_in = 1

abbrev pub type_opt : ℕ
type_opt = 41

abbrev pub edns_udp_payload : ℕ
edns_udp_payload = 4096

abbrev pub record_type : IpAddr → ℕ
record_type (IpAddr.v4 bits) = 1
record_type (IpAddr.v6 bits) = 28

abbrev pub record_len : IpAddr → ℕ
record_len (IpAddr.v4 bits) = 4
record_len (IpAddr.v6 bits) = 16

abbrev pub octets : IpAddr → List ℕ
octets (IpAddr.v4 bits) = to_octets 4 bits
octets (IpAddr.v6 bits) = to_octets 16 bits

-- Writes at `out[pos..]`; the buffer and the length written.
unfoldable pub write_address_rr : List ℕ → ℕ → IpAddr → ℕ → Outcome (List ℕ × ℕ)
write_address_rr out pos addr ttl = do
  out ← copy_to out pos (pos + 2) (0xC0 ∷ 0x0C ∷ [])
  out ← copy_to out (pos + 2) (pos + 4) (to_octets 2 (record_type addr))
  out ← copy_to out (pos + 4) (pos + 6) (to_octets 2 class_in)
  out ← copy_to out (pos + 6) (pos + 10) (to_octets 4 ttl)
  out ← copy_to out (pos + 10) (pos + 12) (to_octets 2 (record_len addr))
  out ← copy_to out (pos + 12) (pos + address_rr_len addr) (octets addr)
  ok (out, 12 + record_len addr)

-- `opt_head` with no extended code and DO clear.
abbrev pub opt_head : ℕ → List ℕ
opt_head rdlen =
    0
    ∷ (to_octets 2 type_opt
        ++ (to_octets 2 edns_udp_payload ++ (0 ∷ 0 ∷ 0 ∷ 0 ∷ to_octets 2 rdlen)))

unfoldable pub write_fast_path_opt : List ℕ → ℕ → Option (List ℕ) → Outcome (List ℕ × ℕ)
write_fast_path_opt out pos none = do
  out ← copy_to out pos (pos + length opt_record) opt_record
  ok (out, length opt_record)
write_fast_path_opt out pos (some cookie) = do
  out ← copy_to out pos (pos + 11) (opt_head ((4 + length cookie) % 2 ^ 16))
  out ← copy_to out (pos + 11) (pos + 13) (to_octets 2 cookie_option_code)
  out ← copy_to out (pos + 13) (pos + 15) (to_octets 2 (length cookie % 2 ^ 16))
  out ← copy_to out (pos + 15) (pos + 15 + length cookie) cookie
  ok (out, length opt_record + (4 + length cookie))

abbrev pub answers_size : List IpAddr → ℕ
answers_size [] = 0
answers_size (addr ∷ addresses) = address_rr_len addr + answers_size addresses

abbrev pub opt_size : Bool → Option (List ℕ) → ℕ
opt_size false cookie = 0
opt_size true none = length opt_record
opt_size true (some cookie) = length opt_record + (4 + length cookie)

-- The loop over the addresses.
unfoldable pub write_addresses : List ℕ → ℕ → List IpAddr → ℕ → Outcome (List ℕ × ℕ)
write_addresses out pos [] ttl = ok (out, pos)
write_addresses out pos (addr ∷ addresses) ttl = do
  (out, len) ← write_address_rr out pos addr ttl
  write_addresses out (pos + len) addresses ttl

abbrev pub is_nil : List IpAddr → Bool
is_nil [] = true
is_nil (addr ∷ addresses) = false

abbrev pub bit : Bool → ℕ
bit true = 1
bit false = 0

unfoldable pub write_opt_if : Bool → List ℕ → ℕ → Option (List ℕ) → Outcome (List ℕ × ℕ)
write_opt_if false out pos cookie = ok (out, pos)
write_opt_if true out pos cookie = do
  (out, len) ← write_fast_path_opt out pos cookie
  ok (out, pos + len)

-- `query.question_end - 12` on machine integers.
unfoldable pub checked_sub : ℕ → ℕ → Outcome ℕ
checked_sub a b = if leb b a then ok (a - b) else panic

abbrev pub total_size : FastPathQuery → ℕ → List IpAddr → Option (List ℕ) → ℕ
total_size query question_len addresses cookie =
    12 + question_len + answers_size addresses + opt_size (has_edns query) cookie

abbrev pub too_big : ℕ → ℕ → Bool
too_big max_size size = ltb max_size size || ltb response_buf_len size

-- The buffer after, and the length of the response in it.
unfoldable pub build_cache_hit_response :
    FastPathQuery → List ℕ → List IpAddr → ℕ → Option (List ℕ) → List ℕ → Outcome (List ℕ × ℕ)
build_cache_hit_response query query_buf addresses ttl cookie out = do
  reject_if (is_nil addresses || ltb (length query_buf) query.question_end)
  question_len ← checked_sub query.question_end 12
  reject_if (too_big query.client_max_size (total_size query question_len addresses cookie))
  out ← copy_to out 0 2 (to_octets 2 query.id)
  out ← copy_to out 2 4 (0x81 ∷ 0x80 ∷ [])
  out ← copy_to out 4 6 (to_octets 2 1)
  out ← copy_to out 6 8 (to_octets 2 (length addresses % 2 ^ 16))
  out ← copy_to out 8 10 (to_octets 2 0)
  out ← copy_to out 10 12 (to_octets 2 (bit (has_edns query)))
  question ← slice query_buf 12 query.question_end
  out ← copy_to out 12 (12 + question_len) question
  (out, pos) ← write_addresses out (12 + question_len) addresses ttl
  write_opt_if (has_edns query) out pos cookie

-- `STALE_SERVE_TTL` of crates/infrastructure/src/dns/cache/storage.rs.
abbrev pub stale_serve_ttl : ℕ
stale_serve_ttl = 2

unfoldable pub aged_ttl : ℕ → ℕ → ℕ → ℕ
aged_ttl ttl entry_ttl remaining =
    max (remaining - (entry_ttl - ttl)) (min remaining stale_serve_ttl)
