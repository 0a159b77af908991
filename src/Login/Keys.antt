-- ===== src/Login/Keys.antt =====
-- Which clients share a window of login_rate_limiter.rs.
use ferrous_dns.Base.{ℕ, ◌+◌, ◌*◌, ◌/◌, ◌%◌, ◌^◌, ◌<◌, ◌≡◌, ◌↔◌, ap, true, ◌==◌, none, arith}
use ferrous_dns.Base.Bits.{bit_and-high}
use ferrous_dns.Ip.{IpAddr, to_ipv4_mapped, to_canonical}
use ferrous_dns.Login.{mask_prefix, window_key}

abbrev v6_bits : IpAddr → ℕ
v6_bits (IpAddr.v4 bits) = 0
v6_bits (IpAddr.v6 bits) = bits

window_key_v6 :
    (a : ℕ)
    → a < 2 ^ 128
    → to_ipv4_mapped a ≡ none
    → window_key (IpAddr.v6 a) ≡ IpAddr.v6 (a / 2 ^ 64 * 2 ^ 64)
unfolding window_key to_canonical mask_prefix
window_key_v6 a h plain =
    rw (plain, window_key, to_canonical) (ap IpAddr.v6 (bit_and-high 64 64 a h))

-- Two IPv6 clients, neither of them an IPv4-mapped address, share a window exactly when they are in
-- one /64.
pub window_key-eq_iff :
    (a b : ℕ)
    → a < 2 ^ 128
    → b < 2 ^ 128
    → to_ipv4_mapped a ≡ none
    → to_ipv4_mapped b ≡ none
    → (window_key (IpAddr.v6 a) ≡ window_key (IpAddr.v6 b)) ↔ (a / 2 ^ 64 ≡ b / 2 ^ 64)
window_key-eq_iff a b ha hb plain_a plain_b = rw (window_key_v6 a ha plain_a) (
    rw (window_key_v6 b hb plain_b)
      (λ e. cancel (ap v6_bits e), λ e. ap (λ high. IpAddr.v6 (high * 2 ^ 64)) e))
  where
    cancel : a / 2 ^ 64 * 2 ^ 64 ≡ b / 2 ^ 64 * 2 ^ 64 → a / 2 ^ 64 ≡ b / 2 ^ 64
    cancel e = omega arith

-- An IPv4-mapped IPv6 client shares the window of its IPv4 address.
pub window_key-mapped :
    (bits : ℕ)
    → bits < 2 ^ 32
    → window_key (IpAddr.v6 (0xffff * 2 ^ 32 + bits)) ≡ window_key (IpAddr.v4 bits)
unfolding window_key to_canonical to_ipv4_mapped mask_prefix
window_key-mapped bits h =
    let is_mapped : ((0xffff * 2 ^ 32 + bits) / 2 ^ 32 == 0xffff) ≡ true = ground arith in
    let low : (0xffff * 2 ^ 32 + bits) % 2 ^ 32 ≡ bits = omega arith in
    rw (is_mapped, window_key, to_canonical, to_ipv4_mapped) (ap IpAddr.v4 low)
