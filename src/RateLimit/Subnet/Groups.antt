-- ===== src/RateLimit/Subnet/Groups.antt =====
-- Which clients share a key of subnet_key.rs.
use ferrous_dns.Base.{
  ℕ, zero, suc, ◌+◌, ◌-◌, ◌/◌, ◌%◌, ◌^◌, ◌≤◌, ◌<◌, ◌≡◌, ◌↔◌, refl, sym, ◌∙◌, min, bit_or, arith,
}
use ferrous_dns.Base.Bits.{
  bit_and-ones, bit_and-zero, bit_or-pow, bit_or-pow_set, zero-bit_or, div_pow-lt, div_div-pow,
}
use native.Mathlib.Nat.{mod-eq_of_lt, le_trans, pow-le-pow_right, div-le_self}
use Prim.Native.Nat.{suc-le-suc}
use ferrous_dns.Base.{false, ◌==◌, dec_lt}
use ferrous_dns.Ip.{IpAddr}
use ferrous_dns.RateLimit.Subnet.{new, key, v6_tag}

high_half : (bits : ℕ) → bits < 2 ^ 128 → bits / 2 ^ 64 % 2 ^ 64 ≡ bits / 2 ^ 64
high_half bits h = mod-eq_of_lt (omega arith)

prefix-lt : (q n bits : ℕ) → q + n ≡ 64 → bits < 2 ^ 128 → bits / 2 ^ (64 + n) < 2 ^ q
prefix-lt q n bits e h =
    div_pow-lt q (64 + n) bits (let d : q + (64 + n) ≡ 128 = omega arith in rw d h)

-- The key of an IPv6 address under a prefix of 1 to 63 bits: the tag, and the prefix.
key_v6 :
    (p q n bits : ℕ)
    → 0 < q
    → 0 < n
    → q + n ≡ 64
    → bits < 2 ^ 128
    → key (new p q) (IpAddr.v6 bits) ≡ bits / 2 ^ (64 + n) + v6_tag
unfolding key new
key_v6 p q n bits hq hn e h =
    let shift : min (64 - min q 64) 63 ≡ n = omega arith in
    let mask : (min q 64 == 0) ≡ false = ground arith in
    rw shift (
      rw mask (
        rw (high_half bits h) (
          rw (div_div-pow 64 n bits) (
            rw (bit_and-ones 64 (bits / 2 ^ (64 + n)) ∙ mod-eq_of_lt small)
              (bit_or-pow 63 _ low)))))
  where
    low : bits / 2 ^ (64 + n) < 2 ^ 63
    low = le_trans (prefix-lt q n bits e h) (pow-le-pow_right (omega arith) {j = 63} (omega arith))

    small : bits / 2 ^ (64 + n) < 2 ^ 64
    small = omega (arith, low)

key_v6_zero : (p bits : ℕ) → key (new p 0) (IpAddr.v6 bits) ≡ v6_tag
unfolding key new
key_v6_zero p bits = rw bit_and-zero (zero-bit_or v6_tag)

tag_or : (x : ℕ) → x < 2 ^ 64 → bit_or x v6_tag ≡ x % 2 ^ 63 + v6_tag
tag_or x h = elim (dec_lt x (2 ^ 63)) [
  | yes low ↦ bit_or-pow 63 x low ∙ omega arith
  | no high ↦ bit_or-pow_set 63 x (omega arith) h ∙ omega arith
]

-- The key of an IPv6 address under a /64: the high half, with its top bit set.
key_v6_full :
    (p q bits : ℕ)
    → 64 ≤ q
    → bits < 2 ^ 128
    → key (new p q) (IpAddr.v6 bits) ≡ bits / 2 ^ 64 % 2 ^ 63 + v6_tag
unfolding key new
key_v6_full p q bits hq h =
    let shift : min (64 - min q 64) 63 ≡ 0 = omega arith in
    let mask : (min q 64 == 0) ≡ false = ground arith in
    rw shift (
      rw mask (
        rw (high_half bits h) (
          rw (bit_and-ones 64 (bits / 2 ^ 64 / 1))
            (tag_or (bits / 2 ^ 64 / 1 % 2 ^ 64) (omega arith) ∙ omega arith))))

abbrev pub IsAddress : IpAddr → Type 0
IsAddress (IpAddr.v4 bits) = bits < 2 ^ 32
IsAddress (IpAddr.v6 bits) = bits < 2 ^ 128

-- Of one family, and with the same prefix.
abbrev pub SameSubnet : ℕ → ℕ → IpAddr → IpAddr → Type 0
SameSubnet p q (IpAddr.v4 a) (IpAddr.v4 b) = a / 2 ^ (32 - p) ≡ b / 2 ^ (32 - p)
SameSubnet p q (IpAddr.v6 a) (IpAddr.v6 b) = a / 2 ^ (128 - q) ≡ b / 2 ^ (128 - q)
SameSubnet p q _ _ = ⊥

v4_key-lt : (p q bits : ℕ) → bits < 2 ^ 32 → key (new p q) (IpAddr.v4 bits) < 2 ^ 32
unfolding key new
v4_key-lt p q bits h = le_trans (suc-le-suc (div-le_self bits (2 ^ (32 - min p 32)))) h

v6_key-ge : (p q bits : ℕ) → q ≤ 63 → bits < 2 ^ 128 → v6_tag ≤ key (new p q) (IpAddr.v6 bits)
v6_key-ge p zero bits hq h = omega (arith, key_v6_zero p bits)
v6_key-ge p (suc q) bits hq h =
    let n = 64 - suc q in
    omega (arith, key_v6 p (suc q) n bits (omega arith) (omega arith) (omega arith) h)

v4_key : (p q bits : ℕ) → p ≤ 32 → key (new p q) (IpAddr.v4 bits) ≡ bits / 2 ^ (32 - p)
unfolding key new
v4_key p q bits h = let e : min p 32 ≡ p = omega arith in rw e refl

v6_iff :
    (p q a b : ℕ)
    → q ≤ 63
    → a < 2 ^ 128
    → b < 2 ^ 128
    → (key (new p q) (IpAddr.v6 a) ≡ key (new p q) (IpAddr.v6 b))
      ↔ (a / 2 ^ (128 - q) ≡ b / 2 ^ (128 - q))
v6_iff p zero a b hq ha hb = (λ e. omega arith, λ e. key_v6_zero p a ∙ sym (key_v6_zero p b))
v6_iff p (suc q) a b hq ha hb =
    let n = 64 - suc q in
    let shift : 128 - suc q ≡ 64 + n = omega arith in
    rw (key_v6 p (suc q) n a (omega arith) (omega arith) (omega arith) ha) (
      rw (key_v6 p (suc q) n b (omega arith) (omega arith) (omega arith) hb)
        (rw shift (λ e. omega arith, λ e. omega arith)))

-- Two clients, their addresses in range, share a bucket exactly when they are of one family and
-- agree on the configured prefix, for an IPv4 prefix of at most 32 bits and an IPv6 prefix of at
-- most 63.
pub key-eq_iff_SameSubnet :
    (p q : ℕ) (a b : IpAddr)
    → p ≤ 32
    → q ≤ 63
    → IsAddress a
    → IsAddress b
    → (key (new p q) a ≡ key (new p q) b) ↔ SameSubnet p q a b
key-eq_iff_SameSubnet p q (IpAddr.v4 a) (IpAddr.v4 b) hp hq ha hb =
    rw (v4_key p q a hp) (rw (v4_key p q b hp) (λ e. e, λ e. e))
key-eq_iff_SameSubnet p q (IpAddr.v4 a) (IpAddr.v6 b) hp hq ha hb =
    (λ e. omega (arith, v4_key-lt p q a ha, v6_key-ge p q b hq hb), λ h. absurd h)
key-eq_iff_SameSubnet p q (IpAddr.v6 a) (IpAddr.v4 b) hp hq ha hb =
    (λ e. omega (arith, v4_key-lt p q b hb, v6_key-ge p q a hq ha), λ h. absurd h)
key-eq_iff_SameSubnet p q (IpAddr.v6 a) (IpAddr.v6 b) hp hq ha hb = v6_iff p q a b hq ha hb

-- Under a prefix of 64 bits or more the tag hides the top bit of an IPv6 address: two networks
-- share a bucket exactly when the other 63 bits of their /64 agree.
pub key-eq_iff_full :
    (p q a b : ℕ)
    → 64 ≤ q
    → a < 2 ^ 128
    → b < 2 ^ 128
    → (key (new p q) (IpAddr.v6 a) ≡ key (new p q) (IpAddr.v6 b))
      ↔ (a / 2 ^ 64 % 2 ^ 63 ≡ b / 2 ^ 64 % 2 ^ 63)
key-eq_iff_full p q a b hq ha hb =
    rw (key_v6_full p q a hq ha) (rw (key_v6_full p q b hq hb) (λ e. omega arith, λ e. omega arith))
