-- ===== src/RateLimit/Subnet.antt =====
-- The bucket key of a client's subnet, subnet_key.rs. An IPv4 address is a number below 2^32 and
-- an IPv6 address one below 2^128; a key is a `u64`.
pub mod Groups
use ferrous_dns.Base.{ℕ, ◌-◌, ◌*◌, ◌/◌, ◌%◌, ◌^◌, min, bit_and, bit_or, ◌==◌, if◌then◌else◌}
use ferrous_dns.Ip.{IpAddr}

abbrev pub v6_tag : ℕ
v6_tag = 2 ^ 63

pub record SubnetGrouping : Type 0 where
  pub v4_shift : ℕ
  pub v6_shift : ℕ
  pub v6_mask : ℕ

unfoldable pub new : ℕ → ℕ → SubnetGrouping
new v4_prefix v6_prefix =
    let v6_bits = min v6_prefix 64 in
    record {
      v4_shift = 32 - min v4_prefix 32;
      v6_shift = min (64 - v6_bits) 63;
      v6_mask = if v6_bits == 0 then 0 else 2 ^ 64 - 1;
    }

unfoldable pub key : SubnetGrouping → IpAddr → ℕ
key g (IpAddr.v4 bits) = bits / 2 ^ g.v4_shift
key g (IpAddr.v6 bits) =
    let high = bits / 2 ^ 64 % 2 ^ 64 in bit_or (bit_and (high / 2 ^ g.v6_shift) g.v6_mask) v6_tag
