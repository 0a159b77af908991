-- ===== src/Ip.antt =====
-- `std::net::IpAddr`, an address as the number of its bits, with what the program uses of it.
use ferrous_dns.Base.{ℕ, ◌/◌, ◌%◌, ◌^◌, ◌==◌, if◌then◌else◌, Option, none, some, ℕ_discrete}

pub data IpAddr : Type 0 where
  v4 : ℕ → IpAddr
  v6 : ℕ → IpAddr

unfoldable pub IpAddr-discrete : Discrete IpAddr
unfolding ℕ_discrete
IpAddr-discrete = hlevel ℕ_discrete

-- `Ipv6Addr::to_ipv4_mapped`: the last 32 bits of `::ffff:a.b.c.d`.
unfoldable pub to_ipv4_mapped : ℕ → Option ℕ
to_ipv4_mapped bits = if bits / 2 ^ 32 == 0xffff then some (bits % 2 ^ 32) else none

-- `IpAddr::to_canonical`.
unfoldable pub to_canonical : IpAddr → IpAddr
unfolding to_ipv4_mapped
to_canonical (IpAddr.v4 bits) = IpAddr.v4 bits
to_canonical (IpAddr.v6 bits) = elim (to_ipv4_mapped bits) [
  | none ↦ IpAddr.v6 bits
  | some low ↦ IpAddr.v4 low
]
