-- ===== src/Connections.antt =====
-- The limit on concurrent stream connections of an address,
-- crates/cli/src/server/dns/connection_limiter.rs.
pub mod Threads
pub mod Invariant
pub mod Limit
mod Tests
use ferrous_dns.Base.{
  ℕ, ◌+◌, ◌-◌, ◌%◌, ◌^◌, Bool, true, false, leb, ◌==◌, if◌then◌else◌, Option, none, some, List, [],
}
use ferrous_dns.Base.Dict
use ferrous_dns.Ip.{IpAddr, IpAddr-discrete}

abbrev pub Counts : Type 0
Counts = List (IpAddr × ℕ)

pub record ConnectionLimiter : Type 0 where
  pub counts : Counts
  pub max_per_ip : ℕ

-- The address whose slot the guard holds; none in unlimited mode.
pub data ConnectionGuard : Type 0 where
  unlimited : ConnectionGuard
  slot : IpAddr → ConnectionGuard

unfoldable pub new : ℕ → ConnectionLimiter
new max_per_ip = record { counts = []; max_per_ip = max_per_ip }

-- The count of the entry, 0 where `or_insert_with` creates it.
unfoldable pub count_of : Counts → IpAddr → ℕ
count_of counts ip = elim (Dict.get IpAddr-discrete ip counts) [ none ↦ 0 | some n ↦ n ]

abbrev pub store : Counts → IpAddr → ℕ → Counts
store counts ip n = Dict.insert IpAddr-discrete ip n counts

-- The whole call runs under the lock of the entry's shard.
unfoldable pub try_acquire : ConnectionLimiter → IpAddr → ConnectionLimiter × Option ConnectionGuard
try_acquire l ip =
    if l.max_per_ip == 0
    then (l, some ConnectionGuard.unlimited)
    else let prev = count_of l.counts ip in
      let added = store l.counts ip ((prev + 1) % 2 ^ 32) in
      if leb l.max_per_ip prev
      then (record l { counts = store added ip ((count_of added ip + 2 ^ 32 - 1) % 2 ^ 32) }, none)
      else (record l { counts = added }, some (ConnectionGuard.slot ip))

-- The first part of `drop`: the decrement, and whether the second part follows.
unfoldable pub release : Counts → IpAddr → Counts × Bool
release counts ip = elim (Dict.get IpAddr-discrete ip counts) [
  | none ↦ (counts, false)
  | some prev ↦ (store counts ip ((prev + 2 ^ 32 - 1) % 2 ^ 32), leb prev 1)
]

-- The second part, after the lock was let go in between: `remove_if` under a lock of its own.
unfoldable pub remove_idle : Counts → IpAddr → Counts
remove_idle counts ip = elim (Dict.get IpAddr-discrete ip counts) [
  | none ↦ counts
  | some n ↦ if n == 0 then Dict.remove IpAddr-discrete ip counts else counts
]

-- `drop` with no other thread between its parts.
unfoldable pub drop_guard : Counts → ConnectionGuard → Counts
drop_guard counts ConnectionGuard.unlimited = counts
drop_guard counts (ConnectionGuard.slot ip) =
    let (counts', last) = release counts ip in if last then remove_idle counts' ip else counts'
