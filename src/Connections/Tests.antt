-- ===== src/Connections/Tests.antt =====
-- The tests of connection_limiter.rs, and its theorems at a run of two threads.
use ferrous_dns.Base.{◌≤◌, ◌≡◌, refl, none, [], ◌∷◌, arith}
use ferrous_dns.Base.Dict
use ferrous_dns.Ip.{IpAddr, IpAddr-discrete}
use ferrous_dns.Connections.{
  ConnectionGuard, new, count_of, try_acquire, release, remove_idle, drop_guard,
}
use ferrous_dns.Connections.Threads.{
  System, start, acquired, released, reaped, Reach, here, next, acquire, drop_first, drop_last,
}
use ferrous_dns.Connections.Invariant.{occurrences}
use ferrous_dns.Connections.Limit.{held-le_max}

abbrev ip : IpAddr
ip = IpAddr.v4 0xc0a80101

abbrev one_open : System
one_open = record {
  limiter = record { counts = (ip, 1) ∷ []; max_per_ip = 2 };
  held = ip ∷ [];
  dropping = [];
}

-- The connection closes, and is between the two parts of its drop.
abbrev closing : System
closing = record {
  limiter = record { counts = (ip, 0) ∷ []; max_per_ip = 2 };
  held = [];
  dropping = ip ∷ [];
}

abbrev closed : System
closed = record { limiter = record { counts = []; max_per_ip = 2 }; held = []; dropping = [] }

opens : one_open ≡ acquired (start 2) ip
unfolding start new acquired try_acquire count_of Dict.get Dict.insert IpAddr-discrete
opens = refl

to_open : Reach (start 2) one_open
to_open = next here (acquire ip opens)

to_closing : Reach (start 2) closing
unfolding released release Dict.get Dict.insert IpAddr-discrete
to_closing = next to_open (drop_first ip [] [] refl refl)

to_closed : Reach (start 2) closed
unfolding reaped remove_idle Dict.get Dict.remove IpAddr-discrete
to_closed = next to_closing (drop_last ip [] [] refl refl)

rejects_over_limit : (try_acquire (record { counts = (ip, 2) ∷ []; max_per_ip = 2 }) ip).1 ≡ none
unfolding try_acquire count_of Dict.get Dict.insert IpAddr-discrete
rejects_over_limit = refl

guard_drop_frees_slot : drop_guard ((ip, 1) ∷ []) (ConnectionGuard.slot ip) ≡ []
unfolding drop_guard release remove_idle Dict.get Dict.insert Dict.remove IpAddr-discrete
guard_drop_frees_slot = refl

held-le_max_example : occurrences ip one_open.held ≤ 2
held-le_max_example = held-le_max 2 ip (omega arith) to_open
