-- ===== src/Connections/Threads.antt =====
-- Threads that take and drop guards of connection_limiter.rs, in any interleaving of their locked
-- sections.
use ferrous_dns.Base.{ℕ, ◌≡◌, if◌then◌else◌, Option, none, some, List, [], ◌∷◌, ◌++◌}
use ferrous_dns.Ip.{IpAddr}
use ferrous_dns.Connections.{
  ConnectionLimiter, ConnectionGuard, new, try_acquire, release, remove_idle,
}

-- The slots that live guards hold, and the drops that are between their two parts.
pub record System : Type 0 where
  pub limiter : ConnectionLimiter
  pub held : List IpAddr
  pub dropping : List IpAddr

unfoldable pub start : ℕ → System
start max_per_ip = record { limiter = new max_per_ip; held = []; dropping = [] }

abbrev pub hold : Option ConnectionGuard → List IpAddr → List IpAddr
hold none held = held
hold (some ConnectionGuard.unlimited) held = held
hold (some (ConnectionGuard.slot ip)) held = ip ∷ held

unfoldable pub acquired : System → IpAddr → System
acquired s ip =
    let (l, guard) = try_acquire s.limiter ip in record s { limiter = l; held = hold guard s.held }

-- `rest` is what the other guards hold.
unfoldable pub released : System → IpAddr → List IpAddr → System
released s ip rest =
    let (counts, last) = release s.limiter.counts ip in
    record {
      limiter = record { counts = counts; max_per_ip = s.limiter.max_per_ip };
      held = rest;
      dropping = if last then ip ∷ s.dropping else s.dropping;
    }

unfoldable pub reaped : System → IpAddr → List IpAddr → System
reaped s ip rest = record s {
  limiter = record { counts = remove_idle s.limiter.counts ip; max_per_ip = s.limiter.max_per_ip };
  dropping = rest;
}

pub data Step (s t : System) : Type 0 where
  acquire : (ip : IpAddr) → t ≡ acquired s ip → Step s t
  drop_first :
      (ip : IpAddr) (xs ys : List IpAddr)
      → s.held ≡ xs ++ (ip ∷ ys)
      → t ≡ released s ip (xs ++ ys)
      → Step s t
  drop_last :
      (ip : IpAddr) (xs ys : List IpAddr)
      → s.dropping ≡ xs ++ (ip ∷ ys)
      → t ≡ reaped s ip (xs ++ ys)
      → Step s t

pub data Reach (s : System) : System → Type 0 where
  here : Reach s s
  next : {t u : System} → Reach s t → Step t u → Reach s u
