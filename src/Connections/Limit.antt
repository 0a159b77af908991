-- ===== src/Connections/Limit.antt =====
-- What connection_limiter.rs guarantees to every address, in every interleaving.
use ferrous_dns.Base.{
  ℕ, ◌^◌, ◌≤◌, ◌<◌, ◌≡◌, refl, sym, ◌∙◌, ap, inl, inr, none, some, Option-cases, [], arith,
}
use ferrous_dns.Base.Dict
use ferrous_dns.Ip.{IpAddr, IpAddr-discrete}
use ferrous_dns.Connections.{ConnectionGuard, new, count_of, try_acquire}
use ferrous_dns.Connections.Threads.{
  System, start, acquired, released, reaped, Step, acquire, drop_first, drop_last, Reach, here,
  next,
}
use ferrous_dns.Connections.Invariant.{
  occurrences, IsValid, acquired-IsValid, released-IsValid, reaped-IsValid, count_of_some,
}

start-IsValid : (max_per_ip : ℕ) → max_per_ip < 2 ^ 32 → IsValid (start max_per_ip)
unfolding start new count_of occurrences Dict.get
start-IsValid max_per_ip h = record {
  agree = λ j. refl;
  within = λ j. omega arith;
  idle = λ j e. cc;
  u32 = h;
}

Step-IsValid : {s t : System} → Step s t → IsValid s → IsValid t
Step-IsValid {s} (acquire ip e) v = rw e (acquired-IsValid s ip v)
Step-IsValid {s} (drop_first ip xs ys h e) v = rw e (released-IsValid s ip v xs ys h)
Step-IsValid {s} (drop_last ip xs ys h e) v = rw e (reaped-IsValid s ip v xs ys h)

pub Reach-IsValid : {s t : System} → Reach s t → IsValid s → IsValid t
Reach-IsValid here v = v
Reach-IsValid (next r st) v = Step-IsValid st (Reach-IsValid r v)

-- The limit is the limiter's own, and never changes.
Step-max : {s t : System} → Step s t → t.limiter.max_per_ip ≡ s.limiter.max_per_ip
unfolding acquired released reaped try_acquire
Step-max {s} (acquire ip e) = rw e (ground arith)
Step-max (drop_first ip xs ys h e) = rw e refl
Step-max (drop_last ip xs ys h e) = rw e refl

Reach-max : {s t : System} → Reach s t → t.limiter.max_per_ip ≡ s.limiter.max_per_ip
Reach-max here = refl
Reach-max (next r st) = Step-max st ∙ Reach-max r

-- Whatever the interleaving of connections that open and close, with another thread between the two
-- parts of any drop, no address ever holds more counted guards than the limit, a 32-bit number. A
-- limit of 0 counts none.
pub held-le_max :
    (max_per_ip : ℕ) {t : System} (ip : IpAddr)
    → max_per_ip < 2 ^ 32
    → Reach (start max_per_ip) t
    → occurrences ip t.held ≤ max_per_ip
unfolding start new
held-le_max max_per_ip ip h r =
    omega (arith, (Reach-IsValid r (start-IsValid max_per_ip h)).within ip, Reach-max r)

-- In every state that the interleavings reach, an address that holds fewer guards than the limit, a
-- 32-bit number, is accepted: no interleaving leaks a slot.
pub try_acquire-accepts :
    (max_per_ip : ℕ) {t : System} (ip : IpAddr)
    → max_per_ip < 2 ^ 32
    → Reach (start max_per_ip) t
    → occurrences ip t.held < max_per_ip
    → (try_acquire t.limiter ip).1 ≡ some (ConnectionGuard.slot ip)
unfolding start new try_acquire
try_acquire-accepts max_per_ip {t} ip h r room =
    let v = Reach-IsValid r (start-IsValid max_per_ip h) in ground (arith, v.agree ip, Reach-max r)

-- In every state that the interleavings reach, with a 32-bit limit: when all guards are dropped and
-- no drop is under way, the map of counts has no entry left.
pub counts_empty :
    (max_per_ip : ℕ) {t : System} (ip : IpAddr)
    → max_per_ip < 2 ^ 32
    → Reach (start max_per_ip) t
    → t.held ≡ []
    → t.dropping ≡ []
    → Dict.get IpAddr-discrete ip t.limiter.counts ≡ none
unfolding count_of occurrences
counts_empty max_per_ip {t} ip h r free quiet =
    let v = Reach-IsValid r (start-IsValid max_per_ip h) in
    elim (Option-cases (Dict.get IpAddr-discrete ip t.limiter.counts)) [
      | inl absent ↦ absent
      | inr (n, found) ↦
          let zero_count : n ≡ 0 =
            sym (count_of_some t ip v n found) ∙ v.agree ip ∙ ap (occurrences ip) free in
          absurd (omega (arith, v.idle ip (found ∙ ap some zero_count), ap (occurrences ip) quiet))
    ]
