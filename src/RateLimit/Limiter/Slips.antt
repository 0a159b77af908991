-- ===== src/RateLimit/Limiter/Slips.antt =====
-- How often an over-budget answer of mod.rs is slipped.
use ferrous_dns.Base.{
  ℕ, zero, suc, ◌+◌, ◌-◌, ◌*◌, ◌%◌, ◌/◌, ◌^◌, ◌≤◌, ◌<◌, ◌≡◌, ◌≢◌, ℕ_discrete, refl, sym, ◌∙◌, false,
  arith,
}
use ferrous_dns.Base.Bits.{mod-mul_add}
use native.Mathlib.Nat.{div-add-mod}
use ferrous_dns.RateLimit.Limiter.{DnsRateLimiter, slip, refuse, over_budget}

-- The slips among `n` over-budget answers over UDP, and the limiter after them.
pub slips : ℕ → DnsRateLimiter → DnsRateLimiter × ℕ
slips zero l = (l, 0)
slips (suc n) l =
    let (l', k) = slips n l in
    let (l'', d) = over_budget l' false in (l'', elim d [ slip ↦ k + 1 | _ ↦ k ])

-- `k * r` is the multiple of `r` that lies less than `r` above `n`.
multiple : (n k r : ℕ) → 0 < r → n ≤ k * r → k * r < n + r → n % r ≡ 0 → k * r ≡ n
multiple n k r h lo hi m =
    let d = k * r - n in
    let e : k * r + 0 ≡ n / r * r + d = omega (arith, div-add-mod n r) in
    omega (arith, rw e at (mod-mul_add k 0 r h), mod-mul_add (n / r) d r (omega arith))

next_multiple : (n k r : ℕ) → 0 < r → k * r ≡ n → (suc n ≤ (k + 1) * r) × ((k + 1) * r < suc n + r)
next_multiple n k r h e = omega arith

between : (n k r : ℕ) → 0 < r → n ≤ k * r → k * r < n + r → n % r ≢ 0 → n + 1 ≤ k * r
between n k r h lo hi m =
    let ne : k * r ≢ n =
      λ e. m (let f : k * r + 0 ≡ n = omega arith in rw f at (mod-mul_add k 0 r h)) in
    omega arith

record Slipped (l : DnsRateLimiter) (n : ℕ) (s : DnsRateLimiter × ℕ) : Type 0 where
  ratio : s.0.slip_ratio ≡ l.slip_ratio
  real : s.0.dry_run ≡ false
  counter : s.0.slip_counter ≡ n
  low : n ≤ s.1 * l.slip_ratio
  high : s.1 * l.slip_ratio < n + l.slip_ratio

counted : DnsRateLimiter → DnsRateLimiter
counted l = record l { slip_counter = (l.slip_counter + 1) % 2 ^ 64 }

over_budget-slip :
    (l : DnsRateLimiter)
    → l.dry_run ≡ false
    → 0 < l.slip_ratio
    → l.slip_counter % l.slip_ratio ≡ 0
    → over_budget l false ≡ (counted l, slip)
unfolding over_budget counted
over_budget-slip l real pos z = ground arith

over_budget-refuse :
    (l : DnsRateLimiter)
    → l.dry_run ≡ false
    → 0 < l.slip_ratio
    → l.slip_counter % l.slip_ratio ≢ 0
    → over_budget l false ≡ (counted l, refuse)
unfolding over_budget counted
over_budget-refuse l real pos nz = ground arith

slips-Slipped :
    (n : ℕ) (l : DnsRateLimiter)
    → l.dry_run ≡ false
    → 0 < l.slip_ratio
    → l.slip_counter ≡ 0
    → n < 2 ^ 64
    → Slipped l n (slips n l)
unfolding slips counted
slips-Slipped zero l real pos start h = ground arith
slips-Slipped (suc n) l real pos start h =
    let s = slips n l in
    let ih : Slipped l n s = slips-Slipped n l real pos start (omega arith) in
    let pos' : 0 < s.0.slip_ratio = omega (arith, ih.ratio) in
    let test : s.0.slip_counter % s.0.slip_ratio ≡ n % l.slip_ratio =
      rw ih.counter (rw ih.ratio refl) in
    elim (ℕ_discrete (n % l.slip_ratio) 0) [
      | yes z ↦ rw (over_budget-slip s.0 ih.real pos' (test ∙ z)) (record {
        ratio = ih.ratio;
        real = ih.real;
        counter = omega (arith, ih.counter);
        low =
            (next_multiple n s.1 l.slip_ratio pos
              (multiple n s.1 l.slip_ratio pos ih.low ih.high z)).0;
        high =
            (next_multiple n s.1 l.slip_ratio pos
              (multiple n s.1 l.slip_ratio pos ih.low ih.high z)).1;
      })
      | no nz ↦ rw (over_budget-refuse s.0 ih.real pos' (λ e. nz (sym test ∙ e))) (record {
        ratio = ih.ratio;
        real = ih.real;
        counter = omega (arith, ih.counter);
        low = omega (arith, between n s.1 l.slip_ratio pos ih.low ih.high nz);
        high = omega (arith, ih.high);
      })
    ]

-- From a counter at 0, of `n` consecutive over-budget answers over UDP exactly one in `slip_ratio`
-- is slipped, starting with the first: their number times the ratio is `n` rounded up to a multiple
-- of it. The limiter is not in dry run, the ratio is not zero, and `n` is below 2^64.
pub slips_share :
    (n : ℕ) (l : DnsRateLimiter)
    → l.dry_run ≡ false
    → 0 < l.slip_ratio
    → l.slip_counter ≡ 0
    → n < 2 ^ 64
    → (n ≤ (slips n l).1 * l.slip_ratio) × ((slips n l).1 * l.slip_ratio < n + l.slip_ratio)
slips_share n l real pos start h = let s = slips-Slipped n l real pos start h in (s.low, s.high)
