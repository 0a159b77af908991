-- ===== src/BlockFilter/SuffixTrie/Bit.antt =====
-- One bit of a mask, and what the union of two masks does to it.
use ferrous_dns.Base.{ℕ, zero, suc, ◌/◌, ◌%◌, Bool, false, ◌||◌, ◌⊎◌, inl, inr, ◌==◌}
use ferrous_dns.Base.Bits.{bit_or_step}
use Prim.Native.Nat.{bit_or}
use mathlib.Core.Path.{◌≡◌, refl}
use native.Mathlib.Omega.{arith}

unfoldable pub has_bit : ℕ → ℕ → Bool
has_bit zero a = a % 2 == 1
has_bit (suc k) a = has_bit k (a / 2)

half_or : (a b : ℕ) → bit_or a b / 2 ≡ bit_or (a / 2) (b / 2)
half_or a b = omega (arith, bit_or_step a b)

pub has_bit-bit_or : (k a b : ℕ) → has_bit k (bit_or a b) ≡ (has_bit k a || has_bit k b)
unfolding has_bit
has_bit-bit_or zero a b =
    let s = bit_or_step a b in
    let small : (n : ℕ) → (n % 2 ≡ 0) ⊎ (n % 2 ≡ 1) = λ n. omega arith in
    elim (small a) [
      | inl p ↦ elim (small b) [ inl q ↦ ground (arith, s, p, q) | inr q ↦ ground (arith, s, p, q) ]
      | inr p ↦ elim (small b) [ inl q ↦ ground (arith, s, p, q) | inr q ↦ ground (arith, s, p, q) ]
    ]
has_bit-bit_or (suc k) a b = rw (half_or a b) (has_bit-bit_or k (a / 2) (b / 2))

pub has_bit-zero : (k : ℕ) → has_bit k 0 ≡ false
unfolding has_bit
has_bit-zero zero = refl
has_bit-zero (suc k) = has_bit-zero k
