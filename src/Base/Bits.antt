-- ===== src/Base/Bits.antt =====
-- Masks and single bits at any width, from the digit recursion of the native operations.
use Prim.Native.Nat.{
  ℕ, zero, suc, ◌+◌, ◌-◌, ◌*◌, ◌/◌, ◌%◌, ◌^◌, ◌≤◌, ◌<◌, min, max, bit_and, bit_or, digits, bitwise,
  bit_and-bitwise, bit_or-bitwise,
}
use mathlib.Core.Path.{◌≡◌, refl, sym, ap, ◌∙◌}
use native.Mathlib.Omega.{arith}
use native.Mathlib.Nat.{pow-suc, div-div-eq-div-mul, mod-eq_of_lt}

-- Both operations run down the digits of the first number; rounds after its last digit change
-- nothing.
module _ (rest : ℕ → ℕ) (op : ℕ → ℕ → ℕ) where
  digits_done : (n b : ℕ) → digits rest op n 0 b ≡ rest b
  digits_done zero b = refl
  digits_done (suc n) b = refl

  digits_enough : (a n m b : ℕ) → a ≤ n → n ≤ m → digits rest op m a b ≡ digits rest op n a b
  digits_enough zero n m b h k = digits_done m b ∙ sym (digits_done n b)
  digits_enough (suc a) zero m b h k = absurd (omega arith)
  digits_enough (suc a) (suc n) zero b h k = absurd (omega arith)
  digits_enough (suc a) (suc n) (suc m) b h k =
      ap (λ t. t * 2 + op (suc a % 2) (b % 2))
        (digits_enough (suc a / 2) n m (b / 2) (omega arith) (omega arith))

  bitwise_step :
      (a b : ℕ)
      → bitwise rest op (suc a) b ≡ bitwise rest op (suc a / 2) (b / 2) * 2 + op (suc a % 2) (b % 2)
  bitwise_step a b =
      ap (λ t. t * 2 + op (suc a % 2) (b % 2))
        (digits_enough (suc a / 2) (suc a / 2) a (b / 2) (omega arith) (omega arith))

pub bit_and_step : (a b : ℕ) → bit_and a b ≡ bit_and (a / 2) (b / 2) * 2 + min (a % 2) (b % 2)
bit_and_step zero b =
    let zeros : (c : ℕ) → bit_and 0 c ≡ 0 = λ c. bit_and-bitwise 0 c in
    omega (arith, zeros b, zeros (b / 2))
bit_and_step (suc a) b =
    bit_and-bitwise (suc a) b
    ∙ bitwise_step (λ c. zero) min a b
    ∙ ap (λ t. t * 2 + min (suc a % 2) (b % 2)) (sym (bit_and-bitwise (suc a / 2) (b / 2)))

pub zero-bit_or : (b : ℕ) → bit_or 0 b ≡ b
zero-bit_or = bit_or-bitwise 0

pub bit_or_step : (a b : ℕ) → bit_or a b ≡ bit_or (a / 2) (b / 2) * 2 + max (a % 2) (b % 2)
bit_or_step zero b = omega (arith, zero-bit_or b, zero-bit_or (b / 2))
bit_or_step (suc a) b =
    bit_or-bitwise (suc a) b
    ∙ bitwise_step (λ c. c) max a b
    ∙ ap (λ t. t * 2 + max (suc a % 2) (b % 2)) (sym (bit_or-bitwise (suc a / 2) (b / 2)))

-- Nothing is in common with zero, and nothing is added by it.
zero_mask : (n a : ℕ) → a ≤ n → (bit_and a 0 ≡ 0) × (bit_or a 0 ≡ a)
zero_mask n zero h = (refl, refl)
zero_mask zero (suc a) h = absurd (omega arith)
zero_mask (suc n) (suc a) h =
    let (none_common, none_added) = zero_mask n (suc a / 2) (omega arith) in
    (
      omega (arith, bit_and_step (suc a) 0, none_common),
      omega (arith, bit_or_step (suc a) 0, none_added),
    )

pub bit_and-zero : (a : ℕ) → bit_and a 0 ≡ 0
bit_and-zero a = (zero_mask a a (omega arith)).0

pub bit_or-zero : (a : ℕ) → bit_or a 0 ≡ a
bit_or-zero a = (zero_mask a a (omega arith)).1

pub pow_half : (k : ℕ) → 2 ^ suc k ≡ 2 * 2 ^ k
pow_half k = omega (arith, pow-suc 2 k)

pub pow_pos : (k : ℕ) → 0 < 2 ^ k
pow_pos zero = omega arith
pow_pos (suc k) = omega (arith, pow_half k, pow_pos k)

-- Or with one bit: below the bit it adds it, and a number that has it as its top bit keeps it.
pub bit_or-pow : (k a : ℕ) → a < 2 ^ k → bit_or a (2 ^ k) ≡ a + 2 ^ k
bit_or-pow zero a h = let e : a ≡ 0 = omega arith in rw e (zero-bit_or 1)
bit_or-pow (suc k) a h =
    omega (arith, bit_or_step a (2 ^ suc k), pow_half k, half, bit_or-pow k (a / 2) below)
  where
    below : a / 2 < 2 ^ k
    below = omega (arith, pow_half k)

    half : bit_or (a / 2) (2 ^ suc k / 2) ≡ bit_or (a / 2) (2 ^ k)
    half = ap (bit_or (a / 2)) (omega (arith, pow_half k))

pub bit_or-pow_set : (k a : ℕ) → 2 ^ k ≤ a → a < 2 ^ suc k → bit_or a (2 ^ k) ≡ a
bit_or-pow_set zero a h l = let e : a ≡ 1 = omega arith in rw e (bit_or_step 1 1)
bit_or-pow_set (suc k) a h l = omega (
  arith,
  bit_or_step a (2 ^ suc k),
  pow_half k,
  half,
  bit_or-pow_set k (a / 2) (omega (arith, pow_half k)) (omega (arith, pow_half (suc k))),
)
  where
    half : bit_or (a / 2) (2 ^ suc k / 2) ≡ bit_or (a / 2) (2 ^ k)
    half = ap (bit_or (a / 2)) (omega (arith, pow_half k))

pub mod-mul_add : (q r p : ℕ) → r < p → (q * p + r) % p ≡ r
mod-mul_add q r p h = grind arith

pub div_double : (a p : ℕ) → 0 < p → a / (2 * p) ≡ a / 2 / p
div_double a p h = grind arith

pub mod_double : (a p : ℕ) → 0 < p → a % (2 * p) ≡ a / 2 % p * 2 + a % 2
mod_double a p h = grind arith

-- And with the low `k` bits set is the remainder by `2 ^ k`.
pub bit_and-ones : (k a : ℕ) → bit_and a (2 ^ k - 1) ≡ a % 2 ^ k
bit_and-ones zero a = omega (arith, bit_and-zero a)
bit_and-ones (suc k) a = omega (
  arith,
  bit_and_step a (2 ^ suc k - 1),
  pow_half k,
  pow_pos k,
  half,
  bit_and-ones k (a / 2),
  split,
)
  where
    half : bit_and (a / 2) ((2 ^ suc k - 1) / 2) ≡ bit_and (a / 2) (2 ^ k - 1)
    half = ap (bit_and (a / 2)) (omega (arith, pow_half k, pow_pos k))

    split : a % 2 ^ suc k ≡ a / 2 % 2 ^ k * 2 + a % 2
    split = rw (pow_half k) (mod_double a (2 ^ k) (pow_pos k))

-- And with one bit reads that bit.
pub bit_and-pow : (k a : ℕ) → bit_and a (2 ^ k) ≡ a / 2 ^ k % 2 * 2 ^ k
bit_and-pow zero a = omega (arith, bit_and_step a 1, bit_and-zero (a / 2))
bit_and-pow (suc k) a =
    omega (arith, bit_and_step a (2 ^ suc k), half, bit_and-pow k (a / 2), pow_half k, split, shift)
  where
    half : bit_and (a / 2) (2 ^ suc k / 2) ≡ bit_and (a / 2) (2 ^ k)
    half = ap (bit_and (a / 2)) (omega (arith, pow_half k))

    split : a / 2 ^ suc k % 2 ≡ a / 2 / 2 ^ k % 2
    split = rw (pow_half k) (ap (λ (t : ℕ). t % 2) (div_double a (2 ^ k) (pow_pos k)))

    shift : a / 2 ^ suc k % 2 * 2 ^ suc k ≡ 2 * (a / 2 / 2 ^ k % 2 * 2 ^ k)
    shift = rw split (rw (pow_half k) (omega arith))

pub pow_add : (k n : ℕ) → 2 ^ (k + n) ≡ 2 ^ k * 2 ^ n
pow_add zero n = let e : 0 + n ≡ n = omega arith in rw e (omega arith)
pow_add (suc k) n =
    let e : suc k + n ≡ suc (k + n) = omega arith in
    rw e (omega (arith, pow_half (k + n), pow_add k n, ap (λ (t : ℕ). t * 2 ^ n) (pow_half k)))

pub div_pow-lt : (k n a : ℕ) → a < 2 ^ (k + n) → a / 2 ^ n < 2 ^ k
div_pow-lt k n a h =
    let p : a < 2 ^ k * 2 ^ n = omega (arith, pow_add k n) in grind (arith, pow_pos n)

pub div_div-pow : (k n a : ℕ) → a / 2 ^ k / 2 ^ n ≡ a / 2 ^ (k + n)
div_div-pow k n a = rw (pow_add k n) (div-div-eq-div-mul a (2 ^ k) (2 ^ n))

-- And with a mask that keeps `k` bits above the lowest `s`.
pub bit_and-high :
    (s k a : ℕ) → a < 2 ^ (k + s) → bit_and a (2 ^ (k + s) - 2 ^ s) ≡ a / 2 ^ s * 2 ^ s
bit_and-high zero k a h =
    let e : k + 0 ≡ k = omega arith in
    rw e (omega (arith, bit_and-ones k a, mod-eq_of_lt (rw e at h)))
bit_and-high (suc s) k a h = omega (
  arith,
  bit_and_step a (2 ^ (k + suc s) - 2 ^ suc s),
  top,
  pow_half s,
  half,
  bit_and-high s k (a / 2) (omega (arith, top)),
  shift,
)
  where
    top : 2 ^ (k + suc s) ≡ 2 * 2 ^ (k + s)
    top = let e : k + suc s ≡ suc (k + s) = omega arith in rw e (pow_half (k + s))

    half :
        bit_and (a / 2) ((2 ^ (k + suc s) - 2 ^ suc s) / 2) ≡ bit_and (a / 2) (2 ^ (k + s) - 2 ^ s)
    half = ap (bit_and (a / 2)) (omega (arith, top, pow_half s))

    shift : a / 2 ^ suc s * 2 ^ suc s ≡ 2 * (a / 2 / 2 ^ s * 2 ^ s)
    shift = rw (pow_half s) (rw (div_double a (2 ^ s) (pow_pos s)) (omega arith))
