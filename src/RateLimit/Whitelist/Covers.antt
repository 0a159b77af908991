-- ===== src/RateLimit/Whitelist/Covers.antt =====
-- The whitelist of whitelist_set.rs against the meaning of its texts.
use ferrous_dns.Base.{
  ℕ, zero, suc, ◌+◌, ◌-◌, ◌*◌, ◌/◌, ◌%◌, ◌^◌, ◌≤◌, ◌<◌, ◌≡◌, ◌≢◌, refl, ℕ_discrete, sym, ap, ◌∙◌,
  bit_and, Bool, false, ltb, ◌==◌, ◌||◌, Option, none, some, List, [], ◌∷◌, ◌++◌, any, arith,
  Bool-cases, inl, inr, Option-cases,
}
use ferrous_dns.Base.Bits.{bit_and-high, mod-mul_add, bit_and-ones, bit_and-zero, pow_pos}
use mathlib.Core.List.{foldl}
use native.Mathlib.Nat.{mod-eq_of_lt, div-eq_of_lt, pow-le-pow_right}
use ferrous_dns.Ip.{IpAddr}
use ferrous_dns.RateLimit.Subnet.Groups.{IsAddress}
use ferrous_dns.RateLimit.Whitelist.{
  Str, WhitelistSet, empty, split_once, mask, push_network, push_address, push_cidr, from_cidrs,
  contains,
}

-- The addresses agree on the first `prefix_len` bits, all of them if there are not so many.
abbrev pub in_network : IpAddr → ℕ → IpAddr → Bool
in_network (IpAddr.v4 a) p (IpAddr.v4 b) = a / 2 ^ (32 - p) == b / 2 ^ (32 - p)
in_network (IpAddr.v6 a) p (IpAddr.v6 b) = a / 2 ^ (128 - p) == b / 2 ^ (128 - p)
in_network _ p _ = false

spread : (p s : ℕ) → 0 < s → s ≤ p → (p - 1) * s ≡ (s - 1) * p + (p - s)
spread (suc p) (suc s) hs h =
    let e : suc p - 1 ≡ p = omega arith in
    let f : suc s - 1 ≡ s = omega arith in rw e (rw f (omega arith))
spread p zero hs h = absurd (omega arith)
spread zero (suc s) hs h = absurd (omega arith)

pow_mono : {i j : ℕ} → i ≤ j → 2 ^ i ≤ 2 ^ j
pow_mono {i} {j} h = pow-le-pow_right (omega arith) h

mask_high : (w s : ℕ) → s ≤ w → (2 ^ w - 1) * 2 ^ s % 2 ^ w ≡ 2 ^ w - 2 ^ s
mask_high w s h =
    rw (spread (2 ^ w) (2 ^ s) (pow_pos s) (pow_mono h))
      (mod-mul_add (2 ^ s - 1) (2 ^ w - 2 ^ s) (2 ^ w) (omega (arith, pow_pos s, pow_mono h)))

and_high : (w s a : ℕ) → s ≤ w → a < 2 ^ w → bit_and a (2 ^ w - 2 ^ s) ≡ a / 2 ^ s * 2 ^ s
and_high w s a h lt =
    let e : w - s + s ≡ w = omega arith in rw e at (bit_and-high s (w - s) a (rw e lt))

-- An address under the mask of a prefix is its prefix.
and_mask : (w p a : ℕ) → a < 2 ^ w → bit_and a (mask w p) ≡ a / 2 ^ (w - p) * 2 ^ (w - p)
unfolding mask
and_mask w p a h = elim (Bool-cases (ltb (w - p) w)) [
  | inl shifted ↦
      rw shifted (rw (mask_high w (w - p) (omega arith)) (and_high w (w - p) a (omega arith) h))
  | inr whole ↦
      let e : w - p ≡ w = ground arith in
      rw whole (rw e (rw bit_and-zero (rw (div-eq_of_lt h) (omega arith))))
]

times_cancel : (x y p : ℕ) → 0 < p → y * p ≡ x * p → x ≡ y
times_cancel x y p h e = grind arith

times_test : (x y p : ℕ) → 0 < p → (y * p == x * p) ≡ (x == y)
times_test x y p h = elim (ℕ_discrete x y) [
  | yes e ↦ rw e (ground arith)
  | no n ↦ let m : y * p ≢ x * p = λ e. n (times_cancel x y p h e) in ground arith
]

network_test :
    (w p a b : ℕ)
    → a < 2 ^ w
    → b < 2 ^ w
    → (bit_and b (mask w p) == bit_and a (mask w p)) ≡ (a / 2 ^ (w - p) == b / 2 ^ (w - p))
network_test w p a b ha hb = rw (and_mask w p a ha) (
    rw (and_mask w p b hb)
      (times_test (a / 2 ^ (w - p)) (b / 2 ^ (w - p)) (2 ^ (w - p)) (pow_pos (w - p))))

any-append_one {ℓ} :
    {A : Type ℓ} (f : A → Bool) (xs : List A) (x : A) → any f (xs ++ (x ∷ [])) ≡ any f xs || f x
any-append_one f [] x = ground arith
any-append_one f (y ∷ xs) x = ground (arith, any-append_one f xs x)

or-false : (b : Bool) → b || false ≡ b
or-false b = ground arith

contains-push_network :
    (w : WhitelistSet) (a : IpAddr) (p : ℕ) (b : IpAddr)
    → IsAddress a
    → IsAddress b
    → contains (push_network w a p) b ≡ contains w b || in_network a p b
unfolding contains push_network
contains-push_network w (IpAddr.v4 a) p (IpAddr.v4 b) ha hb =
    any-append_one _ w.v4_entries _
    ∙ ap (λ t. contains w (IpAddr.v4 b) || t) (network_test 32 p a b ha hb)
contains-push_network w (IpAddr.v6 a) p (IpAddr.v6 b) ha hb =
    any-append_one _ w.v6_entries _
    ∙ ap (λ t. contains w (IpAddr.v6 b) || t) (network_test 128 p a b ha hb)
contains-push_network w (IpAddr.v4 a) p (IpAddr.v6 b) ha hb = sym (or-false _)
contains-push_network w (IpAddr.v6 a) p (IpAddr.v4 b) ha hb = sym (or-false _)

address_test : (w a b : ℕ) → a < 2 ^ w → b < 2 ^ w → (bit_and b (2 ^ w - 1) == a) ≡ (a / 1 == b / 1)
address_test w a b ha hb = rw (bit_and-ones w b) (rw (mod-eq_of_lt hb) (ground arith))

contains-push_address :
    (w : WhitelistSet) (a b : IpAddr)
    → IsAddress a
    → IsAddress b
    → contains (push_address w a) b ≡ contains w b || in_network a 128 b
unfolding contains push_address
contains-push_address w (IpAddr.v4 a) (IpAddr.v4 b) ha hb =
    any-append_one _ w.v4_entries _
    ∙ ap (λ t. contains w (IpAddr.v4 b) || t) (address_test 32 a b ha hb)
contains-push_address w (IpAddr.v6 a) (IpAddr.v6 b) ha hb =
    any-append_one _ w.v6_entries _
    ∙ ap (λ t. contains w (IpAddr.v6 b) || t) (address_test 128 a b ha hb)
contains-push_address w (IpAddr.v4 a) (IpAddr.v6 b) ha hb = sym (or-false _)
contains-push_address w (IpAddr.v6 a) (IpAddr.v4 b) ha hb = sym (or-false _)

or_assoc : (a b c : Bool) → (a || b) || c ≡ a || (b || c)
or_assoc a b c = ground arith

module _ (parse_prefix : Str → Option ℕ) (parse_ip : Str → Option IpAddr) where
  -- What one configured text means: a network `address/prefix`, or one address. A text that does
  -- not parse covers nothing.
  pub covers : IpAddr → Str → Bool
  covers ip cidr = elim (split_once cidr) [
    | none ↦ elim (parse_ip cidr) [ none ↦ false | some addr ↦ in_network addr 128 ip ]
    | some (addr_str, prefix_str) ↦ elim (parse_prefix prefix_str) [
      | none ↦ false
      | some prefix_len ↦ elim (parse_ip addr_str) [
        | none ↦ false
        | some addr ↦ in_network addr prefix_len ip
      ]
    ]
  ]

  module _ (valid : (text : Str) (a : IpAddr) → parse_ip text ≡ some a → IsAddress a) where
    contains-push_cidr :
        (w : WhitelistSet) (cidr : Str) (ip : IpAddr)
        → IsAddress ip
        → contains (push_cidr parse_prefix parse_ip w cidr) ip ≡ contains w ip || covers ip cidr
    unfolding push_cidr covers
    contains-push_cidr w cidr ip h = elim (Option-cases (split_once cidr)) [
      | inl bare ↦
          rw (bare, push_cidr, covers)
            (elim (Option-cases (parse_ip cidr)) [
              | inl bad ↦ rw bad (sym (or-false _))
              | inr (a, e) ↦ rw e (contains-push_address w a ip (valid cidr a e) h)
            ])
      | inr ((addr_str, prefix_str), parts) ↦
          rw (parts, push_cidr, covers)
            (elim (Option-cases (parse_prefix prefix_str)) [
              | inl bad ↦ rw bad (sym (or-false _))
              | inr (p, e) ↦ rw e (elim (Option-cases (parse_ip addr_str)) [
                | inl bad ↦ rw bad (sym (or-false _))
                | inr (a, f) ↦ rw f (contains-push_network w a p ip (valid addr_str a f) h)
              ])
            ])
    ]

    loop :
        (w : WhitelistSet) (cidrs : List Str) (ip : IpAddr)
        → IsAddress ip
        → (contains (foldl (push_cidr parse_prefix parse_ip) w cidrs) ip
            ≡ contains w ip || any (covers ip) cidrs)
    loop w [] ip h = sym (or-false _)
    loop w (cidr ∷ cidrs) ip h =
        loop (push_cidr parse_prefix parse_ip w cidr) cidrs ip h
        ∙ (rw (contains-push_cidr w cidr ip h)
            (or_assoc (contains w ip) (covers ip cidr) (any (covers ip) cidrs)))

    contains-empty : (ip : IpAddr) → contains empty ip ≡ false
    unfolding contains
    contains-empty (IpAddr.v4 a) = refl
    contains-empty (IpAddr.v6 a) = refl

    -- An address in range is whitelisted exactly when one of the configured texts covers it: it
    -- lies in the network that the text writes, whose prefix counts as the whole address if it is
    -- longer, or it is the address that the text writes. The address parser returns addresses of
    -- their family.
    pub contains-from_cidrs :
        (cidrs : List Str) (ip : IpAddr)
        → IsAddress ip
        → contains (from_cidrs parse_prefix parse_ip cidrs) ip ≡ any (covers ip) cidrs
    unfolding from_cidrs
    contains-from_cidrs cidrs ip h = loop empty cidrs ip h ∙ rw (contains-empty ip)
