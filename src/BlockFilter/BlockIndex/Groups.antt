-- ===== src/BlockFilter/BlockIndex/Groups.antt =====
-- crates/infrastructure/src/dns/block_filter/block_index.rs: a group without an entry in
-- `group_masks` gets the bit of the manual list alone.
use ferrous_dns.Base.{
  ℕ, ◌^◌, ◌<◌, ◌/◌, ◌%◌, ◌*◌, Bool, true, false, not, ◌&&◌, ◌==◌, if◌then◌else◌, Option, none, some,
  List, [], ◌∷◌, ◌≡◌, refl, sym, ap, ◌∙◌, arith, Bool-cases, inl, inr, bit_and,
}
use ferrous_dns.Base.Bits.{bit_and-pow, pow_pos}
use ferrous_dns.Base.Dict
use ferrous_dns.BlockFilter.BlockIndex.{
  Verdict, manual_allow, manual_deny, block, no_match, blocklist, manual_source_bit, classify_deny,
  group_mask, check_patterns, check_wildcard_and_patterns, advanced_rules, exact_bits, list_verdict,
  evaluate, BlockIndex, is_allowed, has_suffix_or_substring_rules,
}
use ferrous_dns.BlockFilter.SuffixTrie.{lookup, same_label}

mul_div : (q p : ℕ) → 0 < p → q * p / p ≡ q
mul_div q p h = grind arith

mod-mod : (a : ℕ) → a % 2 % 2 ≡ a % 2
mod-mod a = omega arith

same_bit : (k a : ℕ) → bit_and (bit_and a (2 ^ k)) (2 ^ k) ≡ bit_and a (2 ^ k)
same_bit k a =
    bit_and-pow k (bit_and a (2 ^ k))
    ∙ ap (λ b. b / 2 ^ k % 2 * 2 ^ k) (bit_and-pow k a)
    ∙ ap (λ q. q % 2 * 2 ^ k) (mul_div (a / 2 ^ k % 2) (2 ^ k) (pow_pos k))
    ∙ ap (λ q. q * 2 ^ k) (mod-mod (a / 2 ^ k))
    ∙ sym (bit_and-pow k a)

-- The verdict of a downloaded list, which the blocking toggle and the schedules overrule.
abbrev pub is_block : Verdict → Bool
is_block manual_allow = false
is_block (manual_deny source) = false
is_block (block source) = true
is_block no_match = false

-- What is matched reads as a hit of the manual list.
IsManual : Option ℕ → Type 0
IsManual o = elim o [
  | none ↦ Unit
  | some matched ↦ is_block (classify_deny blocklist matched) ≡ false
]

masked-IsManual :
    (x : ℕ) (rest : Option ℕ)
    → IsManual rest
    → let matched = bit_and x manual_source_bit in
      IsManual (if not (matched == 0) then some matched else rest)
unfolding IsManual classify_deny
masked-IsManual x rest h = elim (Bool-cases (bit_and x manual_source_bit == 0)) [
  | inl e ↦ rw e h
  | inr e ↦ rw e (rw (same_bit 63 x) (rw e refl))
]

found-IsManual :
    (x : ℕ) (found : Bool) (rest : Option ℕ)
    → IsManual rest
    → let matched = bit_and x manual_source_bit in
      IsManual (if not (matched == 0) && found then some matched else rest)
unfolding IsManual classify_deny
found-IsManual x true rest h = elim (Bool-cases (bit_and x manual_source_bit == 0)) [
  | inl e ↦ rw e h
  | inr e ↦ rw e (rw (same_bit 63 x) (rw e refl))
]
found-IsManual x false rest h = elim (Bool-cases (bit_and x manual_source_bit == 0)) [
  | inl e ↦ rw e h
  | inr e ↦ rw e h
]

tiers-is_block :
    (allowed advanced : Bool) (rules : Option Verdict) (lists : Verdict)
    → ((verdict : Verdict) → rules ≡ some verdict → is_block verdict ≡ false)
    → is_block lists ≡ false
    → is_block (
        if allowed
        then manual_allow
        else elim (if advanced then rules else none) [ some verdict ↦ verdict | none ↦ lists ])
      ≡ false
tiers-is_block true advanced rules lists h k = refl
tiers-is_block false false rules lists h k = k
tiers-is_block false true none lists h k = k
tiers-is_block false true (some verdict) lists h k = h verdict refl

IsManual-is_block :
    (o : Option ℕ) (rest : Verdict)
    → IsManual o
    → is_block rest ≡ false
    → is_block (elim o [ none ↦ rest | some matched ↦ classify_deny blocklist matched ]) ≡ false
unfolding IsManual
IsManual-is_block none rest h k = k
IsManual-is_block (some matched) rest h k = h

module _ {G Regex AhoCorasick Bloom : Type 0} (same : Discrete G)
    (is_match : Regex → List ℕ → Option Bool) (find : AhoCorasick → List ℕ → Bool)
    (check : Bloom → List ℕ → Bool) where
  exact_bits-IsManual :
      (index : BlockIndex G Regex AhoCorasick Bloom) (domain : List ℕ)
      → IsManual (exact_bits same is_match find check index domain manual_source_bit)
  unfolding exact_bits IsManual
  exact_bits-IsManual index domain = elim (Bool-cases (check index.bloom domain)) [
    | inl h ↦
        rw h
          (elim (Dict.get same_label domain index.exact)
            as (λ o. IsManual (elim o [
              | none ↦ none
              | some entry ↦
                  let matched = bit_and entry manual_source_bit in
                  if not (matched == 0) then some matched else none
            ])) [ none ↦ tt | some entry ↦ masked-IsManual entry none tt ])
    | inr h ↦ rw h tt
  ]

  patterns-IsManual :
      (patterns : List (AhoCorasick × ℕ)) (domain : List ℕ)
      → IsManual (check_patterns same is_match find check patterns domain manual_source_bit)
  unfolding check_patterns IsManual
  patterns-IsManual [] domain = tt
  patterns-IsManual ((ac, source_mask) ∷ patterns) domain =
      found-IsManual source_mask (find ac domain) _ (patterns-IsManual patterns domain)

  wildcard-IsManual :
      (index : BlockIndex G Regex AhoCorasick Bloom) (domain : List ℕ)
      → IsManual
          (check_wildcard_and_patterns same is_match find check index domain manual_source_bit)
  unfolding check_wildcard_and_patterns
  wildcard-IsManual index domain =
      masked-IsManual (lookup domain index.wildcard) _ (patterns-IsManual index.patterns domain)

  list_verdict-is_block :
      (index : BlockIndex G Regex AhoCorasick Bloom) (domain : List ℕ)
      → is_block (list_verdict same is_match find check index domain manual_source_bit) ≡ false
  unfolding list_verdict
  list_verdict-is_block index domain =
      IsManual-is_block (exact_bits same is_match find check index domain manual_source_bit) _
        (exact_bits-IsManual index domain)
        (elim (Bool-cases (has_suffix_or_substring_rules index)) [
          | inl e ↦ rw e (
              IsManual-is_block
                (check_wildcard_and_patterns same is_match find check index domain
                  manual_source_bit)
                no_match (wildcard-IsManual index domain) refl)
          | inr e ↦ rw e refl
        ])

  advanced-is_block :
      (index : BlockIndex G Regex AhoCorasick Bloom) (domain : List ℕ) (group : G)
      (verdict : Verdict)
      → advanced_rules same is_match find check index domain group ≡ some verdict
      → is_block verdict ≡ false
  unfolding advanced_rules
  advanced-is_block index domain group verdict h = ground arith

  group_mask-none :
      (index : BlockIndex G Regex AhoCorasick Bloom) (group : G)
      → Dict.get same group index.group_masks ≡ none
      → group_mask same index group ≡ manual_source_bit
  unfolding group_mask
  group_mask-none index group h = ap (λ o. elim o [ none ↦ manual_source_bit | some mask ↦ mask ]) h

  -- For a group without an entry in `group_masks` the verdict on a name is never `block`: no
  -- downloaded list blocks it.
  pub evaluate-without_mask :
      (index : BlockIndex G Regex AhoCorasick Bloom) (domain : List ℕ) (group : G)
      → Dict.get same group index.group_masks ≡ none
      → is_block (evaluate same is_match find check index domain group) ≡ false
  unfolding evaluate
  evaluate-without_mask index domain group h =
      tiers-is_block (is_allowed same index.allowlists domain group) _ _
        (list_verdict same is_match find check index domain (group_mask same index group))
        (advanced-is_block index domain group)
        (ap (λ m. is_block (list_verdict same is_match find check index domain m))
            (group_mask-none index group h)
          ∙ list_verdict-is_block index domain)
