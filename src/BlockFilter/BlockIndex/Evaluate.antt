-- ===== src/BlockFilter/BlockIndex/Evaluate.antt =====
-- crates/infrastructure/src/dns/block_filter/block_index.rs: the shortcuts of `evaluate`.
use ferrous_dns.Base.{
  ℕ, Bool, true, false, not, ◌||◌, ◌==◌, if◌then◌else◌, Option, none, some, List, [], ◌∷◌, ◌≡◌, ◌≢◌,
  refl, ap, ◌∙◌, arith, ite, any, Option-cases, Bool-cases, inl, inr, bit_and,
}
use ferrous_dns.Base.Dict
use ferrous_dns.BlockFilter.BlockIndex.{
  Verdict, manual_allow, no_match, blocklist, classify_deny, group_mask, check_patterns,
  check_wildcard_and_patterns, advanced_rules, exact_bits, list_verdict, evaluate, BlockIndex,
  is_allowed, has_suffix_or_substring_rules, is_nil,
}
use ferrous_dns.BlockFilter.SuffixTrie.{
  Label, SuffixTrie, TrieNode, node, no_children, child, lookup, is_empty, walk, get, labels_of,
  same_label,
}
use Prim.Native.Nat.{bit_and-bitwise}

walk-childless : (ls : List Label) (mask : ℕ) → walk ls (node no_children mask) 0 ≡ 0
unfolding walk get
walk-childless [] mask = refl
walk-childless (l ∷ ls) mask = refl

root-empty :
    (n : TrieNode) (len : ℕ) (domain : List ℕ)
    → let t : SuffixTrie = record { root = n; len = len } in is_empty t ≡ true → lookup domain t ≡ 0
unfolding is_empty lookup
root-empty (node no_children mask) len domain e = walk-childless (labels_of domain) mask
root-empty (node (child l c cs) mask) len domain e = absurd cc

lookup-is_empty : (domain : List ℕ) (t : SuffixTrie) → is_empty t ≡ true → lookup domain t ≡ 0
lookup-is_empty domain t e = root-empty t.root t.len domain e

neither : (a b : Bool) → (not a || not b) ≡ false → (a ≡ true) × (b ≡ true)
neither true true e = (refl, refl)
neither true false e = absurd cc
neither false b e = absurd cc

pick :
    {rest rest' : Verdict} (x : ℕ)
    → rest ≡ rest'
    → ◌≡◌ {A = Verdict}
        (elim (if not (x == 0) then some x else none) [
          | some matched ↦ classify_deny blocklist matched
          | none ↦ rest
        ])
        (if not (x == 0) then classify_deny blocklist x else rest')
pick x e = elim (Bool-cases (x == 0)) [ inl h ↦ rw h e | inr h ↦ rw h refl ]

module _ {G Regex AhoCorasick Bloom : Type 0} (same : Discrete G)
    (is_match : Regex → List ℕ → Option Bool) (find : AhoCorasick → List ℕ → Bool)
    (check : Bloom → List ℕ → Bool) where
  -- No bit of the exact entry, of the suffixes or of the substrings is left out.
  unfoldable pub list_verdict_reference :
      BlockIndex G Regex AhoCorasick Bloom → List ℕ → ℕ → Verdict
  list_verdict_reference index domain mask =
      let entry : ℕ = elim (Dict.get same_label domain index.exact) [
        | none ↦ 0
        | some bits ↦ bits
      ] in
      if not (bit_and entry mask == 0)
      then classify_deny blocklist (bit_and entry mask)
      else elim (check_wildcard_and_patterns same is_match find check index domain mask) [
        | some matched ↦ classify_deny blocklist matched
        | none ↦ no_match
      ]

  no_patterns :
      (patterns : List (AhoCorasick × ℕ)) (domain : List ℕ) (mask : ℕ)
      → is_nil patterns ≡ true
      → check_patterns same is_match find check patterns domain mask ≡ none
  unfolding check_patterns
  no_patterns [] domain mask e = refl
  no_patterns (p ∷ ps) domain mask e = absurd cc

  no_rules :
      (index : BlockIndex G Regex AhoCorasick Bloom) (domain : List ℕ) (mask : ℕ)
      → has_suffix_or_substring_rules index ≡ false
      → check_wildcard_and_patterns same is_match find check index domain mask ≡ none
  unfolding has_suffix_or_substring_rules check_wildcard_and_patterns check_patterns
  no_rules index domain mask e =
      let (empty, nil) = neither (is_empty index.wildcard) (is_nil index.patterns) e in
      rw (lookup-is_empty domain index.wildcard empty)
        (rw (bit_and-bitwise 0 mask) (no_patterns index.patterns domain mask nil))

  -- Past the Bloom filter and without it the same bits are found.
  exact_bits_lem :
      (index : BlockIndex G Regex AhoCorasick Bloom) (domain : List ℕ) (mask : ℕ)
      → (Dict.get same_label domain index.exact ≢ none → check index.bloom domain ≡ true)
      → let entry : ℕ = elim (Dict.get same_label domain index.exact) [
        | none ↦ 0
        | some bits ↦ bits
      ] in
        exact_bits same is_match find check index domain mask
        ≡ (if not (bit_and entry mask == 0) then some (bit_and entry mask) else none)
  unfolding exact_bits
  exact_bits_lem index domain mask vouched =
      elim (Option-cases (Dict.get same_label domain index.exact)) [
        | inl h ↦ rw h (rw (bit_and-bitwise 0 mask) (ground arith))
        | inr (bits, h) ↦ rw (vouched (λ z. cc)) (rw h refl)
      ]

  list_verdict_lem :
      (index : BlockIndex G Regex AhoCorasick Bloom) (domain : List ℕ) (mask : ℕ)
      → (Dict.get same_label domain index.exact ≢ none → check index.bloom domain ≡ true)
      → list_verdict same is_match find check index domain mask
        ≡ list_verdict_reference index domain mask
  unfolding list_verdict list_verdict_reference
  list_verdict_lem index domain mask vouched =
      ap
        (λ o. elim o [
          | some matched ↦ classify_deny blocklist matched
          | none ↦
              if has_suffix_or_substring_rules index
              then elim (check_wildcard_and_patterns same is_match find check index domain mask) [
                | some matched ↦ classify_deny blocklist matched
                | none ↦ no_match
              ]
              else no_match
        ])
        (exact_bits_lem index domain mask vouched)
      ∙ pick (bit_and _ mask) (elim (Bool-cases (has_suffix_or_substring_rules index)) [
        | inl e ↦ rw e refl
        | inr e ↦ rw e (rw (no_rules index domain mask e) refl)
      ])

  -- The tiers, without the Bloom filter and without the test for rules of the second kind.
  unfoldable pub evaluate_reference : BlockIndex G Regex AhoCorasick Bloom → List ℕ → G → Verdict
  evaluate_reference index domain group =
      if is_allowed same index.allowlists domain group
      then manual_allow
      else elim (if any (λ g. ite (same group g) true false) index.groups_with_advanced_rules
          then advanced_rules same is_match find check index domain group
          else none) [
            | some verdict ↦ verdict
            | none ↦ list_verdict_reference index domain (group_mask same index group)
          ]

  -- Where the Bloom filter vouches for the name if it has an exact entry, the verdict is that of the
  -- tiers with no shortcut: the exact entry is looked up always, and so are the suffixes and the
  -- substrings.
  pub evaluate_lem :
      (index : BlockIndex G Regex AhoCorasick Bloom) (domain : List ℕ) (group : G)
      → (Dict.get same_label domain index.exact ≢ none → check index.bloom domain ≡ true)
      → evaluate same is_match find check index domain group ≡ evaluate_reference index domain group
  unfolding evaluate evaluate_reference
  evaluate_lem index domain group vouched =
      ap
        (λ v.
          if is_allowed same index.allowlists domain group
          then manual_allow
          else elim (if any (λ g. ite (same group g) true false) index.groups_with_advanced_rules
              then advanced_rules same is_match find check index domain group
              else none) [ some verdict ↦ verdict | none ↦ v ])
        (list_verdict_lem index domain (group_mask same index group) vouched)
