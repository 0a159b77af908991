-- ===== src/BlockFilter/BlockIndex.antt =====
-- crates/infrastructure/src/dns/block_filter/block_index.rs: the compiled index and its verdict. A
-- group is compared only; the regexes, the substring automata and the Bloom filter are parameters,
-- and of a regex `none` is an error. A set or a map is the list of its entries.
pub mod Evaluate
pub mod Groups
use ferrous_dns.Base.{
  ℕ, ◌^◌, Bool, true, false, not, ◌&&◌, ◌||◌, ◌==◌, if◌then◌else◌, Option, none, some, List, [],
  ◌∷◌, any, is_some, bit_and, ite,
}
use ferrous_dns.Base.Dict
use ferrous_dns.BlockFilter.SuffixTrie.{SuffixTrie, same_label, lookup, is_empty}

pub data BlockSource : Type 0 where
  blocklist managed_domain regex_filter cname_cloaking schedule dns_rebinding rate_limit
        dns_tunneling nxdomain_hijack response_ip_filter dga_detection non_fqdn private_ptr
        dns_cookie :
      BlockSource

pub data Verdict : Type 0 where
  manual_allow : Verdict
  manual_deny block : BlockSource → Verdict
  no_match : Verdict

abbrev pub manual_source_bit : ℕ
manual_source_bit = 2 ^ 63

unfoldable pub classify_deny : BlockSource → ℕ → Verdict
classify_deny source matched_bits =
    if not (bit_and matched_bits manual_source_bit == 0) then manual_deny source else block source

abbrev pub contains : List ℕ → List (List ℕ) → Bool
contains name = any (λ entry. ite (same_label name entry) true false)

pub record AllowlistIndex (G : Type 0) : Type 0 where
  pub global_exact : List (List ℕ)
  pub global_wildcard : SuffixTrie
  pub group_exact : List (G × List (List ℕ × ℕ))
  pub group_wildcard : List (G × SuffixTrie)

pub record BlockIndex (G Regex AhoCorasick Bloom : Type 0) : Type 0 where
  pub group_masks : List (G × ℕ)
  pub exact : List (List ℕ × ℕ)
  pub bloom : Bloom
  pub wildcard : SuffixTrie
  pub patterns : List (AhoCorasick × ℕ)
  pub allowlists : AllowlistIndex G
  pub managed_denies : List (G × List (List ℕ))
  pub managed_deny_wildcards : List (G × SuffixTrie)
  pub allow_regex_patterns : List (G × List Regex)
  pub block_regex_patterns : List (G × List Regex)
  pub groups_with_advanced_rules : List G

-- `if let Some(value) = map.get(&group)`, false without one.
abbrev pub for_group : {G V : Type 0} → Discrete G → G → List (G × V) → (V → Bool) → Bool
for_group same group m test = elim (Dict.get same group m) [
  | none ↦ false
  | some value ↦ test value
]

abbrev pub is_nil : {A : Type 0} → List A → Bool
is_nil [] = true
is_nil (x ∷ xs) = false

abbrev pub in_trie : List ℕ → SuffixTrie → Bool
in_trie domain trie = not (lookup domain trie == 0)

unfoldable pub has_suffix_or_substring_rules : {G R A B : Type 0} → BlockIndex G R A B → Bool
has_suffix_or_substring_rules index = not (is_empty index.wildcard) || not (is_nil index.patterns)

module _ {G : Type 0} (same : Discrete G) where
  unfoldable pub is_allowed : AllowlistIndex G → List ℕ → G → Bool
  is_allowed allowlists domain group =
      if for_group same group allowlists.group_exact
        (λ entries. is_some (Dict.get same_label domain entries))
      then true
      else if for_group same group allowlists.group_wildcard (in_trie domain)
      then true
      else if contains domain allowlists.global_exact
      then true
      else if in_trie domain allowlists.global_wildcard
      then true
      else false

  -- A group that is not in the map has the bit of the manual list.
  unfoldable pub group_mask : {R A B : Type 0} → BlockIndex G R A B → G → ℕ
  group_mask index group = elim (Dict.get same group index.group_masks) [
    | none ↦ manual_source_bit
    | some mask ↦ mask
  ]

  module _ {Regex AhoCorasick Bloom : Type 0} (is_match : Regex → List ℕ → Option Bool)
      (find : AhoCorasick → List ℕ → Bool) (check : Bloom → List ℕ → Bool) where
    abbrev pub Index : Type 0
    Index = BlockIndex G Regex AhoCorasick Bloom

    -- `is_match(domain).unwrap_or(false)` of one of the rules.
    abbrev pub matches : List ℕ → List Regex → Bool
    matches domain = any (λ rule. elim (is_match rule domain) [ none ↦ false | some b ↦ b ])

    -- The loop over the patterns.
    unfoldable pub check_patterns : List (AhoCorasick × ℕ) → List ℕ → ℕ → Option ℕ
    check_patterns [] domain mask = none
    check_patterns ((ac, source_mask) ∷ patterns) domain mask =
        let rest = check_patterns patterns domain mask in
        let matched = bit_and source_mask mask in
        if not (matched == 0) && find ac domain then some matched else rest

    unfoldable pub check_wildcard_and_patterns : Index → List ℕ → ℕ → Option ℕ
    check_wildcard_and_patterns index domain mask =
        let wildcard_bits = bit_and (lookup domain index.wildcard) mask in
        if not (wildcard_bits == 0)
        then some wildcard_bits
        else check_patterns index.patterns domain mask

    -- The part under `if has_advanced`; `none` goes on.
    unfoldable pub advanced_rules : Index → List ℕ → G → Option Verdict
    advanced_rules index domain group =
        if for_group same group index.allow_regex_patterns (matches domain)
        then some manual_allow
        else if for_group same group index.managed_denies (contains domain)
        then some (manual_deny managed_domain)
        else if for_group same group index.managed_deny_wildcards (in_trie domain)
        then some (manual_deny managed_domain)
        else if for_group same group index.block_regex_patterns (matches domain)
        then some (manual_deny regex_filter)
        else none

    -- The entry of `exact`, which is looked up only past the Bloom filter.
    unfoldable pub exact_bits : Index → List ℕ → ℕ → Option ℕ
    exact_bits index domain mask =
        if check index.bloom domain
        then elim (Dict.get same_label domain index.exact) [
          | none ↦ none
          | some entry ↦
              let matched = bit_and entry mask in if not (matched == 0) then some matched else none
        ]
        else none

    unfoldable pub list_verdict : Index → List ℕ → ℕ → Verdict
    list_verdict index domain mask = elim (exact_bits index domain mask) [
      | some matched ↦ classify_deny blocklist matched
      | none ↦
          if has_suffix_or_substring_rules index
          then elim (check_wildcard_and_patterns index domain mask) [
            | some matched ↦ classify_deny blocklist matched
            | none ↦ no_match
          ]
          else no_match
    ]

    unfoldable pub evaluate : Index → List ℕ → G → Verdict
    evaluate index domain group =
        if is_allowed index.allowlists domain group
        then manual_allow
        else let mask = group_mask index group in
          let has_advanced =
            any (λ g. ite (same group g) true false) index.groups_with_advanced_rules in
          elim (if has_advanced then advanced_rules index domain group else none) [
            | some verdict ↦ verdict
            | none ↦ list_verdict index domain mask
          ]
