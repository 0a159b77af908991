-- ===== src/BlockFilter/Tests.antt =====
-- Small indexes, and the theorems on them.
use ferrous_dns.Base.{
  ℕ, Bool, true, false, Option, some, List, [], ◌∷◌, ◌≡◌, refl, ℕ_discrete, ite, ◌==◌,
}
use ferrous_dns.Base.Dict
use ferrous_dns.BlockFilter.SuffixTrie.{
  empty, lookup, same_label, walk, split_dots, get, insert_wildcard, insert_at, strip_star, update,
  is_empty,
}
use ferrous_dns.BlockFilter.SuffixTrie.Bit.{has_bit}
use ferrous_dns.BlockFilter.SuffixTrie.Lookup.{
  insert_all, rule_hits, covers, is_strict_prefix, lookup-insert_all,
}
use ferrous_dns.BlockFilter.BlockIndex.{
  BlockIndex, manual_deny, block, blocklist, evaluate, manual_source_bit, list_verdict, exact_bits,
  check_wildcard_and_patterns, check_patterns, advanced_rules, group_mask, is_allowed,
  has_suffix_or_substring_rules, classify_deny,
}
use ferrous_dns.BlockFilter.BlockIndex.Evaluate.{evaluate_reference, evaluate_lem}
use ferrous_dns.BlockFilter.BlockIndex.Groups.{is_block, evaluate-without_mask}

-- "*.b", "b.c", "a.b" and "b".
abbrev star_b : List ℕ
star_b = 42 ∷ 46 ∷ 98 ∷ []

abbrev b_c : List ℕ
b_c = 98 ∷ 46 ∷ 99 ∷ []

abbrev a_b : List ℕ
a_b = 97 ∷ 46 ∷ 98 ∷ []

abbrev b : List ℕ
b = 98 ∷ []

abbrev rules : List (List ℕ × ℕ)
rules = (b_c, 2) ∷ (star_b, 8) ∷ []

lookup-below : lookup a_b (insert_all rules empty) ≡ 8
unfolding lookup walk split_dots get insert_all insert_wildcard insert_at strip_star update
    same_label ℕ_discrete
lookup-below = refl

lookup-itself : lookup b (insert_all rules empty) ≡ 0
unfolding lookup walk split_dots get insert_all insert_wildcard insert_at strip_star update
    same_label ℕ_discrete
lookup-itself = refl

lookup-insert_all_example : has_bit 3 (lookup a_b (insert_all rules empty)) ≡ true
unfolding rule_hits has_bit covers is_strict_prefix split_dots strip_star same_label ℕ_discrete
lookup-insert_all_example = lookup-insert_all 3 a_b rules

-- A regex matches its own name, a matcher the names of its length; the filter knows "a.b" only.
abbrev is_match : List ℕ → List ℕ → Option Bool
is_match rule name = some (ite (same_label rule name) true false)

abbrev find : ℕ → List ℕ → Bool
find n name = n == 3

abbrev check : List ℕ → List ℕ → Bool
check bloom name = ite (same_label bloom name) true false

abbrev index : BlockIndex ℕ (List ℕ) ℕ (List ℕ)
index = record {
  group_masks = (1, 2) ∷ [];
  exact = (a_b, 2) ∷ [];
  bloom = a_b;
  wildcard = insert_all rules empty;
  patterns = (3, manual_source_bit) ∷ [];
  allowlists = record {
    global_exact = b ∷ [];
    global_wildcard = empty;
    group_exact = [];
    group_wildcard = [];
  };
  managed_denies = [];
  managed_deny_wildcards = [];
  allow_regex_patterns = [];
  block_regex_patterns = (1, b_c ∷ []) ∷ [];
  groups_with_advanced_rules = 1 ∷ [];
}

evaluate-listed : evaluate ℕ_discrete is_match find check index a_b 1 ≡ block blocklist
unfolding lookup walk split_dots get insert_all insert_wildcard insert_at strip_star update
    same_label ℕ_discrete evaluate list_verdict exact_bits check_wildcard_and_patterns
    check_patterns advanced_rules group_mask is_allowed has_suffix_or_substring_rules is_empty
    classify_deny Dict.get
evaluate-listed = refl

evaluate-of_no_group : evaluate ℕ_discrete is_match find check index a_b 2 ≡ manual_deny blocklist
unfolding lookup walk split_dots get insert_all insert_wildcard insert_at strip_star update
    same_label ℕ_discrete evaluate list_verdict exact_bits check_wildcard_and_patterns
    check_patterns advanced_rules group_mask is_allowed has_suffix_or_substring_rules is_empty
    classify_deny Dict.get
evaluate-of_no_group = refl

evaluate_lem_example :
    evaluate ℕ_discrete is_match find check index a_b 1
    ≡ evaluate_reference ℕ_discrete is_match find check index a_b 1
unfolding same_label ℕ_discrete
evaluate_lem_example = evaluate_lem ℕ_discrete is_match find check index a_b 1 (λ h. refl)

evaluate-without_mask_example :
    is_block (evaluate ℕ_discrete is_match find check index a_b 2) ≡ false
unfolding Dict.get ℕ_discrete
evaluate-without_mask_example =
    evaluate-without_mask ℕ_discrete is_match find check index a_b 2 refl
