-- ===== src/BlockFilter/SuffixTrie/Lookup.antt =====
-- crates/infrastructure/src/dns/block_filter/suffix_trie.rs: which rules a name meets.
use ferrous_dns.Base.{
  ℕ, Bool, true, false, not, ◌&&◌, ◌||◌, ◌==◌, ==_iff, if◌then◌else◌, Option, none, some, List, [],
  ◌∷◌, ◌≡◌, refl, sym, ap, ◌∙◌, arith, ite, any, inl, inr, Bool-cases,
}
use ferrous_dns.BlockFilter.SuffixTrie.{
  Label, TrieNode, node, Children, no_children, child, SuffixTrie, default_node, empty, children,
  wildcard_mask, same_label, get, update, labels_of, strip_star, insert_at, insert_wildcard,
  is_last, walk, lookup,
}
use ferrous_dns.BlockFilter.SuffixTrie.Bit.{has_bit, has_bit-bit_or, has_bit-zero}
use Prim.Native.Nat.{bit_or}

or_default : Option TrieNode → TrieNode
or_default none = default_node
or_default (some n) = n

get-update :
    (l j : Label) (f : TrieNode → TrieNode) (cs : Children)
    → get j (update l f cs) ≡ ite (same_label l j) (some (f (or_default (get l cs)))) (get j cs)
unfolding get update or_default
get-update l j f no_children = refl
get-update l j f (child k n cs) = ground (arith, get-update l j f cs)

-- The first list begins the second one and ends before it.
unfoldable pub is_strict_prefix : List Label → List Label → Bool
is_strict_prefix [] labels = not (is_last labels)
is_strict_prefix (l ∷ ls) [] = false
is_strict_prefix (l ∷ ls) (j ∷ js) = ite (same_label l j) (is_strict_prefix ls js) false

unfoldable pub covers : List Label → List Label → Bool
covers pattern labels = not (is_last pattern) && is_strict_prefix pattern labels

-- Some node on the way, the last label's left out, holds the bit.
hits : ℕ → List Label → TrieNode → Bool
hits k [] n = false
hits k (l ∷ ls) n = elim (get l (children n)) [
  | none ↦ false
  | some c ↦ (not (is_last ls) && has_bit k (wildcard_mask c)) || hits k ls c
]

below : ℕ → List Label → Option TrieNode → Bool
below k ls o = elim o [
  | none ↦ false
  | some c ↦ (not (is_last ls) && has_bit k (wildcard_mask c)) || hits k ls c
]

taken-has_bit :
    (k result mask : ℕ) (b : Bool)
    → has_bit k (if not (mask == 0) && b then bit_or result mask else result)
      ≡ (has_bit k result || (b && has_bit k mask))
taken-has_bit k result mask true = elim (Bool-cases (mask == 0)) [
  | inl h ↦ rw ((==_iff mask 0).0 h) (ground (arith, has_bit-zero k))
  | inr h ↦ rw h (has_bit-bit_or k result mask)
]
taken-has_bit k result mask false = ground arith

or_swap :
    (a w m x : Bool) → ((a && (w || m)) || (x || (m && false))) ≡ (((a && w) || x) || (m && a))
or_swap a w m x = ground arith

or_assoc : (a b c : Bool) → (a || (b || c)) ≡ ((a || b) || c)
or_assoc a b c = ground arith

walk-has_bit :
    (k : ℕ) (ls : List Label) (n : TrieNode) (result : ℕ)
    → has_bit k (walk ls n result) ≡ (has_bit k result || hits k ls n)
unfolding walk hits below
walk-has_bit k [] n result = ground arith
walk-has_bit k (l ∷ ls) n result =
    elim (get l (children n))
      as (λ o.
        has_bit k (elim o [
          | none ↦ result
          | some c ↦ walk ls c (
              if not (wildcard_mask c == 0) && not (is_last ls)
              then bit_or result (wildcard_mask c)
              else result)
        ])
        ≡ (has_bit k result || below k ls o)) [
          | none ↦ ground arith
          | some c ↦
              walk-has_bit k ls c _
              ∙ ap (λ b. b || hits k ls c)
                  (taken-has_bit k result (wildcard_mask c) (not (is_last ls)))
              ∙ sym (
                  or_assoc (has_bit k result) (not (is_last ls) && has_bit k (wildcard_mask c))
                    (hits k ls c))
        ]

below-or_default :
    (k : ℕ) (ls : List Label) (o : Option TrieNode)
    → below k ls (some (or_default o)) ≡ below k ls o
unfolding hits below or_default get
below-or_default k [] none = refl
below-or_default k (l ∷ ls) none = rw (has_bit-zero k) refl
below-or_default k ls (some c) = refl

below-insert_at :
    (k m : ℕ) (q d : List Label) (n : TrieNode)
    → hits k d (insert_at q m n) ≡ (hits k d n || (has_bit k m && covers q d))
    → below k d (some (insert_at q m n))
      ≡ (below k d (some n) || (has_bit k m && is_strict_prefix q d))
unfolding below insert_at covers is_strict_prefix
below-insert_at k m [] d (node cs w) ih = rw ih (
    rw (has_bit-bit_or k w m)
      (or_swap (not (is_last d)) (has_bit k w) (has_bit k m) (hits k d (node cs w))))
below-insert_at k m (l ∷ ls) d (node cs w) ih = rw ih (
    or_assoc (not (is_last d) && has_bit k w) (hits k d (node cs w))
      (has_bit k m && is_strict_prefix (l ∷ ls) d))

hits-insert_at :
    (k m : ℕ) (q d : List Label) (n : TrieNode)
    → hits k d (insert_at q m n) ≡ (hits k d n || (has_bit k m && covers q d))
unfolding hits below insert_at covers is_strict_prefix
hits-insert_at k m [] [] (node cs w) = ground arith
hits-insert_at k m [] (j ∷ js) (node cs w) = ground arith
hits-insert_at k m (l ∷ ls) [] (node cs w) = ground arith
hits-insert_at k m (l ∷ ls) (j ∷ js) (node cs w) =
    ap (below k js) (get-update l j (insert_at ls m) cs)
    ∙ (elim (same_label l j)
        as (λ d.
          below k js (ite d (some (insert_at ls m (or_default (get l cs)))) (get j cs))
          ≡ (below k js (get j cs) || (has_bit k m && ite d (is_strict_prefix ls js) false))) [
            | yes e ↦
                below-insert_at k m ls js (or_default (get l cs))
                  (hits-insert_at k m ls js (or_default (get l cs)))
                ∙ ap (λ b. b || (has_bit k m && is_strict_prefix ls js))
                    (below-or_default k js (get l cs) ∙ ap (λ t. below k js (get t cs)) e)
            | no ne ↦ ground arith
          ])

hits-empty : (k : ℕ) (ls : List Label) → hits k ls default_node ≡ false
unfolding hits get
hits-empty k [] = refl
hits-empty k (l ∷ ls) = refl

-- The rules in the order in which they come, each pattern with its source's mask.
unfoldable pub insert_all : List (List ℕ × ℕ) → SuffixTrie → SuffixTrie
insert_all [] t = t
insert_all ((pattern, mask) ∷ rules) t = insert_all rules (insert_wildcard pattern mask t).1

unfoldable pub rule_hits : ℕ → List ℕ → List ℕ × ℕ → Bool
rule_hits k domain (pattern, mask) =
    has_bit k mask && covers (labels_of (strip_star pattern)) (labels_of domain)

insert_all-hits :
    (k : ℕ) (domain : List ℕ) (rules : List (List ℕ × ℕ)) (t : SuffixTrie)
    → hits k (labels_of domain) (insert_all rules t).root
      ≡ (hits k (labels_of domain) t.root || any (rule_hits k domain) rules)
unfolding insert_all rule_hits insert_wildcard
insert_all-hits k domain [] t = ground arith
insert_all-hits k domain ((pattern, mask) ∷ rules) t =
    insert_all-hits k domain rules (insert_wildcard pattern mask t).1
    ∙ ap (λ b. b || any (rule_hits k domain) rules)
        (hits-insert_at k mask (labels_of (strip_star pattern)) (labels_of domain) t.root)
    ∙ sym (
        or_assoc (hits k (labels_of domain) t.root)
          (has_bit k mask && covers (labels_of (strip_star pattern)) (labels_of domain))
          (any (rule_hits k domain) rules))

-- After the insertion of all the rules, a bit is in what the lookup of a domain returns exactly when
-- some rule whose mask has the bit names, a leading `*.` aside, a suffix of the domain that is made
-- of whole labels and is not the whole domain.
pub lookup-insert_all :
    (k : ℕ) (domain : List ℕ) (rules : List (List ℕ × ℕ))
    → has_bit k (lookup domain (insert_all rules empty)) ≡ any (rule_hits k domain) rules
unfolding lookup
lookup-insert_all k domain rules =
    walk-has_bit k (labels_of domain) (insert_all rules empty).root 0
    ∙ rw (has_bit-zero k) (
        insert_all-hits k domain rules empty
        ∙ ap (λ b. b || any (rule_hits k domain) rules) (hits-empty k (labels_of domain)))
