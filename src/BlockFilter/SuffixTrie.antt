-- ===== src/BlockFilter/SuffixTrie.antt =====
-- crates/infrastructure/src/dns/block_filter/suffix_trie.rs. A name is its bytes, a mask a `u64`.
pub mod Bit
pub mod Lookup
use ferrous_dns.Base.{
  ℕ, ◌+◌, Bool, true, false, not, ◌&&◌, ◌==◌, if◌then◌else◌, Option, none, some, List, [], ◌∷◌,
  ℕ_discrete,
}
use ferrous_dns.Base.Ascii
use mathlib.Core.List.{reverse}
use mathlib.Core.Logic.{ite}
use Prim.Native.Nat.{bit_or}

abbrev pub Label : Type 0
Label = List ℕ

mutual
  pub data TrieNode : Type 0 where
    node : Children → ℕ → TrieNode

  -- The `HashMap` of a node, in the order of the insertions.
  pub data Children : Type 0 where
    no_children : Children
    child : Label → TrieNode → Children → Children

pub record SuffixTrie : Type 0 where
  pub root : TrieNode
  pub len : ℕ

abbrev pub default_node : TrieNode
default_node = node no_children 0

abbrev pub empty : SuffixTrie
empty = record { root = default_node; len = 0 }

abbrev pub children : TrieNode → Children
children (node cs mask) = cs

abbrev pub wildcard_mask : TrieNode → ℕ
wildcard_mask (node cs mask) = mask

unfoldable pub same_label : Discrete Label
same_label = hlevel (ℕ_discrete)

unfoldable pub get : Label → Children → Option TrieNode
get label no_children = none
get label (child l n cs) = ite (same_label l label) (some n) (get label cs)

-- `entry(label).or_default()`, with what is then done to the node.
unfoldable pub update : Label → (TrieNode → TrieNode) → Children → Children
update label f no_children = child label (f default_node) no_children
update label f (child l n cs) =
    ite (same_label l label) (child l (f n) cs) (child l n (update label f cs))

-- `split('.')`.
unfoldable pub split_dots : List ℕ → List Label
split_dots [] = [] ∷ []
split_dots (c ∷ s) =
    let rest = split_dots s in
    if c == 46
    then [] ∷ rest
    else elim rest [ [] ↦ (c ∷ []) ∷ [] | label ∷ labels ↦ (c ∷ label) ∷ labels ]

abbrev pub labels_of : List ℕ → List Label
labels_of domain = reverse (split_dots domain)

-- `pattern.strip_prefix("*.").unwrap_or(pattern)`.
unfoldable pub strip_star : List ℕ → List ℕ
strip_star (a ∷ b ∷ rest) = if (a == 42) && (b == 46) then rest else a ∷ b ∷ rest
strip_star s = s

-- The mask of the node that the loop of `insert_wildcard` ends at.
unfoldable pub mask_at : List Label → TrieNode → ℕ
mask_at [] n = wildcard_mask n
mask_at (l ∷ ls) n = elim (get l (children n)) [ none ↦ 0 | some c ↦ mask_at ls c ]

unfoldable pub insert_at : List Label → ℕ → TrieNode → TrieNode
insert_at [] source_mask (node cs mask) = node cs (bit_or mask source_mask)
insert_at (l ∷ ls) source_mask (node cs mask) = node (update l (insert_at ls source_mask) cs) mask

unfoldable pub insert_wildcard : List ℕ → ℕ → SuffixTrie → Bool × SuffixTrie
insert_wildcard pattern source_mask t =
    let labels = labels_of (strip_star pattern) in
    let is_new = mask_at labels t.root == 0 in
    (
      is_new,
      record {
        root = insert_at labels source_mask t.root;
        len = if is_new then t.len + 1 else t.len;
      },
    )

unfoldable pub is_empty : SuffixTrie → Bool
is_empty t = elim (children t.root) [ no_children ↦ true | child l n cs ↦ false ]

abbrev pub is_last : List Label → Bool
is_last [] = true
is_last (l ∷ ls) = false

-- The loop of `lookup`: `i + 1 < n` says that labels are left.
unfoldable pub walk : List Label → TrieNode → ℕ → ℕ
walk [] n result = result
walk (l ∷ ls) n result = elim (get l (children n)) [
  | none ↦ result
  | some c ↦ walk ls c (
      if not (wildcard_mask c == 0) && not (is_last ls)
      then bit_or result (wildcard_mask c)
      else result)
]

unfoldable pub lookup : List ℕ → SuffixTrie → ℕ
lookup domain t = walk (labels_of domain) t.root 0
