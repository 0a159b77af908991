-- ===== src/CountedMap.antt =====
-- A map with a count of its entries, crates/infrastructure/src/counted_map.rs, where no two calls
-- run at once. A call returns the map after it. The count is kept apart from the map, as in the
-- code, and `fetch_sub` wraps at 2^64.
pub mod Count
pub mod Eviction
mod Tests
use ferrous_dns.Base.{
  ℕ, ◌+◌, ◌-◌, ◌%◌, ◌^◌, Bool, true, false, not, leb, ltb, ◌==◌, if◌then◌else◌, Option, none, some,
  is_some, List, [], ◌∷◌, length, take,
}
use ferrous_dns.Base.Dict

pub record CountedDashMap (K V : Type 0) : Type 0 where
  pub map : List (K × V)
  pub len : ℕ

unfoldable pub fetch_add : ℕ → ℕ → ℕ
fetch_add n d = (n + d) % 2 ^ 64

unfoldable pub fetch_sub : ℕ → ℕ → ℕ
fetch_sub n d = (n + (2 ^ 64 - d)) % 2 ^ 64

module _ {K V : Type 0} where
  -- `from_map`, and `from_iter` for entries with distinct keys.
  unfoldable pub from_map : List (K × V) → CountedDashMap K V
  from_map map = record { map = map; len = length map }

  abbrev pub new : CountedDashMap K V
  new = record { map = []; len = 0 }

  unfoldable pub is_empty : CountedDashMap K V → Bool
  is_empty c = c.len == 0

  -- How many entries a `retain` removes: its closure counts them.
  abbrev pub count_rejected : (K → V → Bool) → List (K × V) → ℕ
  count_rejected f [] = 0
  count_rejected f ((k, v) ∷ m) = (if f k v then 0 else 1) + count_rejected f m

  -- `map.iter().take(BATCH).filter(is_expired)`, the keys.
  abbrev pub expired_keys : (V → Bool) → List (K × V) → List K
  expired_keys is_expired [] = []
  expired_keys is_expired ((k, v) ∷ m) =
      if is_expired v then k ∷ expired_keys is_expired m else expired_keys is_expired m

module _ {K V : Type 0} (same : Discrete K) where
  unfoldable pub get : CountedDashMap K V → K → Option V
  get c key = Dict.get same key c.map

  unfoldable pub insert : CountedDashMap K V → K → V → CountedDashMap K V × Option V
  insert c key value =
      let counted = fetch_add c.len 1 in
      let previous = Dict.get same key c.map in
      (
        record {
          map = Dict.insert same key value c.map;
          len = if is_some previous then fetch_sub counted 1 else counted;
        },
        previous,
      )

  unfoldable pub remove : CountedDashMap K V → K → CountedDashMap K V × Option V
  remove c key =
      let removed = Dict.get same key c.map in
      (
        record {
          map = Dict.remove same key c.map;
          len = if is_some removed then fetch_sub c.len 1 else c.len;
        },
        removed,
      )

  abbrev pub accepted : (K → V → Bool) → K → Option V → Option V
  accepted f key none = none
  accepted f key (some v) = if f key v then some v else none

  unfoldable pub remove_if : CountedDashMap K V → K → (K → V → Bool) → CountedDashMap K V × Option V
  remove_if c key f =
      let removed = accepted f key (Dict.get same key c.map) in
      (
        record {
          map = if is_some removed then Dict.remove same key c.map else c.map;
          len = if is_some removed then fetch_sub c.len 1 else c.len;
        },
        removed,
      )

  unfoldable pub retain : CountedDashMap K V → (K → V → Bool) → CountedDashMap K V × ℕ
  retain c f =
      let removed = count_rejected f c.map in
      (record { map = Dict.retain same f c.map; len = fetch_sub c.len removed }, removed)

  unfoldable pub clear : CountedDashMap K V → CountedDashMap K V
  clear c = (retain c (λ _ _. false)).0

  abbrev pub remove_all : CountedDashMap K V → List K → CountedDashMap K V
  remove_all c [] = c
  remove_all c (key ∷ keys) = remove_all (remove c key).0 keys

  abbrev pub remove_first : CountedDashMap K V → List (K × V) → CountedDashMap K V
  remove_first c [] = c
  remove_first c ((key, v) ∷ m) = (remove c key).0

  unfoldable pub evict_if_full : ℕ → CountedDashMap K V → ℕ → (V → Bool) → CountedDashMap K V
  evict_if_full batch c max is_expired =
      if ltb c.len max
      then c
      else (let c' = remove_all c (expired_keys is_expired (take batch c.map)) in
          if leb max c'.len then remove_first c' c'.map else c')
