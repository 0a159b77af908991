-- ===== src/CountedMap/Eviction.antt =====
-- The eviction of counted_map.rs makes room.
use ferrous_dns.Base.{
  ℕ, ◌+◌, ◌≤◌, ◌<◌, ◌≡◌, ◌∙◌, refl, sym, ap, Bool, leb, ltb, Bool-cases, inl, inr, some, List, [],
  ◌∷◌, length, take, arith, if_pos,
}
use ferrous_dns.Base.Dict
use ferrous_dns.CountedMap
use ferrous_dns.CountedMap.{CountedDashMap, fetch_sub, expired_keys}
use ferrous_dns.CountedMap.Count.{IsExact, remove_present, remove_all_size}

module _ {K V : Type 0} (same : Discrete K) where
  remove_first-lt :
      (m : List (K × V)) (c : CountedDashMap K V)
      → m ≡ c.map
      → IsExact same c
      → 0 < c.len
      → (CountedMap.remove_first same c m).len + 1 ≡ c.len
  unfolding CountedMap.remove Dict.get
  remove_first-lt [] c e h some_entry =
      let empty : length c.map ≡ 0 = ap length (sym e) in absurd (omega (arith, h.exact))
  remove_first-lt ((k, v) ∷ m) c e h some_entry =
      let found : Dict.get same k c.map ≡ some v = ap (Dict.get same k) (sym e) ∙ head_found in
      rw (found, CountedMap.remove) (sym (remove_present same c k v h found).0)
    where
      head_found : Dict.get same k ((k, v) ∷ m) ≡ some v
      head_found = if_pos (same k k) refl _ _

  -- An eviction leaves fewer than `max` entries in a map that held at most `max`, for an exact
  -- count and a `max` that is not zero: there is room for one insert.
  pub evict_if_full-lt :
      (batch : ℕ) (c : CountedDashMap K V) (max : ℕ) (is_expired : V → Bool)
      → IsExact same c
      → 0 < max
      → c.len ≤ max
      → (CountedMap.evict_if_full same batch c max is_expired).len < max
  unfolding CountedMap.evict_if_full
  evict_if_full-lt batch c max is_expired h pos bound =
      let keys = expired_keys is_expired (take batch c.map) in
      let c' = CountedMap.remove_all same c keys in
      let (v, fewer) = remove_all_size same keys c h in
      elim (Bool-cases (ltb c.len max)) [
        | inl room ↦ rw room (ground arith)
        | inr full ↦ rw full (elim (Bool-cases (leb max c'.len)) [
          | inr made ↦ rw made (ground arith)
          | inl still ↦
              let at_max : max ≤ c'.len = ground arith in
              let one_less = remove_first-lt c'.map c' refl v (omega (arith, at_max)) in
              rw still (omega (arith, one_less, fewer))
        ])
      ]
