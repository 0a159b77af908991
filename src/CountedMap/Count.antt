-- ===== src/CountedMap/Count.antt =====
-- The count of counted_map.rs is the map's size.
use ferrous_dns.Base.{
  ℕ, ◌+◌, ◌^◌, ◌≤◌, ◌<◌, ◌≡◌, refl, Bool, false, leb, ltb, Bool-cases, Option-cases, inl, inr, some,
  List, [], ◌∷◌, length, take, arith,
}
use ferrous_dns.Base.Dict
use ferrous_dns.CountedMap
use ferrous_dns.CountedMap.{CountedDashMap, fetch_add, fetch_sub, count_rejected, expired_keys}

-- Distinct keys, and a count that is the size of the map, below 2^64.
pub record IsExact {K V : Type 0} (same : Discrete K) (c : CountedDashMap K V) : Type 0 where
  pub distinct : Dict.IsDistinct same c.map
  pub exact : c.len ≡ length c.map
  pub usize : c.len < 2 ^ 64

length-retain :
    {K V : Type 0} (same : Discrete K) (f : K → V → Bool) (m : List (K × V))
    → length (Dict.retain same f m) + count_rejected f m ≡ length m
unfolding Dict.retain
length-retain same f [] = refl
length-retain same f ((k, v) ∷ m) = ground (arith, length-retain same f m)

module _ {K V : Type 0} (same : Discrete K) where
  -- The size of a map after an insert.
  pub insert_size :
      (c : CountedDashMap K V) (k : K) (v : V)
      → IsExact same c
      → c.len + 1 < 2 ^ 64
      → IsExact same (CountedMap.insert same c k v).0
        × ((CountedMap.insert same c k v).0.len ≤ c.len + 1)
  unfolding CountedMap.insert fetch_add fetch_sub
  insert_size c k v h room = elim (Option-cases (Dict.get same k c.map)) [
    | inl absent ↦
        let size = rw absent at (Dict.length-insert same k v c.map) in
        rw (absent, CountedMap.insert)
          (
            record {
              distinct = Dict.insert-IsDistinct same k v c.map h.distinct;
              exact = omega (arith, size, h.exact);
              usize = omega arith;
            },
            omega arith,
          )
    | inr (w, present) ↦
        let size = rw present at (Dict.length-insert same k v c.map) in
        rw (present, CountedMap.insert)
          (
            record {
              distinct = Dict.insert-IsDistinct same k v c.map h.distinct;
              exact = omega (arith, size, h.exact);
              usize = omega arith;
            },
            omega arith,
          )
  ]

  -- The count after a removal that found its key.
  pub remove_present :
      (c : CountedDashMap K V) (k : K) (v : V)
      → IsExact same c
      → Dict.get same k c.map ≡ some v
      → (c.len ≡ fetch_sub c.len 1 + 1)
        × IsExact same (record { map = Dict.remove same k c.map; len = fetch_sub c.len 1 })
  unfolding fetch_sub
  remove_present c k v h e =
      let size = Dict.length-remove same k v c.map h.distinct e in
      (
        omega (arith, size, h.exact, h.usize),
        record {
          distinct = Dict.remove-IsDistinct same k c.map h.distinct;
          exact = omega (arith, size, h.exact, h.usize);
          usize = omega arith;
        },
      )

  pub remove_size :
      (c : CountedDashMap K V) (k : K)
      → IsExact same c
      → IsExact same (CountedMap.remove same c k).0 × ((CountedMap.remove same c k).0.len ≤ c.len)
  unfolding CountedMap.remove
  remove_size c k h = elim (Option-cases (Dict.get same k c.map)) [
    | inl absent ↦
        rw (absent, CountedMap.remove) (rw (Dict.remove_absent same k c.map absent) h, omega arith)
    | inr (v, e) ↦
        let (smaller, exact) = remove_present c k v h e in
        rw (e, CountedMap.remove) (exact, omega (arith, smaller))
  ]

  pub remove_if_size :
      (c : CountedDashMap K V) (k : K) (f : K → V → Bool)
      → IsExact same c
      → IsExact same (CountedMap.remove_if same c k f).0
        × ((CountedMap.remove_if same c k f).0.len ≤ c.len)
  unfolding CountedMap.remove_if
  remove_if_size c k f h = elim (Option-cases (Dict.get same k c.map)) [
    | inl absent ↦ rw (absent, CountedMap.remove_if) (h, omega arith)
    | inr (v, e) ↦ elim (Bool-cases (f k v)) [
      | inl yes_f ↦
          let (smaller, exact) = remove_present c k v h e in
          rw (e, yes_f, CountedMap.remove_if) (exact, omega (arith, smaller))
      | inr no_f ↦ rw (e, no_f, CountedMap.remove_if) (h, omega arith)
    ]
  ]

  pub retain_size :
      (c : CountedDashMap K V) (f : K → V → Bool)
      → IsExact same c
      → IsExact same (CountedMap.retain same c f).0 × ((CountedMap.retain same c f).0.len ≤ c.len)
  unfolding CountedMap.retain fetch_sub
  retain_size c f h =
      let size = length-retain same f c.map in
      (
        record {
          distinct = Dict.retain-IsDistinct same f c.map h.distinct;
          exact = omega (arith, size, h.exact, h.usize);
          usize = omega arith;
        },
        omega (arith, size, h.exact, h.usize),
      )

  pub remove_all_size :
      (keys : List K) (c : CountedDashMap K V)
      → IsExact same c
      → IsExact same (CountedMap.remove_all same c keys)
        × ((CountedMap.remove_all same c keys).len ≤ c.len)
  remove_all_size [] c h = (h, omega arith)
  remove_all_size (k ∷ keys) c h =
      let (v, one) = remove_size c k h in
      let (w, rest) = remove_all_size keys (CountedMap.remove same c k).0 v in
      (w, omega (arith, one, rest))

  pub remove_first_size :
      (m : List (K × V)) (c : CountedDashMap K V)
      → IsExact same c
      → IsExact same (CountedMap.remove_first same c m)
        × ((CountedMap.remove_first same c m).len ≤ c.len)
  remove_first_size [] c h = (h, omega arith)
  remove_first_size ((k, v) ∷ m) c h = remove_size c k h

  pub evict_if_full_size :
      (batch : ℕ) (c : CountedDashMap K V) (max : ℕ) (is_expired : V → Bool)
      → IsExact same c
      → IsExact same (CountedMap.evict_if_full same batch c max is_expired)
        × ((CountedMap.evict_if_full same batch c max is_expired).len ≤ c.len)
  unfolding CountedMap.evict_if_full
  evict_if_full_size batch c max is_expired h =
      let keys = expired_keys is_expired (take batch c.map) in
      let c' = CountedMap.remove_all same c keys in
      let (v, fewer) = remove_all_size keys c h in
      let (w, one_less) = remove_first_size c'.map c' v in
      elim (Bool-cases (ltb c.len max)) [
        | inl room ↦ rw room (h, omega arith)
        | inr full ↦ rw full (elim (Bool-cases (leb max c'.len)) [
          | inr made ↦ rw made (v, fewer)
          | inl still ↦ rw still (w, omega (arith, fewer, one_less))
        ])
      ]

-- The calls that change the map.
pub data Call (K V : Type 0) : Type 0 where
  inserts : K → V → Call K V
  removes : K → Call K V
  removes_if : K → (K → V → Bool) → Call K V
  retains : (K → V → Bool) → Call K V
  clears : Call K V
  evicts : ℕ → ℕ → (V → Bool) → Call K V

module _ {K V : Type 0} (same : Discrete K) where
  abbrev pub call : CountedDashMap K V → Call K V → CountedDashMap K V
  call c (inserts k v) = (CountedMap.insert same c k v).0
  call c (removes k) = (CountedMap.remove same c k).0
  call c (removes_if k f) = (CountedMap.remove_if same c k f).0
  call c (retains f) = (CountedMap.retain same c f).0
  call c clears = CountedMap.clear same c
  call c (evicts batch max is_expired) = CountedMap.evict_if_full same batch c max is_expired

  abbrev pub run : CountedDashMap K V → List (Call K V) → CountedDashMap K V
  run c [] = c
  run c (e ∷ es) = run (call c e) es

  call_size :
      (c : CountedDashMap K V) (e : Call K V)
      → IsExact same c
      → c.len + 1 < 2 ^ 64
      → IsExact same (call c e) × ((call c e).len ≤ c.len + 1)
  unfolding CountedMap.clear
  call_size c (inserts k v) h room = insert_size same c k v h room
  call_size c (removes k) h room = let (v, b) = remove_size same c k h in (v, omega (arith, b))
  call_size c (removes_if k f) h room =
      let (v, b) = remove_if_size same c k f h in (v, omega (arith, b))
  call_size c (retains f) h room = let (v, b) = retain_size same c f h in (v, omega (arith, b))
  call_size c clears h room =
      let (v, b) = retain_size same c (λ _ _. false) h in (v, omega (arith, b))
  call_size c (evicts batch max is_expired) h room =
      let (v, b) = evict_if_full_size same batch c max is_expired h in (v, omega (arith, b))

  -- If the count of a map is exact, it is exact after any calls, as long as it and the number of
  -- the calls stay below 2^64 - 1 together.
  pub run-IsExact :
      (es : List (Call K V)) (c : CountedDashMap K V)
      → IsExact same c
      → c.len + length es + 1 < 2 ^ 64
      → IsExact same (run c es)
  run-IsExact [] c h room = h
  run-IsExact (e ∷ es) c h room =
      let (v, b) = call_size c e h (omega arith) in
      run-IsExact es (call c e) v (omega (arith, b, room))
