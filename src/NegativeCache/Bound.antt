-- ===== src/NegativeCache/Bound.antt =====
-- The size of negative_cache.rs stays within its ceiling.
use ferrous_dns.Base.{
  ℕ, ◌^◌, ◌≤◌, ◌<◌, ◌≡◌, refl, Bool, false, leb, ltb, Bool-cases, Option-cases, inl, inr, List, [],
  ◌∷◌, arith,
}
use ferrous_dns.CountedMap
use ferrous_dns.CountedMap.Count.{
  IsExact, insert_size, remove_size, remove_if_size, retain_size, evict_if_full_size,
}
use ferrous_dns.CountedMap.Eviction.{evict_if_full-lt}
use ferrous_dns.NegativeCache
use ferrous_dns.NegativeCache.{
  CacheKey, CacheKey-discrete, NegativeEntry, NegativeDnsCache, expires_at_secs,
  eviction_batch_size, is_dead, entry,
}

-- The calls that change the cache.
pub data Call : Type 0 where
  gets : CacheKey → ℕ → Call
  inserts : CacheKey → ℕ → Bool → ℕ → Call
  removes : CacheKey → Call
  clears : Call
  removes_expired : CacheKey → ℕ → Call

abbrev pub call : NegativeDnsCache → Call → NegativeDnsCache
call c (gets key now) = (NegativeCache.get c key now).0
call c (inserts key ttl local_dns now) = (NegativeCache.insert c key ttl local_dns now).0
call c (removes key) = NegativeCache.remove c key
call c clears = NegativeCache.clear c
call c (removes_expired key now) = (NegativeCache.remove_expired c key now).0

abbrev pub run : NegativeDnsCache → List Call → NegativeDnsCache
run c [] = c
run c (e ∷ es) = run (call c e) es

-- The count is exact and at most the ceiling.
pub record IsBounded (max_entries : ℕ) (c : NegativeDnsCache) : Type 0 where
  pub ceiling : c.max_entries ≡ max_entries
  pub exact : IsExact CacheKey-discrete c.cache
  pub bound : c.cache.len ≤ max_entries

module _ (max_entries : ℕ) (pos : 0 < max_entries) (usize : max_entries < 2 ^ 64) where
  insert-IsBounded :
      (c : NegativeDnsCache) (key : CacheKey) (ttl : ℕ) (local_dns : Bool) (now : ℕ)
      → IsBounded max_entries c
      → IsBounded max_entries (NegativeCache.insert c key ttl local_dns now).0
  unfolding NegativeCache.insert
  insert-IsBounded c key ttl local_dns now b =
      let old : NegativeEntry → Bool = λ e. leb (expires_at_secs e) now in
      let evicted =
        CountedMap.evict_if_full CacheKey-discrete eviction_batch_size c.cache c.max_entries old in
      let room : evicted.len < c.max_entries =
        evict_if_full-lt CacheKey-discrete eviction_batch_size c.cache c.max_entries old b.exact
          (omega (arith, b.ceiling)) (omega (arith, b.ceiling, b.bound)) in
      let (v, fewer) =
        evict_if_full_size CacheKey-discrete eviction_batch_size c.cache c.max_entries old
          b.exact in
      let (w, one_more) =
        insert_size CacheKey-discrete evicted key _ v (omega (arith, room, b.ceiling)) in
      record { ceiling = b.ceiling; exact = w; bound = omega (arith, one_more, room, b.ceiling) }

  remove_if-IsBounded :
      (c : NegativeDnsCache) (key : CacheKey) (now : ℕ)
      → IsBounded max_entries c
      → IsBounded max_entries (record c {
        cache = (CountedMap.remove_if CacheKey-discrete c.cache key (is_dead now)).0;
      })
  remove_if-IsBounded c key now b =
      let (v, fewer) = remove_if_size CacheKey-discrete c.cache key (is_dead now) b.exact in
      record { ceiling = b.ceiling; exact = v; bound = omega (arith, fewer, b.bound) }

  get-IsBounded :
      (c : NegativeDnsCache) (key : CacheKey) (now : ℕ)
      → IsBounded max_entries c
      → IsBounded max_entries (NegativeCache.get c key now).0
  unfolding NegativeCache.get
  get-IsBounded c key now b = elim (Option-cases (CountedMap.get CacheKey-discrete c.cache key)) [
    | inl absent ↦ rw (absent, NegativeCache.get) b
    | inr (e, present) ↦ elim (Bool-cases (ltb now (expires_at_secs e))) [
      | inl live ↦ rw (present, live, NegativeCache.get) b
      | inr dead ↦ rw (present, dead, NegativeCache.get) (remove_if-IsBounded c key now b)
    ]
  ]

  call-IsBounded :
      (c : NegativeDnsCache) (e : Call) → IsBounded max_entries c → IsBounded max_entries (call c e)
  unfolding NegativeCache.remove NegativeCache.clear CountedMap.clear NegativeCache.remove_expired
  call-IsBounded c (gets key now) b = get-IsBounded c key now b
  call-IsBounded c (inserts key ttl local_dns now) b = insert-IsBounded c key ttl local_dns now b
  call-IsBounded c (removes key) b =
      let (v, fewer) = remove_size CacheKey-discrete c.cache key b.exact in
      record { ceiling = b.ceiling; exact = v; bound = omega (arith, fewer, b.bound) }
  call-IsBounded c clears b =
      let (v, fewer) = retain_size CacheKey-discrete c.cache (λ _ _. false) b.exact in
      record { ceiling = b.ceiling; exact = v; bound = omega (arith, fewer, b.bound) }
  call-IsBounded c (removes_expired key now) b = remove_if-IsBounded c key now b

  calls-IsBounded :
      (es : List Call) (c : NegativeDnsCache)
      → IsBounded max_entries c
      → IsBounded max_entries (run c es)
  calls-IsBounded [] c b = b
  calls-IsBounded (e ∷ es) c b = calls-IsBounded es (call c e) (call-IsBounded c e b)

-- Whatever calls are made on a new cache, it never holds more than `max_entries` entries, for a
-- ceiling that is not zero and fits the word, and its count is exact.
pub run-IsBounded :
    (max_entries : ℕ) (es : List Call)
    → 0 < max_entries
    → max_entries < 2 ^ 64
    → IsBounded max_entries (run (NegativeCache.new max_entries) es)
run-IsBounded max_entries es pos usize =
    calls-IsBounded max_entries pos usize es (NegativeCache.new max_entries) (record {
      ceiling = refl;
      exact = record { distinct = tt; exact = refl; usize = omega arith };
      bound = omega arith;
    })
