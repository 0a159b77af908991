-- ===== src/NegativeCache/Lookup.antt =====
-- What negative_cache.rs answers: an entry is found until its second comes, and no sweep changes an
-- answer.
use ferrous_dns.Base.{
  ℕ, ◌+◌, ◌-◌, ◌%◌, ◌^◌, ◌≤◌, ◌<◌, ◌≡◌, ◌∙◌, refl, sym, ap, Bool, false, leb, ltb, if◌then◌else◌,
  Bool-cases, Option-cases, inl, inr, Option, none, some, arith,
}
use ferrous_dns.Base.Dict
use ferrous_dns.CountedMap
use ferrous_dns.NegativeCache
use ferrous_dns.NegativeCache.{
  CacheKey, CacheKey-discrete, NegativeEntry, NegativeDnsCache, entry, expires_at_secs,
  is_local_dns, negative_ttl, is_dead, answer,
}
use ferrous_dns.NegativeCache.Entry.{entry-fields, negative_ttl-range}

found : NegativeDnsCache → CacheKey → Option NegativeEntry
found c key = Dict.get CacheKey-discrete key c.cache.map

get_lem :
    (c : NegativeDnsCache) (key : CacheKey) (now : ℕ)
    → (NegativeCache.get c key now).1 ≡ answer now (found c key)
unfolding NegativeCache.get CountedMap.get found
get_lem c key now = refl

-- A stored answer is returned, with its remaining seconds and its source, up to the second before
-- it expires and no longer, where the clock is below 2^62 and does not go back.
pub get-insert :
    (c : NegativeDnsCache) (key : CacheKey) (ttl : ℕ) (local_dns : Bool) (stored now : ℕ)
    → stored < 2 ^ 62
    → stored ≤ now
    → ((NegativeCache.get (NegativeCache.insert c key ttl local_dns stored).0 key now).1 ≡ (
        if ltb now (stored + negative_ttl (some ttl))
        then some (stored + negative_ttl (some ttl) - now, local_dns)
        else none))
unfolding NegativeCache.insert CountedMap.insert found
get-insert c key ttl local_dns stored now small later =
    let range = negative_ttl-range ttl in
    let no_wrap : (stored + negative_ttl (some ttl)) % 2 ^ 64 ≡ stored + negative_ttl (some ttl) =
      omega (arith, range) in
    let (expires, source) =
      entry-fields (stored + negative_ttl (some ttl)) local_dns (omega (arith, range)) in
    get_lem (NegativeCache.insert c key ttl local_dns stored).0 key now
    ∙ rw (Dict.get-insert_self CacheKey-discrete) (
        rw no_wrap (
          rw expires (
            rw source (elim (Bool-cases (ltb now (stored + negative_ttl (some ttl)))) [
              | inr expired ↦ rw expired refl
              | inl live ↦
                  let fits : ((stored + negative_ttl (some ttl) - now) % 2 ^ 32
                      ≡ stored + negative_ttl (some ttl) - now) =
                    omega (arith, range) in
                  rw live (ap (λ t. some (t, local_dns)) fits)
            ]))))

-- The removal of an expired entry by its timer changes no answer from the timer's second on, for
-- any key.
pub remove_expired-answers :
    (c : NegativeDnsCache) (key other : CacheKey) (swept now : ℕ)
    → swept ≤ now
    → (NegativeCache.get (NegativeCache.remove_expired c key swept).0 other now).1
      ≡ (NegativeCache.get c other now).1
unfolding NegativeCache.remove_expired CountedMap.remove_if found
remove_expired-answers c key other swept now later =
    get_lem (NegativeCache.remove_expired c key swept).0 other now
    ∙ same
    ∙ sym (get_lem c other now)
  where
    same :
        answer now (found (NegativeCache.remove_expired c key swept).0 other)
        ≡ answer now (found c other)
    same = elim (Option-cases (Dict.get CacheKey-discrete key c.cache.map)) [
      | inl absent ↦ rw (absent, found, NegativeCache.remove_expired, CountedMap.remove_if) refl
      | inr (e, present) ↦ elim (Bool-cases (leb (expires_at_secs e) swept)) [
        | inr live ↦
            rw (present, live, found, NegativeCache.remove_expired, CountedMap.remove_if) refl
        | inl dead ↦
            rw (present, dead, found, NegativeCache.remove_expired, CountedMap.remove_if)
              (elim (CacheKey-discrete key other) [
                | no differs ↦
                    rw (Dict.get-remove_ne CacheKey-discrete key other c.cache.map differs) refl
                | yes e_key ↦ rw (sym e_key) (
                    rw (Dict.get-remove_self CacheKey-discrete key c.cache.map) (
                      rw present (
                        let over : ltb now (expires_at_secs e) ≡ false = ground arith in
                        rw over refl)))
              ])
      ]
    ]
