-- ===== src/NegativeCache.antt =====
-- The cache of negative answers, crates/infrastructure/src/dns/cache/negative_cache.rs, with the key
-- of crates/infrastructure/src/dns/cache/key.rs. The clock's reading is an argument, and a call
-- returns the cache after it.
pub mod Entry
pub mod Lookup
pub mod Bound
mod Tests
use ferrous_dns.Base.{
  ℕ, ◌+◌, ◌-◌, ◌%◌, ◌^◌, min, max, bit_and, bit_or, Bool, true, false, not, leb, ltb, ◌==◌,
  if◌then◌else◌, Option, none, some, is_some, List, [], ◌∷◌, ℕ_discrete,
}
use ferrous_dns.Base.Dict
use ferrous_dns.RecordType.{RecordType}
use ferrous_dns.CountedMap
use ferrous_dns.CountedMap.{CountedDashMap}

abbrev pub eviction_batch_size : ℕ
eviction_batch_size = 64

abbrev pub min_negative_ttl : ℕ
min_negative_ttl = 300

abbrev pub max_negative_ttl : ℕ
max_negative_ttl = 3600

abbrev unwrap_or : Option ℕ → ℕ → ℕ
unwrap_or none d = d
unwrap_or (some n) d = n

unfoldable pub negative_ttl : Option ℕ → ℕ
negative_ttl soa_ttl =
    min (max (unwrap_or soa_ttl min_negative_ttl) min_negative_ttl) max_negative_ttl

abbrev pub local_dns_bit : ℕ
local_dns_bit = 2 ^ 63

pub record NegativeEntry : Type 0 where
  pub expiry_and_source : ℕ

unfoldable pub entry : ℕ → Bool → NegativeEntry
entry expires_at_secs local_dns = record {
  expiry_and_source =
      bit_or (bit_and expires_at_secs (2 ^ 64 - 1 - local_dns_bit))
        (if local_dns then local_dns_bit else 0);
}

unfoldable pub expires_at_secs : NegativeEntry → ℕ
expires_at_secs e = bit_and e.expiry_and_source (2 ^ 64 - 1 - local_dns_bit)

unfoldable pub is_local_dns : NegativeEntry → Bool
is_local_dns e = not (bit_and e.expiry_and_source local_dns_bit == 0)

-- A domain is the list of its bytes, lower-case.
pub record CacheKey : Type 0 where
  pub domain : List ℕ
  pub record_type : RecordType
  pub view : ℕ

unfoldable pub CacheKey-discrete : Discrete CacheKey
unfolding ℕ_discrete
CacheKey-discrete = hlevel ℕ_discrete

pub record NegativeDnsCache : Type 0 where
  pub cache : CountedDashMap CacheKey NegativeEntry
  pub max_entries : ℕ

abbrev pub new : ℕ → NegativeDnsCache
new max_entries = record { cache = CountedMap.new; max_entries = max_entries }

abbrev pub is_dead : ℕ → CacheKey → NegativeEntry → Bool
is_dead now _ e = leb (expires_at_secs e) now

abbrev pub answer : ℕ → Option NegativeEntry → Option (ℕ × Bool)
answer now none = none
answer now (some e) =
    if ltb now (expires_at_secs e)
    then some ((expires_at_secs e - now) % 2 ^ 32, is_local_dns e)
    else none

-- An entry that expired is removed on the way.
unfoldable pub get : NegativeDnsCache → CacheKey → ℕ → NegativeDnsCache × Option (ℕ × Bool)
get c key now =
    let found = CountedMap.get CacheKey-discrete c.cache key in
    (
      elim found [
        | none ↦ c
        | some e ↦ if ltb now (expires_at_secs e) then c else record c {
          cache = (CountedMap.remove_if CacheKey-discrete c.cache key (is_dead now)).0;
        }
      ],
      answer now found,
    )

unfoldable pub insert : NegativeDnsCache → CacheKey → ℕ → Bool → ℕ → NegativeDnsCache × ℕ
insert c key ttl local_dns now =
    let evicted =
      CountedMap.evict_if_full CacheKey-discrete eviction_batch_size c.cache c.max_entries
        (λ e. leb (expires_at_secs e) now) in
    let expires = (now + negative_ttl (some ttl)) % 2 ^ 64 in
    (
      record c {
        cache = (CountedMap.insert CacheKey-discrete evicted key (entry expires local_dns)).0;
      },
      expires,
    )

unfoldable pub remove : NegativeDnsCache → CacheKey → NegativeDnsCache
remove c key = record c { cache = (CountedMap.remove CacheKey-discrete c.cache key).0 }

unfoldable pub clear : NegativeDnsCache → NegativeDnsCache
clear c = record c { cache = CountedMap.clear CacheKey-discrete c.cache }

-- Whether `key` is held, expired or not.
unfoldable pub contains : NegativeDnsCache → CacheKey → Bool
contains c key = is_some (CountedMap.get CacheKey-discrete c.cache key)

unfoldable pub remove_expired : NegativeDnsCache → CacheKey → ℕ → NegativeDnsCache × Bool
remove_expired c key now_secs =
    let (cache, removed) = CountedMap.remove_if CacheKey-discrete c.cache key (is_dead now_secs) in
    (record c { cache = cache }, is_some removed)
