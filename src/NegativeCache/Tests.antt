-- ===== src/NegativeCache/Tests.antt =====
-- The tests of negative_cache.rs, and its theorems at one name.
use ferrous_dns.Base.{◌≡◌, true, false, some, List, [], ◌∷◌, arith}
use ferrous_dns.Base.Ascii.{codes}
use ferrous_dns.RecordType.{RecordType}
use ferrous_dns.NegativeCache
use ferrous_dns.NegativeCache.{CacheKey, NegativeDnsCache, negative_ttl}
use ferrous_dns.NegativeCache.Bound.{
  Call, gets, inserts, clears, removes_expired, run, IsBounded, run-IsBounded,
}
use ferrous_dns.NegativeCache.Lookup.{get-insert, remove_expired-answers}

abbrev gone : CacheKey
gone = record { domain = codes "gone.example"; record_type = RecordType.a; view = 0 }

abbrev calls : List Call
calls = inserts gone 0 false 100 ∷ gets gone 500 ∷ removes_expired gone 600 ∷ clears ∷ []

run-IsBounded_example : IsBounded 16 (run (NegativeCache.new 16) calls)
run-IsBounded_example = run-IsBounded 16 calls (omega arith) (omega arith)

-- A time to live of zero is raised to five minutes.
get-insert_example :
    (NegativeCache.get (NegativeCache.insert (NegativeCache.new 16) gone 0 true 100).0 gone 150).1
    ≡ some (250, true)
unfolding negative_ttl
get-insert_example =
    get-insert (NegativeCache.new 16) gone 0 true 100 150 (omega arith) (omega arith)

remove_expired-answers_example :
    ((NegativeCache.get
        (NegativeCache.remove_expired
          (NegativeCache.insert (NegativeCache.new 16) gone 0 true 100).0
          gone
          400).0
        gone
        450).1
      ≡ (NegativeCache.get
          (NegativeCache.insert (NegativeCache.new 16) gone 0 true 100).0
          gone
          450).1)
remove_expired-answers_example =
    remove_expired-answers (NegativeCache.insert (NegativeCache.new 16) gone 0 true 100).0 gone gone
      400 450 (omega arith)
