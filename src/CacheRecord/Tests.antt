-- ===== src/CacheRecord/Tests.antt =====
-- The tests of record.rs, and its theorems at one record.
use ferrous_dns.Base.{ℕ, ◌≤◌, ◌≡◌, refl, true, false, none, List, [], ◌∷◌, arith}
use ferrous_dns.RecordType.{RecordType}
use ferrous_dns.CacheRecord
use ferrous_dns.CacheRecord.{
  CachedRecord, is_expired_at_secs, is_stale_usable_at_secs, is_dead_at_secs, refresh_deadline_secs,
  set_refresh_timer,
}
use ferrous_dns.CacheRecord.Phases.{IsTimed, new-IsTimed, phases}
use ferrous_dns.CacheRecord.Timer.{Step, sets, claims, starts, armed, claimed, claimed-le_armed}

abbrev stored : CachedRecord ℕ ℕ
stored = CacheRecord.new 0 7 60 RecordType.a none 1000

stored-IsTimed : IsTimed stored
stored-IsTimed = new-IsTimed 0 7 60 RecordType.a none 1000 (omega arith) (omega arith)

phases_example :
    (is_expired_at_secs stored 1080 ≡ true)
    × (is_stale_usable_at_secs stored 1080 ≡ true)
    × (is_dead_at_secs stored 1080 ≡ false)
    × (refresh_deadline_secs stored ≡ 1120)
unfolding CacheRecord.new
phases_example = phases stored stored-IsTimed 1080

-- The timer is armed, two workers claim it, and one renewal starts; the latest comes first.
abbrev race : List Step
race = starts ∷ claims 1054 ∷ claims 1054 ∷ sets 1054 ∷ []

claimed-le_armed_example : claimed 1054 stored race ≤ armed 1054 stored race
unfolding CacheRecord.new
claimed-le_armed_example = claimed-le_armed 1054 (omega arith, omega arith) stored race refl
