-- ===== src/CacheRecord/Phases.antt =====
-- How long a record of record.rs is served: fresh, then stale for its grace, then dead.
use ferrous_dns.Base.{ℕ, ◌+◌, ◌*◌, ◌^◌, ◌<◌, ◌≡◌, refl, false, ◌&&◌, leb, ltb, Option, arith}
use ferrous_dns.RecordType.{RecordType}
use ferrous_dns.CacheRecord
use ferrous_dns.CacheRecord.{
  CachedRecord, is_permanent, is_expired_at_secs, is_stale_usable_at_secs, is_dead_at_secs,
  refresh_deadline_secs, remaining_ttl_at_secs,
}

-- A record that is not permanent and expires `ttl` after it was stored, in range.
pub record IsTimed {D S : Type 0} (r : CachedRecord D S) : Type 0 where
  pub mortal : is_permanent r ≡ false
  pub expires : r.expires_at_secs ≡ r.inserted_at_secs + r.ttl
  pub in_range : r.inserted_at_secs + 2 * r.ttl < 2 ^ 64
  pub short : r.ttl < 2 ^ 32

pub new-IsTimed :
    {D S : Type 0} (unknown : S) (answer : D) (ttl : ℕ) (record_type : RecordType)
    (status : Option S) (now_secs : ℕ)
    → now_secs < 2 ^ 63
    → ttl < 2 ^ 32
    → IsTimed (CacheRecord.new unknown answer ttl record_type status now_secs)
unfolding CacheRecord.new is_permanent
new-IsTimed unknown answer ttl record_type status now_secs h short = record {
  mortal = refl;
  expires = omega arith;
  in_range = omega arith;
  short = short;
}

module _ {D S : Type 0} (r : CachedRecord D S) (h : IsTimed r) (now_secs : ℕ) where
  -- What the code's tests say at any second of a record that is not permanent, expires its time to
  -- live after it was stored, and keeps its times below 2^64: expired from one time to live on,
  -- usable as stale up to the second, and dead from then on, which is the record's deadline.
  pub phases :
      (is_expired_at_secs r now_secs ≡ leb (r.inserted_at_secs + r.ttl) now_secs)
      × (is_stale_usable_at_secs r now_secs ≡ (
          leb (r.inserted_at_secs + r.ttl) now_secs
          && ltb now_secs (r.inserted_at_secs + 2 * r.ttl)))
      × (is_dead_at_secs r now_secs ≡ leb (r.inserted_at_secs + 2 * r.ttl) now_secs)
      × (refresh_deadline_secs r ≡ r.inserted_at_secs + 2 * r.ttl)
  unfolding is_expired_at_secs is_stale_usable_at_secs is_dead_at_secs refresh_deadline_secs
  phases = (
    rw h.mortal (rw h.expires refl),
    rw h.expires (ground (arith, h.in_range)),
    rw h.mortal (rw h.expires (ground (arith, h.in_range))),
    omega (arith, h.expires, h.in_range),
  )
