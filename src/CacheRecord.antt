-- ===== src/CacheRecord.antt =====
-- A record of the positive cache, crates/infrastructure/src/dns/cache/record.rs: its times, its
-- flags and its refresh timer. The answer and its DNSSEC status are values of any type. The clock's
-- reading is an argument; an atomic operation is one step that returns the record after it. The
-- rate of hits and `refresh_due_at`, which compute with floating point, are left out.
pub mod Phases
pub mod Timer
mod Tests
use ferrous_dns.Base.{
  ℕ, ◌+◌, ◌-◌, ◌*◌, ◌%◌, ◌^◌, min, bit_and, bit_or, Bool, true, false, not, ◌&&◌, leb, ltb, ◌==◌,
  if◌then◌else◌, Option, none, some,
}
use ferrous_dns.RecordType.{RecordType}

abbrev pub flag_deleted : ℕ
flag_deleted = 1

abbrev pub flag_refreshing : ℕ
flag_refreshing = 2

abbrev pub flag_permanent : ℕ
flag_permanent = 4

abbrev pub flag_local_dns : ℕ
flag_local_dns = 16

abbrev pub stale_grace_period_multiplier : ℕ
stale_grace_period_multiplier = 2

abbrev pub timer_lapsed : ℕ
timer_lapsed = 0

abbrev pub timer_parked : ℕ
timer_parked = 2 ^ 64 - 2

abbrev pub timer_claimed : ℕ
timer_claimed = 2 ^ 64 - 1

pub record HotCounters : Type 0 where
  pub hit_count : ℕ
  pub last_access : ℕ
  pub hits_at_last_refresh : ℕ
  pub refresh_count : ℕ
  pub refresh_timer : ℕ

abbrev pub new_counters : ℕ → HotCounters
new_counters now_secs = record {
  hit_count = 0;
  last_access = now_secs;
  hits_at_last_refresh = 0;
  refresh_count = 0;
  refresh_timer = timer_lapsed;
}

pub record CachedRecord (D S : Type 0) : Type 0 where
  pub answer : D
  pub dnssec_status : S
  pub expires_at_secs : ℕ
  pub inserted_at_secs : ℕ
  pub counters : HotCounters
  pub ttl : ℕ
  pub record_type : RecordType
  pub flags : ℕ

abbrev pub has_flag : ℕ → ℕ → Bool
has_flag flags bit = not (bit_and flags bit == 0)

abbrev unwrap_or : {S : Type 0} → Option S → S → S
unwrap_or none d = d
unwrap_or (some s) d = s

module _ {D S : Type 0} where
  unfoldable pub new : S → D → ℕ → RecordType → Option S → ℕ → CachedRecord D S
  new unknown answer ttl record_type dnssec_status now_secs = record {
    answer = answer;
    dnssec_status = unwrap_or dnssec_status unknown;
    expires_at_secs = (now_secs + ttl) % 2 ^ 64;
    inserted_at_secs = now_secs;
    counters = new_counters now_secs;
    ttl = ttl;
    record_type = record_type;
    flags = 0;
  }

  unfoldable pub permanent : S → D → ℕ → RecordType → ℕ → CachedRecord D S
  permanent unknown answer ttl record_type now_secs = record {
    answer = answer;
    dnssec_status = unknown;
    expires_at_secs = 2 ^ 64 - 1;
    inserted_at_secs = now_secs;
    counters = new_counters now_secs;
    ttl = ttl;
    record_type = record_type;
    flags = flag_permanent;
  }

  unfoldable pub is_permanent : CachedRecord D S → Bool
  is_permanent r = has_flag r.flags flag_permanent

  unfoldable pub with_local_dns : CachedRecord D S → CachedRecord D S
  with_local_dns r = record r { flags = bit_or r.flags flag_local_dns }

  unfoldable pub is_local_dns : CachedRecord D S → Bool
  is_local_dns r = has_flag r.flags flag_local_dns

  unfoldable pub remaining_ttl_at_secs : CachedRecord D S → ℕ → ℕ
  remaining_ttl_at_secs r now_secs =
      if is_permanent r then r.ttl else (r.expires_at_secs - now_secs) % 2 ^ 32

  unfoldable pub is_expired_at_secs : CachedRecord D S → ℕ → Bool
  is_expired_at_secs r now_secs = if is_permanent r then false else leb r.expires_at_secs now_secs

  unfoldable pub is_stale_usable_at_secs : CachedRecord D S → ℕ → Bool
  is_stale_usable_at_secs r now_secs =
      let age = now_secs - r.inserted_at_secs in
      let max_stale_age = r.ttl * stale_grace_period_multiplier in
      leb r.expires_at_secs now_secs && ltb age max_stale_age

  unfoldable pub is_dead_at_secs : CachedRecord D S → ℕ → Bool
  is_dead_at_secs r now_secs =
      is_expired_at_secs r now_secs && not (is_stale_usable_at_secs r now_secs)

  unfoldable pub refresh_deadline_secs : CachedRecord D S → ℕ
  refresh_deadline_secs r =
      min (r.expires_at_secs + r.ttl * (stale_grace_period_multiplier - 1)) (2 ^ 64 - 1)

  unfoldable pub mark_for_deletion : CachedRecord D S → CachedRecord D S
  mark_for_deletion r = record r { flags = bit_or r.flags flag_deleted }

  unfoldable pub is_marked_for_deletion : CachedRecord D S → Bool
  is_marked_for_deletion r = has_flag r.flags flag_deleted

  -- The loop of compare and exchange, at the round that ends it.
  unfoldable pub try_set_refreshing : CachedRecord D S → CachedRecord D S × Bool
  try_set_refreshing r =
      if has_flag r.flags flag_refreshing
      then (r, false)
      else (record r { flags = bit_or r.flags flag_refreshing }, true)

  unfoldable pub clear_refreshing : CachedRecord D S → CachedRecord D S
  clear_refreshing r = record r { flags = bit_and r.flags (2 ^ 8 - 1 - flag_refreshing) }

  abbrev pub with_timer : CachedRecord D S → ℕ → CachedRecord D S
  with_timer r timer = record r { counters = record r.counters { refresh_timer = timer } }

  unfoldable pub set_refresh_timer : CachedRecord D S → ℕ → CachedRecord D S
  set_refresh_timer r due_at_secs = with_timer r due_at_secs

  unfoldable pub lapse_refresh_timer : CachedRecord D S → CachedRecord D S
  lapse_refresh_timer r = with_timer r timer_lapsed

  unfoldable pub is_refresh_parked : CachedRecord D S → Bool
  is_refresh_parked r = r.counters.refresh_timer == timer_parked

  unfoldable pub swap_refresh_timer : CachedRecord D S → ℕ → ℕ → CachedRecord D S × Bool
  swap_refresh_timer r from to =
      if r.counters.refresh_timer == from then (with_timer r to, true) else (r, false)

  unfoldable pub try_claim_refresh_timer : CachedRecord D S → ℕ → CachedRecord D S × Bool
  try_claim_refresh_timer r due_at_secs = swap_refresh_timer r due_at_secs timer_claimed

  unfoldable pub try_start_claimed_refresh : CachedRecord D S → CachedRecord D S × Bool
  try_start_claimed_refresh r = swap_refresh_timer r timer_claimed timer_lapsed

  unfoldable pub park_claimed_refresh : CachedRecord D S → CachedRecord D S
  park_claimed_refresh r = (swap_refresh_timer r timer_claimed timer_parked).0

  unfoldable pub try_reclaim_parked_refresh : CachedRecord D S → CachedRecord D S × Bool
  try_reclaim_parked_refresh r = swap_refresh_timer r timer_parked timer_claimed

  unfoldable pub try_unpark_refresh : CachedRecord D S → ℕ → CachedRecord D S × Bool
  try_unpark_refresh r due_at_secs = swap_refresh_timer r timer_parked due_at_secs

  unfoldable pub try_rearm_lapsed_refresh : CachedRecord D S → ℕ → CachedRecord D S × Bool
  try_rearm_lapsed_refresh r due_at_secs = swap_refresh_timer r timer_lapsed due_at_secs

  unfoldable pub note_refreshed : CachedRecord D S → CachedRecord D S
  note_refreshed r = record r {
    counters = record r.counters {
      hits_at_last_refresh = r.counters.hit_count;
      refresh_count = (r.counters.refresh_count + 1) % 2 ^ 64;
    };
  }

  unfoldable pub record_hits : CachedRecord D S → ℕ → ℕ → CachedRecord D S
  record_hits r count now_secs = record r {
    counters = record r.counters {
      hit_count = (r.counters.hit_count + count) % 2 ^ 64;
      last_access =
          if ltb r.counters.last_access now_secs then now_secs else r.counters.last_access;
    };
  }
