-- ===== src/CacheHit/Aging.antt =====
-- The TTL that a hit gives a record.
