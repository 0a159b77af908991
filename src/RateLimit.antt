-- ===== src/RateLimit.antt =====
-- The DNS rate limiter, crates/application/src/use_cases/dns/rate_limiter/.
pub mod Bucket
pub mod Subnet
pub mod Whitelist
pub mod Limiter
mod Tests
