-- ===== src/FastPath.antt =====
-- The parser of the UDP cache fast path, crates/infrastructure/src/dns/fast_path.rs. A packet is
-- the list of its bytes.
pub mod Outcome
pub mod Name
pub mod Options
pub mod Additional
pub mod Query
pub mod Safety
mod Tests
