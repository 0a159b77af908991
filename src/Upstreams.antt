-- ===== src/Upstreams.antt =====
-- The queries to upstream servers: crates/infrastructure/src/dns/load_balancer, with the errors of
-- crates/domain/src/errors/domain_error.rs that it tells apart. The transport is a parameter of
-- the model, `World`. Texts are the lists of their bytes.
pub mod Errors
pub mod Query
pub mod Replies
pub mod Failover
pub mod Balanced
pub mod Parallel
pub mod Strategy
pub mod Sequence
pub mod Rotation
pub mod Declined
pub mod Pools
pub mod Walk
pub mod FailOpen
pub mod Unchecked
pub mod Routes
mod Tests
