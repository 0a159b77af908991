-- ===== src/BlockFilter.antt =====
-- The blocklists: crates/infrastructure/src/dns/block_filter/.
pub mod SuffixTrie
pub mod BlockIndex
mod Tests
