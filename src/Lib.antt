-- ===== src/Lib.antt =====
-- Ferrous DNS, a DNS server that filters and caches: the parts of it that decide on untrusted input
-- and shared state, modelled and proved correct.
--
-- A datagram reaches the server through the parser of the fast path, or a stream through the
-- reader of the PROXY header and the connection limiter. The client's address is then charged by
-- the rate limiter, and the answer comes from the caches or from an upstream that the health
-- checker keeps in rotation, whose response is validated and its owner names put in lower case.
-- A query goes to the pool that a route names, or to the default pools in turn (Upstreams), the
-- answer to a cached name is built from its addresses (CacheHit), and timers say when an entry of
-- the cache is renewed or removed (RefreshTimers).
-- The blocklists give the verdict on a name (BlockFilter).
-- Logins of the administration have a lockout of their own, and schedules say when groups of
-- clients are blocked. The parts share addresses (Ip) and record types (RecordType); a map behind
-- locks is an association list with what each call returns (Base/Dict), and the negative cache
-- stands on the counted map.
--
-- The files, and the code they are about (the paths are from crates/):
--   Base           lists, tests, bit masks, association lists, ASCII
--   Ip             addresses as numbers, IPv4-mapped addresses
--   RateLimit      application/src/use_cases/dns/rate_limiter: Bucket (token_bucket.rs), Subnet
--                  (subnet_key.rs), Whitelist (whitelist_set.rs), Limiter (mod.rs)
--   Connections    cli/src/server/dns/connection_limiter.rs
--   RecordType     domain/src/dns_record/record_type.rs
--   FastPath       infrastructure/src/dns/fast_path.rs: Name, Options, Additional and Query are the
--                  stages of parse_query, Outcome what a run can do, panics included
--   Login          application/src/use_cases/auth/login_rate_limiter.rs
--   Health         infrastructure/src/dns/load_balancer/health.rs
--   Upstreams      infrastructure/src/dns/load_balancer: Errors and Query (query.rs, and what it
--                  reads of forwarding/response_parser.rs), Failover, Balanced, Parallel and
--                  Strategy (the files of these names), Pools (pool.rs), Routes (routes.rs)
--   CountedMap     infrastructure/src/counted_map.rs
--   NegativeCache  infrastructure/src/dns/cache/negative_cache.rs and key.rs
--   OwnerNames     infrastructure/src/dns/forwarding/response_validator.rs, lowercase_owner_names
--   ProxyProtocol  infrastructure/src/dns/proxy_protocol.rs
--   CacheRecord    infrastructure/src/dns/cache/record.rs
--   TimeSlots      domain/src/entities/schedule.rs
--   RefreshTimers  infrastructure/src/dns/cache/schedule.rs
--   BlockFilter    infrastructure/src/dns/block_filter: SuffixTrie (suffix_trie.rs) and BlockIndex
--                  (block_index.rs, with domain/src/entities/block_source.rs)
--   CacheHit       infrastructure/src/dns/wire_response.rs, build_cache_hit_response and aged_ttl
-- The parent of each part holds the definitions, under the names of the code; its children hold the
-- proofs and are named for what they prove, and its Tests hold runs on concrete inputs.
--
-- Conventions. Code that changes shared state takes the state and returns the state after it, and a
-- reading of the clock is an argument. An atomic operation is one step; the interleavings of
-- threads are a step relation in Connections and sequences of steps in CacheRecord. Integers are
-- natural numbers with the wrap-around or saturation of their width written out. A packet is the
-- list of its bytes, and an index or a slice out of range is the outcome `panic`. The loops over
-- labels and options run on fuel: one round more than the packet has bytes, or the options have,
-- since each round takes a byte or more; the outcome `stuck`, of a loop without fuel, is excluded
-- by the same theorems that exclude panics. The lookup of a route runs on one round more than the
-- name has bytes, since each round takes a label. What the network gives an upstream query is a
-- parameter, a function of the servers asked before, with the order in which servers asked at once
-- settle; a `BTreeMap` is the list of its entries in order.
--
-- Not modelled: network and database access, the web interface and the HTTP handlers, cryptography,
-- everything computed in floating point (the rate of hits and the due second of a cache record), the
-- texts of errors and log lines, and the packages that the code calls. Of those, the parsing of
-- addresses and numbers (RateLimit/Whitelist), chrono's times (TimeSlots) and the transport of
-- upstream queries (Upstreams), the regexes and the substring automata (BlockFilter) are parameters,
-- and so is the Bloom filter of the blocklists, with no false negatives as the hypothesis. Of the
-- block filter, the compiler, the cache of decisions and the explanations are left out. Of the load balancer, reloads and the lookup of
-- hostnames are left out; of the refresh timers, the inbox that threads share.
pub mod Base
pub mod Ip
pub mod RateLimit
pub mod Connections
pub mod RecordType
pub mod FastPath
pub mod Login
pub mod Health
pub mod CountedMap
pub mod NegativeCache
pub mod OwnerNames
pub mod ProxyProtocol
pub mod CacheRecord
pub mod TimeSlots
pub mod Upstreams
pub mod RefreshTimers
pub mod BlockFilter
pub mod CacheHit
