-- ===== src/Monitoring/Checker.antt =====
-- packages/monitoring/src/checker.ts: one check of a URL.
pub mod Check
pub mod Config
pub mod Encoding
pub mod Ends
pub mod Failures
pub mod Hops
pub mod Keyword
pub mod Prefix
pub mod Requests
pub mod Leases
pub mod Results
pub mod Search
pub mod Session
pub mod Settled
pub mod Tests
