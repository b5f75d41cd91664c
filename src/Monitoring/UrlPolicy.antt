-- ===== src/Monitoring/UrlPolicy.antt =====
-- packages/monitoring/src/url-policy.ts: which addresses and URLs may be checked.
pub mod Parts
pub mod Ipv4
pub mod Ranges
pub mod Dotted
pub mod Ipv6
pub mod Addresses
pub mod Urls
pub mod Destinations
mod Tests
