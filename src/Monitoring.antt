-- ===== src/Monitoring.antt =====
-- packages/monitoring: what a check of a URL reports, and what it may reach.
pub mod Types
pub mod Errors
pub mod UrlPolicy
pub mod Checker
