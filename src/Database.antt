-- ===== src/Database.antt =====
-- packages/database: what retention deletes and redacts.
pub mod Checks
pub mod Retention
