-- ===== src/Database/Retention.antt =====
-- packages/database/src/retention-plan.ts, retention-config.ts and retention-runner.ts.
pub mod Plan
pub mod References
pub mod Redaction
pub mod Runner
pub mod Config
pub mod Batches
pub mod Complete
pub mod Returns
mod Tests
