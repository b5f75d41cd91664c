-- ===== src/Worker/CheckProcessor.antt =====
-- apps/worker/src/check-processor.ts: a worker claims a scheduled check, runs it, and commits its
-- result with what follows from it.
pub mod Claims
pub mod World
pub mod Recovery
pub mod Commit
pub mod OutboxWrites
pub mod Outbox
pub mod Returns
pub mod Totality
pub mod Succeeds
pub mod Coherence
pub mod Persist
pub mod Process
pub mod Redelivery
mod Tests
mod Scenario
