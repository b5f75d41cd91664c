-- ===== src/Worker/Outbox.antt =====
-- apps/worker/src/outbox-dispatcher.ts and notification-processor.ts: how a notification goes from
-- the outbox through the queue to its provider.
pub mod Rows
pub mod Statements
pub mod Dispatch
pub mod Claims
pub mod Payload
pub mod RoundTrip
pub mod Failure
pub mod Success
pub mod Process
pub mod Scan
pub mod Steps
pub mod Evolution
pub mod Invariant
pub mod Quiet
pub mod Arrivals
pub mod Attempts
pub mod Claiming
pub mod Reached
pub mod Bounded
pub mod Retries
mod Tests
