-- ===== src/Scheduler.antt =====
-- apps/scheduler/src: due monitors become scheduled checks, and those are handed to the queue.
pub mod Store
pub mod Due
pub mod Dispatcher
mod Tests
