-- ===== src/Worker.antt =====
-- apps/worker: the network guard, and the delivery of notifications.
pub mod NetworkPolicy
pub mod NetworkGuard
pub mod Delivery
pub mod CheckProcessor
pub mod Outbox
