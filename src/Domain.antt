-- ===== src/Domain.antt =====
-- packages/domain: the health-state machine, schedules and notification policy.
pub mod Types
pub mod StateMachine
pub mod Scheduling
pub mod Notifications
