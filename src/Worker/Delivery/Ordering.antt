-- ===== src/Worker/Delivery/Ordering.antt =====
-- A recovery follows its DOWN event, and a destination is kept while it can still be needed.
use link_alive.Common.{ℕ, ◌≡◌, ◌⊎◌, ◌↔◌, true, false, some, ok, arith}
use link_alive.Domain.Types.{NotificationOutboxStatus, NotificationEventType, IncidentStatus}
use link_alive.Domain.Notifications.{
  RecoveryNotificationPlan, create_recovery, replace_with_resolved_summary, skip,
  plan_recovery_notification,
}
use link_alive.Worker.Delivery.{
  ready, wait, cancel, recovery_prerequisite_status, is_terminal, NotificationSecretState,
  should_retain_notification_secret,
}

-- The plan made when an incident is resolved and the test made before a recovery is sent agree on
-- every status of the DOWN event: a recovery that need not wait is planned exactly where the test
-- says ready, none is planned exactly where the test says cancel, and where the plan is a recovery
-- that waits, or a summary in place of a DOWN event without attempts, the test says wait.
pub plan-prerequisite :
    (s : NotificationOutboxStatus) (attempts : ℕ) (p : RecoveryNotificationPlan)
    → plan_recovery_notification s attempts ≡ ok p
    → ((p ≡ create_recovery false) ↔ (recovery_prerequisite_status (some s) ≡ ready))
      × ((p ≡ skip) ↔ (recovery_prerequisite_status (some s) ≡ cancel))
      × (p ≡ create_recovery true → recovery_prerequisite_status (some s) ≡ wait)
      × (p ≡ replace_with_resolved_summary
          → (attempts ≡ 0) × (recovery_prerequisite_status (some s) ≡ wait))
unfolding plan_recovery_notification recovery_prerequisite_status
plan-prerequisite NotificationOutboxStatus.sent attempts p h = ground arith
plan-prerequisite _ attempts p h = ground arith

-- A destination is kept after its notification has ended only for a DOWN that was sent, allows a
-- recovery and whose incident is open, or for a recovery that was canceled because its DOWN was not
-- delivered; and it is always kept before.
pub should_retain_iff :
    (s : NotificationSecretState)
    → (should_retain_notification_secret s ≡ true) ↔ (
        (is_terminal s.status ≡ false)
        ⊎ ((s.event_type ≡ NotificationEventType.recovery)
            × (s.status ≡ NotificationOutboxStatus.canceled)
            × (s.down_not_delivered ≡ true))
        ⊎ ((s.event_type ≡ NotificationEventType.down)
            × (s.status ≡ NotificationOutboxStatus.sent)
            × (s.payload_allows_recovery ≡ true)
            × (s.incident_status ≡ some IncidentStatus.opened)))
unfolding should_retain_notification_secret
should_retain_iff s = ground arith
