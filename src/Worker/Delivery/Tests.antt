-- ===== src/Worker/Delivery/Tests.antt =====
-- A recovery behind a DOWN event that is still being sent, and a secret that a recovery will need.
use link_alive.Common.{ℕ, ◌≡◌, refl, ◌↔◌, true, false, some}
use link_alive.Domain.Types.{NotificationOutboxStatus, NotificationEventType, IncidentStatus}
use link_alive.Domain.Notifications.{
  create_recovery, replace_with_resolved_summary, skip, plan_recovery_notification,
}
use link_alive.Worker.Delivery.{
  ready, wait, cancel, recovery_prerequisite_status, NotificationSecretState,
  should_retain_notification_secret,
}
use link_alive.Worker.Delivery.Ordering.{plan-prerequisite}

abbrev one_attempt : ℕ
one_attempt = 1

plan-prerequisite_example :
    ((create_recovery true ≡ create_recovery false)
      ↔ (recovery_prerequisite_status (some NotificationOutboxStatus.processing) ≡ ready))
    × ((create_recovery true ≡ skip)
        ↔ (recovery_prerequisite_status (some NotificationOutboxStatus.processing) ≡ cancel))
    × (create_recovery true ≡ create_recovery true
        → recovery_prerequisite_status (some NotificationOutboxStatus.processing) ≡ wait)
    × (create_recovery true ≡ replace_with_resolved_summary
        → (one_attempt ≡ 0)
          × (recovery_prerequisite_status (some NotificationOutboxStatus.processing) ≡ wait))
unfolding plan_recovery_notification
plan-prerequisite_example =
    plan-prerequisite NotificationOutboxStatus.processing one_attempt (create_recovery true) refl

abbrev sent_down : NotificationSecretState
sent_down = record {
  status = NotificationOutboxStatus.sent;
  event_type = NotificationEventType.down;
  down_not_delivered = false;
  payload_allows_recovery = true;
  incident_status = some IncidentStatus.opened;
}

kept : should_retain_notification_secret sent_down ≡ true
unfolding should_retain_notification_secret
kept = refl
