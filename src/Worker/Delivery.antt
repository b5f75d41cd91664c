-- ===== src/Worker/Delivery.antt =====
-- apps/worker/src/notification-order.ts and secret-lifecycle.ts: when a recovery may be sent, and how
-- long a destination is kept.
pub mod Ordering
mod Tests
use link_alive.Common.{
  ℕ, ◌+◌, ◌-◌, ◌*◌, ◌/◌, ◌^◌, max, min, ◌≤◌, ◌≡◌, refl, Bool, true, false, not, ◌&&◌, ◌||◌, Option,
  none, some, if◌then◌else◌,
}
use link_alive.Domain.Types.{NotificationOutboxStatus, NotificationEventType, IncidentStatus}

pub data PriorDownStatus : Type 0 where
  ready wait cancel : PriorDownStatus

-- `null` is an incident and channel with no DOWN event.
unfoldable pub recovery_prerequisite_status : Option NotificationOutboxStatus → PriorDownStatus
recovery_prerequisite_status (some NotificationOutboxStatus.sent) = ready
recovery_prerequisite_status none = cancel
recovery_prerequisite_status (some NotificationOutboxStatus.failed) = cancel
recovery_prerequisite_status (some NotificationOutboxStatus.canceled) = cancel
recovery_prerequisite_status (some _) = wait

-- Membership in TERMINAL_STATUSES.
abbrev pub is_terminal : NotificationOutboxStatus → Bool
is_terminal NotificationOutboxStatus.sent = true
is_terminal NotificationOutboxStatus.failed = true
is_terminal NotificationOutboxStatus.canceled = true
is_terminal _ = false

abbrev pub is_sent : NotificationOutboxStatus → Bool
is_sent NotificationOutboxStatus.sent = true
is_sent _ = false

abbrev pub is_canceled : NotificationOutboxStatus → Bool
is_canceled NotificationOutboxStatus.canceled = true
is_canceled _ = false

abbrev pub is_recovery : NotificationEventType → Bool
is_recovery NotificationEventType.recovery = true
is_recovery _ = false

abbrev pub is_down : NotificationEventType → Bool
is_down NotificationEventType.down = true
is_down _ = false

abbrev pub is_open_incident : Option IncidentStatus → Bool
is_open_incident (some IncidentStatus.opened) = true
is_open_incident _ = false

-- `down_not_delivered` says that `lastErrorSafe` is DOWN_NOT_DELIVERED_RECOVERY_CANCEL_REASON, and
-- `payload_allows_recovery` that this optional flag is true.
pub record NotificationSecretState : Type 0 where
  pub status : NotificationOutboxStatus
  pub event_type : NotificationEventType
  pub down_not_delivered : Bool
  pub payload_allows_recovery : Bool
  pub incident_status : Option IncidentStatus

unfoldable pub should_retain_notification_secret : NotificationSecretState → Bool
should_retain_notification_secret s =
    if not (is_terminal s.status)
    then true
    else (if is_recovery s.event_type && is_canceled s.status && s.down_not_delivered
        then true
        else is_down s.event_type
          && is_sent s.status
          && s.payload_allows_recovery
          && is_open_incident s.incident_status)
