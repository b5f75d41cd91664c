-- ===== src/Domain/Notifications.antt =====
-- packages/domain/src/notifications.ts: idempotency keys, sequence numbers and the plan for a
-- recovery notification.
pub mod Keys
mod Tests
use link_alive.Common.{
  ℕ, ◌≡◌, ◌++◌, Bool, true, false, not, ◌&&◌, ◌||◌, Option, none, some, List, Result, ok, throw,
  ◌>>=◌, ◌>>◌, throw_if, ◌==◌, if◌then◌else◌, text, trim, is_empty, Without,
}
use link_alive.Domain.Types.{
  NotificationEventType, NotificationOutboxStatus, Error, empty_identifier, malformed_uri,
  attempt_count_range, is_safe_integer,
}

-- `Exclude<NotificationEventType, 'TEST'>`, with the words of the source.
pub data IncidentEventType : Type 0 where
  network_recovery down recovery resolved_summary : IncidentEventType

abbrev pub event_name : IncidentEventType → List ℕ
event_name network_recovery = text "NETWORK_RECOVERY"
event_name down = text "DOWN"
event_name recovery = text "RECOVERY"
event_name resolved_summary = text "RESOLVED_SUMMARY"

pub record NotificationDedupeParts : Type 0 where
  pub incident_id : List ℕ
  pub channel_id : List ℕ
  pub event_type : IncidentEventType

-- JavaScript's `encodeURIComponent`: `none` is the URIError of a text that is not well-formed
-- UTF-16. It can be decoded, and it escapes the colon (58).
pub record UriEncoding : Type 0 where
  pub encode : List ℕ → Option (List ℕ)
  pub encode_injective : (s t u : List ℕ) → encode s ≡ some u → encode t ≡ some u → s ≡ t
  pub encode_colon : (s u : List ℕ) → encode s ≡ some u → Without 58 u

unfoldable pub require_identifier : List ℕ → Result Error (List ℕ)
require_identifier value = do
  let normalized = trim value
  throw_if (is_empty normalized) empty_identifier
  ok normalized

abbrev pub or_malformed : Option (List ℕ) → Result Error (List ℕ)
or_malformed none = throw malformed_uri
or_malformed (some u) = ok u

-- The two templates.
abbrev pub incident_key : List ℕ → List ℕ → List ℕ → List ℕ
incident_key incident channel event =
    text "incident:" ++ (incident ++ (text ":channel:" ++ (channel ++ (text ":event:" ++ event))))

abbrev pub test_key : List ℕ → List ℕ → List ℕ
test_key channel request = text "channel:" ++ (channel ++ (text ":test:" ++ request))

module _ (uri : UriEncoding) where
  unfoldable pub create_notification_dedupe_key : NotificationDedupeParts → Result Error (List ℕ)
  create_notification_dedupe_key parts = do
    incident_id ← require_identifier parts.incident_id
    channel_id ← require_identifier parts.channel_id
    incident ← or_malformed (uri.encode incident_id)
    channel ← or_malformed (uri.encode channel_id)
    ok (incident_key incident channel (event_name parts.event_type))

  unfoldable pub create_test_notification_dedupe_key : List ℕ → List ℕ → Result Error (List ℕ)
  create_test_notification_dedupe_key channel_id request_id = do
    channel_id ← require_identifier channel_id
    request_id ← require_identifier request_id
    channel ← or_malformed (uri.encode channel_id)
    request ← or_malformed (uri.encode request_id)
    ok (test_key channel request)

unfoldable pub notification_sequence : NotificationEventType → ℕ
notification_sequence NotificationEventType.down = 1
notification_sequence NotificationEventType.recovery = 2
notification_sequence NotificationEventType.resolved_summary = 2
notification_sequence NotificationEventType.test = 1
notification_sequence NotificationEventType.network_recovery = 1

pub data RecoveryNotificationPlan : Type 0 where
  create_recovery : (wait_for_down_terminal_state : Bool) → RecoveryNotificationPlan
  replace_with_resolved_summary skip : RecoveryNotificationPlan

-- `status === PENDING || status === ENQUEUED`
abbrev pub is_waiting : NotificationOutboxStatus → Bool
is_waiting NotificationOutboxStatus.pending = true
is_waiting NotificationOutboxStatus.enqueued = true
is_waiting _ = false

-- `status === FAILED || status === CANCELED`
abbrev pub is_undelivered : NotificationOutboxStatus → Bool
is_undelivered NotificationOutboxStatus.failed = true
is_undelivered NotificationOutboxStatus.canceled = true
is_undelivered _ = false

abbrev pub is_sent : NotificationOutboxStatus → Bool
is_sent NotificationOutboxStatus.sent = true
is_sent _ = false

-- The one reason of a SKIP is DOWN_NOT_DELIVERED.
unfoldable pub plan_recovery_notification :
    NotificationOutboxStatus → ℕ → Result Error RecoveryNotificationPlan
plan_recovery_notification down_status down_attempt_count = do
  throw_if (not (is_safe_integer down_attempt_count)) attempt_count_range
  ok (
      if down_attempt_count == 0 && is_waiting down_status
      then replace_with_resolved_summary
      else (if is_undelivered down_status
          then skip
          else create_recovery (not (is_sent down_status))))
