-- ===== src/Worker/Outbox/Rows.antt =====
-- The rows that apps/worker/src/outbox-dispatcher.ts and notification-processor.ts share, from
-- packages/database/prisma/schema.prisma, and what the two files read of the other tables.
use link_alive.Common.{
  ℕ, Bool, true, false, ◌||◌, Option, none, some, List, [], ◌∷◌, ◌==◌, if◌then◌else◌,
}
use link_alive.Common.Json.{Json}
use link_alive.Domain.Types.{
  CheckErrorType, IncidentStatus, NotificationEventType, NotificationOutboxStatus,
  NotificationDeliveryStatus,
}

-- The texts that these files store as `lastErrorSafe` and `errorSafe`; `provider` is the message of
-- a provider's error.
pub data SafeError : Type 0 where
  channel_disabled down_not_delivered queue_unavailable : SafeError
  attempts_exhausted delivery_interrupted : SafeError
  provider : List ℕ → SafeError

-- Times are in milliseconds. The dedupe key is left out, and so are the channel's snapshots but for
-- the encrypted destination.
pub record NotificationOutbox : Type 0 where
  pub id : ℕ
  pub monitor_id : Option ℕ
  pub incident_id : Option ℕ
  pub channel_id : ℕ
  pub event_type : NotificationEventType
  pub sequence : ℕ
  pub payload_safe : Json
  pub message_id : List ℕ
  pub encrypted_config_snapshot : List ℕ
  pub is_telegram : Bool
  pub status : NotificationOutboxStatus
  pub available_at : ℕ
  pub created_at : ℕ
  pub attempt_count : ℕ
  pub max_attempts : ℕ
  pub lease_owner : Option ℕ
  pub lease_until : Option ℕ
  pub queue_job_id : Option ℕ
  pub last_error_safe : Option SafeError
  pub enqueued_at : Option ℕ
  pub processing_at : Option ℕ
  pub sent_at : Option ℕ
  pub failed_at : Option ℕ
  pub canceled_at : Option ℕ

pub record NotificationDelivery : Type 0 where
  pub id : ℕ
  pub outbox_id : ℕ
  pub attempt : ℕ
  pub status : NotificationDeliveryStatus
  pub message_id : List ℕ
  pub provider_message_id : Option (List ℕ)
  pub error_safe : Option SafeError
  pub started_at : ℕ
  pub finished_at : Option ℕ
  pub sent_at : Option ℕ

pub record Outbox : Type 0 where
  pub rows : List NotificationOutbox
  pub deliveries : List NotificationDelivery
  pub next_id : ℕ

pub record IncidentRow : Type 0 where
  pub status : IncidentStatus
  pub first_failure_at : ℕ
  pub resolved_at : Option ℕ
  pub last_error_type : Option CheckErrorType

pub record LastResponse : Type 0 where
  pub last_status_code : Option ℕ
  pub last_ttfb_ms : Option ℕ

-- What is read of the other tables: whether a channel is there, enabled and not deleted; whether a
-- monitor is bound to a channel with `notifyOnRecovery`; incidents, and the last response of a
-- monitor.
pub record Surroundings : Type 0 where
  pub is_live : ℕ → Bool
  pub notifies_recovery : (monitor_id channel_id : ℕ) → Bool
  pub incident : ℕ → Option IncidentRow
  pub monitor : ℕ → Option LastResponse

abbrev pub is_at_id : ℕ → NotificationOutbox → Bool
is_at_id id o = o.id == id

abbrev pub is_number : Option ℕ → ℕ → Bool
is_number none n = false
is_number (some m) n = m == n

abbrev pub is_pending : NotificationOutboxStatus → Bool
is_pending NotificationOutboxStatus.pending = true
is_pending _ = false

abbrev pub is_retry : NotificationOutboxStatus → Bool
is_retry NotificationOutboxStatus.retry = true
is_retry _ = false

abbrev pub is_enqueued : NotificationOutboxStatus → Bool
is_enqueued NotificationOutboxStatus.enqueued = true
is_enqueued _ = false

abbrev pub is_processing : NotificationOutboxStatus → Bool
is_processing NotificationOutboxStatus.processing = true
is_processing _ = false

-- `status: { in: [PENDING, RETRY, ENQUEUED] }`
abbrev pub is_queued : NotificationOutboxStatus → Bool
is_queued s = is_pending s || is_retry s || is_enqueued s

abbrev pub find_row :
    (NotificationOutbox → Bool) → List NotificationOutbox → Option NotificationOutbox
find_row test [] = none
find_row test (o ∷ os) = if test o then some o else find_row test os
