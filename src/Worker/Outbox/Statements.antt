-- ===== src/Worker/Outbox/Statements.antt =====
-- apps/worker/src/outbox-dispatcher.ts: its statements on the outbox. Each gives the rows it leaves,
-- and `matches` says whether it counted one row.
use link_alive.Common.{
  ℕ, ◌+◌, Bool, ◌&&◌, ◌||◌, none, some, List, ◌==◌, leb, text, if◌then◌else◌, update_many, count,
}
use link_alive.Domain.Types.{NotificationOutboxStatus}
use link_alive.Database.Checks.{is_null, has_expired}
use link_alive.Worker.Delivery.{is_down}
use link_alive.Worker.Outbox.Rows.{
  NotificationOutbox, SafeError, queue_unavailable, is_number, is_pending, is_retry, is_enqueued,
  is_processing,
}

-- SECRET_TOMBSTONE_TEXT of packages/database/src/secret-tombstone.ts, in bytes.
unfoldable pub secret_tombstone_bytes : List ℕ
secret_tombstone_bytes = text "linkalive:secret-tombstone:v1"

-- `...retiredNotificationSecretData()`
abbrev pub retire : NotificationOutbox → NotificationOutbox
retire o = record o { encrypted_config_snapshot = secret_tombstone_bytes }

unfoldable pub available_for_dispatch : ℕ → NotificationOutbox → Bool
available_for_dispatch now o =
    leb o.available_at now
    && ((is_pending o.status || is_retry o.status)
          && (is_null o.lease_until || has_expired o.lease_until now)
        || (is_enqueued o.status || is_processing o.status) && has_expired o.lease_until now)

abbrev pub is_available : (id now : ℕ) → NotificationOutbox → Bool
is_available id now o = o.id == id && available_for_dispatch now o

abbrev pub recovery_recheck_delay_ms : ℕ
recovery_recheck_delay_ms = 2000

abbrev pub defer_row : ℕ → NotificationOutbox → NotificationOutbox
defer_row now o = record o { available_at = now + recovery_recheck_delay_ms }

unfoldable pub defer_recovery : (id now : ℕ) → List NotificationOutbox → List NotificationOutbox
defer_recovery id now = update_many (is_available id now) (defer_row now)

abbrev pub cancel_row : ℕ → SafeError → NotificationOutbox → NotificationOutbox
cancel_row now reason o = record o {
  status = NotificationOutboxStatus.canceled;
  canceled_at = some now;
  lease_owner = none;
  lease_until = none;
  last_error_safe = some reason;
}

abbrev pub cancel_and_retire : ℕ → SafeError → Bool → NotificationOutbox → NotificationOutbox
cancel_and_retire now reason retain o =
    if retain then cancel_row now reason o else retire (cancel_row now reason o)

unfoldable pub cancel :
    (id now : ℕ)
    → SafeError
    → (retain_for_late_down_success : Bool) → List NotificationOutbox
    → List NotificationOutbox
cancel id now reason retain_for_late_down_success =
    update_many (is_available id now) (cancel_and_retire now reason retain_for_late_down_success)

-- `(await updateMany(...)).count === 1` for the three statements with this WHERE.
unfoldable pub matches : (id now : ℕ) → List NotificationOutbox → Bool
matches id now rows = count (is_available id now) rows == 1

abbrev pub claim_row : (owner lease_until : ℕ) → NotificationOutbox → NotificationOutbox
claim_row owner lease_until o = record o {
  status = NotificationOutboxStatus.retry;
  lease_owner = some owner;
  lease_until = some lease_until;
}

unfoldable pub claim_available :
    (id owner now lease_until : ℕ) → List NotificationOutbox → List NotificationOutbox
claim_available id owner now lease_until =
    update_many (is_available id now) (claim_row owner lease_until)

abbrev pub is_claimed_by : (id owner : ℕ) → NotificationOutbox → Bool
is_claimed_by id owner o = o.id == id && (is_number o.lease_owner owner && is_retry o.status)

abbrev pub enqueue_row : (now lease_until : ℕ) → NotificationOutbox → NotificationOutbox
enqueue_row now lease_until o = record o {
  status = NotificationOutboxStatus.enqueued;
  queue_job_id = some o.id;
  enqueued_at = some now;
  lease_until = some lease_until;
}

unfoldable pub mark_enqueued :
    (id owner now lease_until : ℕ) → List NotificationOutbox → List NotificationOutbox
mark_enqueued id owner now lease_until =
    update_many (is_claimed_by id owner) (enqueue_row now lease_until)

abbrev pub release_row : ℕ → NotificationOutbox → NotificationOutbox
release_row now o = record o {
  status = NotificationOutboxStatus.retry;
  available_at = now + 2000;
  lease_owner = none;
  lease_until = none;
  last_error_safe = some queue_unavailable;
}

unfoldable pub release : (id owner now : ℕ) → List NotificationOutbox → List NotificationOutbox
release id owner now = update_many (is_claimed_by id owner) (release_row now)

-- The DOWN event of an incident and a channel.
abbrev pub is_down_of : (incident_id channel_id : ℕ) → NotificationOutbox → Bool
is_down_of incident_id channel_id o =
    is_number o.incident_id incident_id && o.channel_id == channel_id && is_down o.event_type
