-- ===== src/Worker/Outbox/Failure.antt =====
-- apps/worker/src/notification-processor.ts: what `markFailed` leaves of a claimed
-- notification. apps/worker/src/retry.ts: the delay before a retry.
use link_alive.Common.{
  ℕ, ◌+◌, ◌*◌, ◌^◌, ◌-◌, ◌/◌, max, min, Bool, true, false, ◌&&◌, Option, none, some, List, ◌==◌,
  ltb, take, if◌then◌else◌, update_many, count,
}
use link_alive.Domain.Types.{NotificationOutboxStatus, NotificationDeliveryStatus}
use link_alive.Worker.Outbox.Rows.{
  NotificationOutbox, NotificationDelivery, Outbox, SafeError, provider, is_processing,
}
use link_alive.Worker.Outbox.Claims.{ClaimedNotification, fail_row, cancel_recoveries}
use link_alive.Worker.Outbox.Payload.{or_else}

-- `Math.random()` is `random / 2 ^ 53`.
unfoldable pub retry_delay_ms : (attempt random : ℕ) → ℕ
retry_delay_ms attempt random =
    let safe_attempt = max 1 (min 10 attempt) in
    let base = min 60000 (2000 * 2 ^ (safe_attempt - 1)) in
    (base * (3 * 2 ^ 52 + random) + 2 ^ 53) / 2 ^ 54

pub record NotificationProviderError : Type 0 where
  pub retryable : Bool
  pub delivery_uncertain : Bool
  pub safe_message : List ℕ
  pub retry_after_ms : Option ℕ

abbrev pub has_delivery_id : ℕ → NotificationDelivery → Bool
has_delivery_id id d = d.id == id

unfoldable pub will_retry : ClaimedNotification → NotificationProviderError → Bool
will_retry c error = error.retryable && ltb c.delivery_attempt c.outbox.max_attempts

abbrev pub end_attempt :
    ℕ → NotificationDeliveryStatus → SafeError → NotificationDelivery → NotificationDelivery
end_attempt now status error d = record d {
  status = status;
  error_safe = some error;
  finished_at = some now;
}

-- `updateMany` takes the row only while it is at this attempt.
abbrev pub is_current : ClaimedNotification → NotificationOutbox → Bool
is_current c o =
    o.id == c.outbox.id && is_processing o.status && o.attempt_count == c.delivery_attempt

abbrev pub retry_row : (available_at : ℕ) → SafeError → NotificationOutbox → NotificationOutbox
retry_row available_at error o = record o {
  status = NotificationOutboxStatus.retry;
  available_at = available_at;
  lease_owner = none;
  lease_until = none;
  last_error_safe = some error;
}

abbrev pub safe_text : NotificationProviderError → SafeError
safe_text error = provider (take 1000 error.safe_message)

unfoldable pub retry_at : (now random : ℕ) → ClaimedNotification → NotificationProviderError → ℕ
unfolding retry_delay_ms
retry_at now random c error =
    now + max (or_else error.retry_after_ms 0) (retry_delay_ms c.delivery_attempt random)

-- The rows after a failure: retried, or failed, and with a failed DOWN its recoveries are canceled.
unfoldable pub fail_outbox :
    Bool
    → (now random : ℕ) → ClaimedNotification
    → NotificationProviderError
    → List NotificationOutbox
    → List NotificationOutbox
unfolding retry_at cancel_recoveries
fail_outbox true now random c error rows =
    update_many (is_current c) (retry_row (retry_at now random c error) (safe_text error)) rows
fail_outbox false now random c error rows =
    let failed = update_many (is_current c) (fail_row now (safe_text error)) rows in
    if count (is_current c) rows == 1 then cancel_recoveries now c.outbox failed else failed

unfoldable pub mark_failed :
    (now random : ℕ) → ClaimedNotification → NotificationProviderError → Outbox → Outbox
unfolding fail_outbox will_retry
mark_failed now random c error s = record s {
  rows = fail_outbox (will_retry c error) now random c error s.rows;
  deliveries =
      update_many (has_delivery_id c.delivery_id)
        (end_attempt now
          (if error.delivery_uncertain
            then NotificationDeliveryStatus.unknown
            else NotificationDeliveryStatus.failed)
          (safe_text error))
        s.deliveries;
}
