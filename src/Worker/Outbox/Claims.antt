-- ===== src/Worker/Outbox/Claims.antt =====
-- apps/worker/src/notification-processor.ts: the transaction of `claim`, and that of `markFailed`.
use link_alive.Common.{
  ℕ, ◌+◌, Bool, true, false, not, ◌&&◌, ◌||◌, Option, none, some, List, ◌∷◌, Result, ok, throw,
  ◌==◌, leb, ltb, any, if◌then◌else◌, update_many,
}
use link_alive.Domain.Types.{NotificationOutboxStatus, NotificationDeliveryStatus}
use link_alive.Database.Checks.{has_expired}
use link_alive.Worker.Delivery.{is_terminal, is_sent, is_recovery, is_down}
use link_alive.Worker.Outbox.Rows.{
  NotificationOutbox, NotificationDelivery, Outbox, Surroundings, SafeError, channel_disabled,
  down_not_delivered, attempts_exhausted, delivery_interrupted, is_at_id, is_number, is_pending,
  is_retry, is_processing, is_queued, find_row,
}
use link_alive.Worker.Outbox.Statements.{retire, is_down_of}

-- A violation of the unique index on outbox row and attempt, or a row that is not there.
pub data ClaimError : Type 0 where
  duplicate_attempt : ClaimError

pub record ClaimedNotification : Type 0 where
  pub outbox : NotificationOutbox
  pub delivery_id : ℕ
  pub delivery_attempt : ℕ

-- `where: { id }`
abbrev pub update_row :
    ℕ
    → (NotificationOutbox → NotificationOutbox)
    → List NotificationOutbox
    → List NotificationOutbox
update_row id set = update_many (is_at_id id) set

abbrev pub close_row : ℕ → NotificationOutbox → NotificationOutbox
close_row now o = retire (record o {
  status = NotificationOutboxStatus.canceled;
  canceled_at = some now;
  lease_owner = none;
  lease_until = none;
  last_error_safe = some channel_disabled;
})

-- The branch of a channel that is disabled or deleted, for the row that was found.
unfoldable pub close_channel :
    ℕ → NotificationOutbox → List NotificationOutbox → List NotificationOutbox
close_channel now o rows =
    if not (is_terminal o.status)
    then update_row o.id (close_row now) rows
    else update_row o.id retire rows

-- Whether the tests of status, lease and availability let the claim go on.
unfoldable pub is_claimable : ℕ → NotificationOutbox → Bool
is_claimable now o =
    (is_queued o.status || is_processing o.status && has_expired o.lease_until now)
    && not ((is_pending o.status || is_retry o.status) && ltb now o.available_at)

abbrev pub is_attempting : NotificationDeliveryStatus → Bool
is_attempting NotificationDeliveryStatus.attempting = true
is_attempting _ = false

abbrev pub is_attempt_of : ℕ → NotificationDelivery → Bool
is_attempt_of outbox_id d = d.outbox_id == outbox_id && is_attempting d.status

abbrev pub interrupt : ℕ → NotificationDelivery → NotificationDelivery
interrupt now d = record d {
  status = NotificationDeliveryStatus.unknown;
  error_safe = some delivery_interrupted;
  finished_at = some now;
}

-- A previous attempt that did not end is marked as UNKNOWN.
unfoldable pub interrupt_attempts :
    (outbox_id now : ℕ) → List NotificationDelivery → List NotificationDelivery
interrupt_attempts outbox_id now = update_many (is_attempt_of outbox_id) (interrupt now)

abbrev pub sent_row : Option NotificationOutbox → Bool
sent_row none = false
sent_row (some o) = is_sent o.status

-- A recovery of an incident waits for its DOWN event to be sent.
unfoldable pub lacks_down : Bool → Option ℕ → ℕ → List NotificationOutbox → Bool
lacks_down true (some incident_id) channel_id rows =
    not (sent_row (find_row (is_down_of incident_id channel_id) rows))
lacks_down _ _ channel_id rows = false

unfoldable pub is_held_back : NotificationOutbox → List NotificationOutbox → Bool
unfolding lacks_down
is_held_back o rows = lacks_down (is_recovery o.event_type) o.incident_id o.channel_id rows

-- `data` of the updates that end a notification as FAILED.
abbrev pub fail_row : ℕ → SafeError → NotificationOutbox → NotificationOutbox
fail_row now error o = retire (record o {
  status = NotificationOutboxStatus.failed;
  failed_at = some now;
  lease_owner = none;
  lease_until = none;
  last_error_safe = some error;
})

abbrev pub is_queued_recovery : (incident_id channel_id : ℕ) → NotificationOutbox → Bool
is_queued_recovery incident_id channel_id o =
    is_number o.incident_id incident_id
    && o.channel_id == channel_id
    && is_recovery o.event_type
    && is_queued o.status

abbrev pub cancel_recovery_row : ℕ → NotificationOutbox → NotificationOutbox
cancel_recovery_row now o = record o {
  status = NotificationOutboxStatus.canceled;
  canceled_at = some now;
  lease_owner = none;
  lease_until = none;
  last_error_safe = some down_not_delivered;
}

-- The recoveries of the incident and the channel, if it is a DOWN event of an incident.
unfoldable pub cancel_queued :
    (now channel_id : ℕ) → Bool → Option ℕ → List NotificationOutbox → List NotificationOutbox
cancel_queued now channel_id true (some incident_id) rows =
    update_many (is_queued_recovery incident_id channel_id) (cancel_recovery_row now) rows
cancel_queued now channel_id _ _ rows = rows

-- With a DOWN event that has failed, its recoveries are canceled.
unfoldable pub cancel_recoveries :
    ℕ → NotificationOutbox → List NotificationOutbox → List NotificationOutbox
unfolding cancel_queued
cancel_recoveries now o rows =
    cancel_queued now o.channel_id (is_down o.event_type) o.incident_id rows

unfoldable pub exhaust : ℕ → NotificationOutbox → List NotificationOutbox → List NotificationOutbox
unfolding cancel_recoveries
exhaust now o rows =
    cancel_recoveries now o (update_row o.id (fail_row now attempts_exhausted) rows)

-- The unique index on the deliveries.
abbrev pub is_attempt : (outbox_id attempt : ℕ) → NotificationDelivery → Bool
is_attempt outbox_id attempt d = d.outbox_id == outbox_id && d.attempt == attempt

module _ (instance_id lease_ms : ℕ) where
  abbrev pub start_row : (now attempt : ℕ) → NotificationOutbox → NotificationOutbox
  start_row now attempt o = record o {
    status = NotificationOutboxStatus.processing;
    attempt_count = attempt;
    processing_at = some now;
    lease_owner = some instance_id;
    lease_until = some (now + lease_ms);
    last_error_safe = none;
  }

  abbrev pub new_delivery : (now id attempt : ℕ) → NotificationOutbox → NotificationDelivery
  new_delivery now id attempt o = record {
    id = id;
    outbox_id = o.id;
    attempt = attempt;
    status = NotificationDeliveryStatus.attempting;
    message_id = o.message_id;
    provider_message_id = none;
    error_safe = none;
    started_at = now;
    finished_at = none;
    sent_at = none;
  }

  abbrev pub started :
      (now attempt : ℕ) → NotificationOutbox → Outbox → ClaimedNotification × Outbox
  started now attempt o s = (
    record {
      outbox = start_row now attempt o;
      delivery_id = s.next_id;
      delivery_attempt = attempt;
    },
    record s {
      rows = update_row o.id (start_row now attempt) s.rows;
      deliveries = new_delivery now s.next_id attempt o ∷ s.deliveries;
      next_id = s.next_id + 1;
    },
  )

  abbrev pub claimed : ClaimedNotification × Outbox → Option ClaimedNotification × Outbox
  claimed (c, s) = (some c, s)

  -- The update and the creation of the delivery row.
  unfoldable pub start_attempt :
      ℕ → NotificationOutbox → Outbox → Result ClaimError (Option ClaimedNotification × Outbox)
  start_attempt now o s =
      if any (is_attempt o.id (o.attempt_count + 1)) s.deliveries
      then throw duplicate_attempt
      else ok (claimed (started now (o.attempt_count + 1) o s))

  -- The row that was found may be claimed; `s` has the deliveries that were interrupted.
  unfoldable pub claim_due :
      ℕ → NotificationOutbox → Outbox → Result ClaimError (Option ClaimedNotification × Outbox)
  unfolding start_attempt exhaust is_held_back
  claim_due now o s =
      if is_held_back o s.rows
      then ok (none, s)
      else (if leb o.max_attempts o.attempt_count
          then ok (none, record s { rows = exhaust now o s.rows })
          else start_attempt now o s)

  unfoldable pub claim_found :
      Surroundings
      → ℕ
      → NotificationOutbox
      → Outbox
      → Result ClaimError (Option ClaimedNotification × Outbox)
  unfolding claim_due close_channel is_claimable interrupt_attempts
  claim_found db now o s =
      if not (db.is_live o.channel_id)
      then ok (none, record s { rows = close_channel now o s.rows })
      else (if not (is_claimable now o)
          then ok (none, s)
          else claim_due now o (record s { deliveries = interrupt_attempts o.id now s.deliveries }))

  unfoldable pub claim_if_found :
      Surroundings
      → ℕ
      → Option NotificationOutbox
      → Outbox
      → Result ClaimError (Option ClaimedNotification × Outbox)
  unfolding claim_found
  claim_if_found db now none s = ok (none, s)
  claim_if_found db now (some o) s = claim_found db now o s

  unfoldable pub claim :
      Surroundings → (now id : ℕ) → Outbox → Result ClaimError (Option ClaimedNotification × Outbox)
  unfolding claim_if_found
  claim db now id s = claim_if_found db now (find_row (is_at_id id) s.rows) s
