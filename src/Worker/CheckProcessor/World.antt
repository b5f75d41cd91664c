-- ===== src/Worker/CheckProcessor/World.antt =====
-- apps/worker/src/check-processor.ts: the rows that the commit of a result reads and writes, those
-- of one monitor. Creation times, payload texts and message ids are left out.
use link_alive.Common.{
  ℕ, ◌+◌, Bool, true, false, ◌&&◌, Option, none, some, List, [], ◌∷◌, Result, ok, throw, any, ◌==◌,
  if◌then◌else◌, update_many,
}
use link_alive.Domain.Types.{
  CheckOutcome, CheckErrorType, IncidentStatus, IncidentClosureReason, NotificationEventType,
  NotificationOutboxStatus, Date, Error,
}
use link_alive.Domain.Notifications.{notification_sequence}
use link_alive.Domain.StateMachine.{MonitorState}
use link_alive.Database.Checks.{ScheduledCheck}

-- `state` has the columns that the health of the monitor consists of.
pub record MonitorRow : Type 0 where
  pub state : MonitorState
  pub deleted_at : Option ℕ
  pub failure_threshold : ℕ
  pub recovery_threshold : ℕ
  pub network_unknown_since : Option Date
  pub last_checked_at : Option Date
  pub last_status_code : Option ℕ
  pub last_ttfb_ms : Option ℕ
  pub last_total_ms : Option ℕ
  pub last_error_type : Option CheckErrorType
  pub last_success_at : Option Date
  pub last_failure_at : Option Date

pub record IncidentRow : Type 0 where
  pub id : ℕ
  pub config_version : ℕ
  pub status : IncidentStatus
  pub first_failure_at : Date
  pub detected_at : Date
  pub resolved_at : Option Date
  pub first_error_type : Option CheckErrorType
  pub last_error_type : Option CheckErrorType
  pub closure_reason : Option IncidentClosureReason

-- `notify_on_recovery` is the flag of the payload, `is_tombstone` says that the encrypted
-- destination has been retired, and `down_not_delivered` that `last_error_safe` is the reason
-- DOWN_NOT_DELIVERED_RECOVERY_CANCEL_REASON.
pub record OutboxRow : Type 0 where
  pub id : ℕ
  pub incident_id : ℕ
  pub channel_id : ℕ
  pub event_type : NotificationEventType
  pub sequence : ℕ
  pub status : NotificationOutboxStatus
  pub attempt_count : ℕ
  pub down_not_delivered : Bool
  pub notify_on_recovery : Bool
  pub is_tombstone : Bool
  pub canceled_at : Option Date
  pub lease_owner : Option ℕ
  pub lease_until : Option ℕ

-- A binding of the monitor to a channel; `is_live` says that the channel is a Telegram channel,
-- enabled and not deleted.
pub record Binding : Type 0 where
  pub channel_id : ℕ
  pub notify_on_down : Bool
  pub notify_on_recovery : Bool
  pub is_live : Bool

-- That the monitor could not be judged during an outage.
pub record Observation : Type 0 where
  pub outage_id : ℕ
  pub config_version : ℕ
  pub rechecked_at : Option Date
  pub outcome : Option CheckOutcome

-- What the commit reads of an outage of the network.
pub record OutageRow : Type 0 where
  pub id : ℕ
  pub recovered_at : Option Date

-- Incidents are listed by the time of detection, the latest first; outbox rows in their order of
-- creation.
pub record World : Type 0 where
  pub monitor : MonitorRow
  pub check : Option ScheduledCheck
  pub incidents : List IncidentRow
  pub outbox : List OutboxRow
  pub bindings : List Binding
  pub observations : List Observation
  pub outages : List OutageRow
  pub next_id : ℕ

-- What the transaction throws: an error of the domain, the violation of the unique index on
-- incident, channel and sequence, a row that is not there, or a date that cannot be stored.
pub data CommitError : Type 0 where
  domain_error : Error → CommitError
  duplicate_key row_not_found date_refused : CommitError

abbrev pub lift {ℓ} : {A : Type ℓ} → Result Error A → Result CommitError A
lift (throw e) = throw (domain_error e)
lift (ok a) = ok a

abbrev pub is_open : IncidentStatus → Bool
is_open IncidentStatus.opened = true
is_open _ = false

-- `findFirst({ where: { status: OPEN }, orderBy: { detectedAt: 'desc' } })`
abbrev pub find_open : List IncidentRow → Option IncidentRow
find_open [] = none
find_open (i ∷ is) = if is_open i.status then some i else find_open is

abbrev pub find_outbox : ℕ → List OutboxRow → Option OutboxRow
find_outbox id [] = none
find_outbox id (o ∷ os) = if o.id == id then some o else find_outbox id os

abbrev pub has_key : (incident_id channel_id sequence : ℕ) → OutboxRow → Bool
has_key incident_id channel_id sequence o =
    o.incident_id == incident_id && o.channel_id == channel_id && o.sequence == sequence

abbrev pub append : List OutboxRow → OutboxRow → List OutboxRow
append [] n = n ∷ []
append (o ∷ os) n = o ∷ append os n

-- A new row, with what distinguishes the rows that the commit creates.
abbrev pub new_row :
    (id incident_id channel_id : ℕ) (event_type : NotificationEventType)
    (notify_on_recovery is_tombstone : Bool)
    → OutboxRow
new_row id incident_id channel_id event_type notify_on_recovery is_tombstone = record {
  id = id;
  incident_id = incident_id;
  channel_id = channel_id;
  event_type = event_type;
  sequence = notification_sequence event_type;
  status = NotificationOutboxStatus.pending;
  attempt_count = 0;
  down_not_delivered = false;
  notify_on_recovery = notify_on_recovery;
  is_tombstone = is_tombstone;
  canceled_at = none;
  lease_owner = none;
  lease_until = none;
}

abbrev pub with_row : OutboxRow → World → World
with_row o w = record w { outbox = append w.outbox o; next_id = w.next_id + 1 }

-- `notificationOutbox.create`
unfoldable pub create_outbox_row :
    (incident_id channel_id : ℕ) (event_type : NotificationEventType)
    (notify_on_recovery is_tombstone : Bool)
    → World
    → Result CommitError World
create_outbox_row incident_id channel_id event_type notify_on_recovery is_tombstone w =
    if any (has_key incident_id channel_id (notification_sequence event_type)) w.outbox
    then throw duplicate_key
    else ok (
        with_row
          (new_row w.next_id incident_id channel_id event_type notify_on_recovery is_tombstone) w)

-- `update({ where: { id }, data: retiredNotificationSecretData() })`
unfoldable pub retire_secret : ℕ → World → World
retire_secret id w = record w {
  outbox = update_many (λ o. o.id == id) (λ o. record o { is_tombstone = true }) w.outbox;
}
