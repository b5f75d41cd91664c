-- ===== src/Database/Retention/Redaction.antt =====
-- packages/database/src/retention-plan.ts: which encrypted values are replaced by the tombstone. The
-- statement over the outbox is a backstop for what the worker does by
-- `shouldRetainNotificationSecret` of apps/worker/src/secret-lifecycle.ts.
use link_alive.Common.{
  ℕ, ◌≡◌, Bool, true, false, not, ◌&&◌, Option, none, some, List, any, ◌==◌, arith, Bool-cases, inl,
  inr,
}
use link_alive.Domain.Types.{NotificationOutboxStatus, NotificationEventType, IncidentStatus}
use link_alive.Database.Retention.Plan.{IncidentRow, outbox_has_ended, is_id}
use link_alive.Worker.Delivery.{
  NotificationSecretState, should_retain_notification_secret, is_down, is_sent, is_recovery,
  is_canceled, is_open_incident,
}

-- A monitor or a channel: whether it is deleted, and whether its secret is the tombstone already.
pub record SecretOwnerRow : Type 0 where
  pub deleted_at : Option ℕ
  pub is_tombstone : Bool

pub record ChannelRow : Type 0 where
  pub id : ℕ
  pub enabled : Bool
  pub deleted_at : Option ℕ

pub record BindingRow : Type 0 where
  pub monitor_id : ℕ
  pub channel_id : ℕ
  pub notify_on_recovery : Bool

-- `allows_recovery` says that the flag of `payload_safe` is true, and `down_not_delivered` that
-- `last_error_safe` is the reason for which a recovery is canceled; NULL where there is no such flag
-- or no error.
pub record SecretOutboxRow : Type 0 where
  pub incident_id : Option ℕ
  pub monitor_id : Option ℕ
  pub channel_id : ℕ
  pub event_type : NotificationEventType
  pub status : NotificationOutboxStatus
  pub is_tombstone : Bool
  pub allows_recovery : Option Bool
  pub down_not_delivered : Option Bool

pub record SecretTables : Type 0 where
  pub channels : List ChannelRow
  pub bindings : List BindingRow
  pub incidents : List IncidentRow
  pub outbox : List SecretOutboxRow

abbrev is_null : Option ℕ → Bool
is_null none = true
is_null (some a) = false

-- `selectDeletedMonitorsSql` and `selectDeletedNotificationChannelsSql`.
unfoldable pub selects_deleted : SecretOwnerRow → Bool
selects_deleted r = not (is_null r.deleted_at) && not r.is_tombstone

abbrev pub same_incident : Option ℕ → Option ℕ → Bool
same_incident none o = false
same_incident (some k) o = is_id k o

abbrev pub has_open_incident : SecretTables → SecretOutboxRow → Bool
has_open_incident t o =
    any (λ i. is_id i.id o.incident_id && is_open_incident (some i.status)) t.incidents

abbrev pub has_live_channel : SecretTables → SecretOutboxRow → Bool
has_live_channel t o =
    any (λ c. c.id == o.channel_id && c.enabled && is_null c.deleted_at) t.channels

abbrev pub has_recovery_binding : SecretTables → SecretOutboxRow → Bool
has_recovery_binding t o =
    any
      (λ b. is_id b.monitor_id o.monitor_id && b.channel_id == o.channel_id && b.notify_on_recovery)
      t.bindings

abbrev pub has_down_event : SecretTables → SecretOutboxRow → Bool
has_down_event t o =
    any
      (λ d.
        same_incident d.incident_id o.incident_id
        && d.channel_id == o.channel_id
        && is_down d.event_type
        && not (is_canceled d.status))
      t.outbox

-- A test of SQL, which NULL may make unknown: `a AND b`, where `b` is known, and `NOT a`.
abbrev pub and_known : Option Bool → Bool → Option Bool
and_known none true = none
and_known none false = some false
and_known (some a) b = some (a && b)

abbrev pub not_true : Option Bool → Option Bool
not_true none = none
not_true (some a) = some (not a)

abbrev pub is_known : Option Bool → Bool
is_known none = false
is_known (some a) = true

-- A WHERE selects the rows for which its test is true.
abbrev pub is_true : Option Bool → Bool
is_true none = false
is_true (some a) = a

-- A DOWN event whose recovery may still be sent.
abbrev pub awaits_recovery : SecretTables → SecretOutboxRow → Option Bool
awaits_recovery t o = and_known o.allows_recovery (
    is_down o.event_type
    && is_sent o.status
    && has_open_incident t o
    && has_live_channel t o
    && has_recovery_binding t o)

-- A recovery that is kept until its DOWN event is sent.
abbrev pub awaits_down : SecretTables → SecretOutboxRow → Option Bool
awaits_down t o = and_known o.down_not_delivered (
    is_recovery o.event_type
    && is_canceled o.status
    && has_live_channel t o
    && has_down_event t o
    && has_recovery_binding t o)

-- `selectTerminalNotificationOutboxSql`
unfoldable pub selects_terminal_outbox : SecretTables → SecretOutboxRow → Bool
selects_terminal_outbox t o =
    outbox_has_ended o.status
    && not o.is_tombstone
    && is_true (not_true (awaits_recovery t o))
    && is_true (not_true (awaits_down t o))

-- The column is not NULL where the statement looks at it.
abbrev pub Known : SecretOutboxRow → Type 0
Known o =
    ((is_down o.event_type && is_sent o.status) ≡ true → is_known o.allows_recovery ≡ true)
    × ((is_recovery o.event_type && is_canceled o.status) ≡ true
        → is_known o.down_not_delivered ≡ true)

-- What the worker knows of the row, with the status of its incident.
abbrev pub secret_state : SecretOutboxRow → Option IncidentStatus → NotificationSecretState
secret_state o incident = record {
  status = o.status;
  event_type = o.event_type;
  down_not_delivered = is_true o.down_not_delivered;
  payload_allows_recovery = is_true o.allows_recovery;
  incident_status = incident;
}

module _ (t : SecretTables) (o : SecretOutboxRow) (incident : Option IncidentStatus) where
  redacts_open :
      incident ≡ some IncidentStatus.opened
      → Known o
      → outbox_has_ended o.status ≡ true
      → o.is_tombstone ≡ false
      → should_retain_notification_secret (secret_state o incident) ≡ false
      → selects_terminal_outbox t o ≡ true
  unfolding selects_terminal_outbox should_retain_notification_secret
  redacts_open opened (flag, error) ended plain unretained = ground arith

  redacts_closed :
      has_open_incident t o ≡ false
      → Known o
      → outbox_has_ended o.status ≡ true
      → o.is_tombstone ≡ false
      → should_retain_notification_secret (secret_state o incident) ≡ false
      → selects_terminal_outbox t o ≡ true
  unfolding selects_terminal_outbox should_retain_notification_secret
  redacts_closed closed (flag, error) ended plain unretained = ground arith

-- Nothing that the worker would not keep escapes the redaction, so far as its columns are not NULL:
-- a secret of a notification that has ended, is not the tombstone yet, and would not be retained, is
-- selected, whatever the other tables hold, where a DOWN event that was sent has the flag in its
-- payload and a recovery that was canceled has an error.
pub redacts_unretained :
    (t : SecretTables) (o : SecretOutboxRow) (incident : Option IncidentStatus)
    → (has_open_incident t o ≡ true → incident ≡ some IncidentStatus.opened)
    → Known o
    → outbox_has_ended o.status ≡ true
    → o.is_tombstone ≡ false
    → should_retain_notification_secret (secret_state o incident) ≡ false
    → selects_terminal_outbox t o ≡ true
redacts_unretained t o incident same known ended plain unretained =
    elim (Bool-cases (has_open_incident t o)) [
      | inl opened ↦ redacts_open t o incident (same opened) known ended plain unretained
      | inr closed ↦ redacts_closed t o incident closed known ended plain unretained
    ]

-- A canceled recovery without an error is kept, although the worker would not retain its secret, so
-- long as its channel, its binding and its DOWN event are there.
pub keeps_unknown_error :
    (t : SecretTables) (o : SecretOutboxRow) (incident : Option IncidentStatus)
    → (is_recovery o.event_type && is_canceled o.status) ≡ true
    → o.down_not_delivered ≡ none
    → (has_live_channel t o && has_down_event t o && has_recovery_binding t o) ≡ true
    → (should_retain_notification_secret (secret_state o incident) ≡ false)
      × (selects_terminal_outbox t o ≡ false)
unfolding selects_terminal_outbox should_retain_notification_secret
keeps_unknown_error t o incident canceled unknown there = ground arith
