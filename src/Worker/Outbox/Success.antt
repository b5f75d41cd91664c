-- ===== src/Worker/Outbox/Success.antt =====
-- apps/worker/src/notification-processor.ts: what `markSent` leaves of a claimed notification,
-- with the recovery that a late DOWN event brings back.
use link_alive.Common.{
  ℕ, zero, suc, ◌+◌, ◌-◌, Bool, true, false, not, ◌&&◌, ◌||◌, Option, none, some, List, [], ◌∷◌,
  ◌==◌, leb, text, if◌then◌else◌, update_many, count, is_empty, trim,
}
use link_alive.Common.Json.{Json, boolean, number, string, object, no_members, member}
use link_alive.Domain.Types.{
  IncidentStatus, NotificationEventType, NotificationOutboxStatus, NotificationDeliveryStatus,
}
use link_alive.Domain.Notifications.{notification_sequence}
use link_alive.Worker.Delivery.{
  is_canceled, is_recovery, is_down, NotificationSecretState, should_retain_notification_secret,
}
use link_alive.Worker.Outbox.Rows.{
  NotificationOutbox, NotificationDelivery, Outbox, Surroundings, IncidentRow, LastResponse,
  SafeError, down_not_delivered, is_number, find_row,
}
use link_alive.Worker.Outbox.Statements.{retire}
use link_alive.Worker.Outbox.Claims.{ClaimedNotification, update_row}
use link_alive.Worker.Outbox.Payload.{
  SafeNotificationPayload, or_null, number_or_null, named, event_text, parse_notification_payload,
  payload_allows_recovery,
}
use link_alive.Worker.Outbox.Failure.{has_delivery_id}

-- Without the control characters, trimmed and cut: `Array.from` takes code points apart, which a
-- text of UTF-16 units joins again here.
abbrev pub is_control : ℕ → Bool
is_control u = leb u 31 || u == 127

abbrev pub printable : List ℕ → List ℕ
printable [] = []
printable (u ∷ us) = let rest = printable us in if is_control u then rest else u ∷ rest

-- A high and a low surrogate are one character of `Array.from`.
abbrev pub is_pair : (u v : ℕ) → Bool
is_pair u v = leb 55296 u && leb u 56319 && leb 56320 v && leb v 57343

abbrev pub take_characters : ℕ → List ℕ → List ℕ
take_characters zero us = []
take_characters (suc n) [] = []
take_characters (suc n) (u ∷ []) = u ∷ []
take_characters (suc n) (u ∷ v ∷ us) =
    let two = u ∷ v ∷ take_characters n us in
    let one = u ∷ take_characters n (v ∷ us) in if is_pair u v then two else one

unfoldable pub normalize_provider_message_id : Option (List ℕ) → Option (List ℕ)
unfolding trim
normalize_provider_message_id none = none
normalize_provider_message_id (some value) =
    let normalized = trim (printable value) in
    if is_empty normalized then none else some (take_characters 512 normalized)

abbrev pub sent_row : ℕ → NotificationOutbox → NotificationOutbox
sent_row now o = record o {
  status = NotificationOutboxStatus.sent;
  sent_at = some now;
  failed_at = none;
  lease_owner = none;
  lease_until = none;
  last_error_safe = none;
}

abbrev pub may_be_sent : ℕ → NotificationOutbox → Bool
may_be_sent id o = o.id == id && not (is_canceled o.status)

abbrev pub succeed_attempt : ℕ → Option (List ℕ) → NotificationDelivery → NotificationDelivery
succeed_attempt now provider_message_id d = record d {
  status = NotificationDeliveryStatus.succeeded;
  provider_message_id = normalize_provider_message_id provider_message_id;
  error_safe = none;
  finished_at = some now;
  sent_at = some now;
}

-- The recovery of an incident and a channel that was canceled for want of its DOWN event.
abbrev pub is_undelivered : Option SafeError → Bool
is_undelivered (some down_not_delivered) = true
is_undelivered _ = false

unfoldable pub was_canceled_for_down : NotificationOutbox → Bool
was_canceled_for_down o =
    is_recovery o.event_type && is_canceled o.status && is_undelivered o.last_error_safe

abbrev pub revived : (now : ℕ) → List ℕ → NotificationOutbox → NotificationOutbox
revived now encrypted_config_snapshot o = record o {
  status = NotificationOutboxStatus.pending;
  available_at = now;
  canceled_at = none;
  queue_job_id = none;
  enqueued_at = none;
  lease_owner = none;
  lease_until = none;
  last_error_safe = none;
  encrypted_config_snapshot = encrypted_config_snapshot;
}

abbrev pub has_sequence : (incident_id channel_id sequence : ℕ) → NotificationOutbox → Bool
has_sequence incident_id channel_id sequence o =
    is_number o.incident_id incident_id && o.channel_id == channel_id && o.sequence == sequence

abbrev pub add_row : List NotificationOutbox → NotificationOutbox → List NotificationOutbox
add_row [] n = n ∷ []
add_row (o ∷ os) n = o ∷ add_row os n

-- What the recovery takes from the last response of the monitor.
abbrev pub last_status : Option LastResponse → Option ℕ
last_status none = none
last_status (some r) = r.last_status_code

abbrev pub last_ttfb : Option LastResponse → Option ℕ
last_ttfb none = none
last_ttfb (some r) = r.last_ttfb_ms

-- `message_id` gives the id that `createStableMessageId` makes from the key of the recovery and the
-- domain of the DOWN event's id. `to_iso_string` is the method of `Date`.
module _ (message_id : (incident_id channel_id : ℕ) → List ℕ → List ℕ)
    (encode_uri_component : List ℕ → List ℕ) (to_iso_string : ℕ → List ℕ) where
  unfoldable pub recovery_payload :
      SafeNotificationPayload → IncidentRow → (resolved_at : ℕ) → Option LastResponse → Json
  recovery_payload original incident resolved_at response = object (
      member (text "eventType") (string (event_text NotificationEventType.recovery)) (
        member (text "monitorName") (string original.monitor_name) (
          member (text "displayUrl") (string original.display_url) (
            member (text "occurredAt") (string (to_iso_string resolved_at)) (
              member (text "errorType") (or_null (named incident.last_error_type)) (
                member (text "errorMessageSafe") (or_null original.error_message_safe) (
                  member (text "statusCode") (number_or_null (last_status response)) (
                    member (text "ttfbMs") (number_or_null (last_ttfb response)) (
                      member (text "durationMs") (number (resolved_at - incident.first_failure_at))
                        (member (text "notifyOnRecovery") (boolean true)
                          (elim original.dashboard_url [
                            | none ↦ no_members
                            | some url ↦
                                if is_empty url
                                then no_members
                                else member (text "dashboardUrl") (string url) no_members
                          ])))))))))))

  abbrev pub new_recovery :
      (now id monitor_id incident_id : ℕ) → NotificationOutbox → Json → NotificationOutbox
  new_recovery now id monitor_id incident_id down payload = record {
    id = id;
    monitor_id = some monitor_id;
    incident_id = some incident_id;
    channel_id = down.channel_id;
    event_type = NotificationEventType.recovery;
    sequence = notification_sequence NotificationEventType.recovery;
    payload_safe = payload;
    message_id = message_id incident_id down.channel_id down.message_id;
    encrypted_config_snapshot = down.encrypted_config_snapshot;
    is_telegram = down.is_telegram;
    status = NotificationOutboxStatus.pending;
    available_at = now;
    created_at = now;
    attempt_count = 0;
    max_attempts = 3;
    lease_owner = none;
    lease_until = none;
    queue_job_id = none;
    last_error_safe = none;
    enqueued_at = none;
    processing_at = none;
    sent_at = none;
    failed_at = none;
    canceled_at = none;
  }

  -- The two ways of having a recovery: the one that is there is revived, or one is created.
  unfoldable pub restore_recovery :
      Surroundings
      → (now monitor_id incident_id : ℕ) → NotificationOutbox
      → IncidentRow
      → (resolved_at : ℕ) → Option NotificationOutbox
      → Outbox
      → Outbox
  unfolding was_canceled_for_down recovery_payload
  restore_recovery db now monitor_id incident_id down incident resolved_at (some existing) s =
      if was_canceled_for_down existing
      then record s {
        rows = update_row existing.id (revived now down.encrypted_config_snapshot) s.rows;
      }
      else s
  restore_recovery db now monitor_id incident_id down incident resolved_at none s = record s {
    rows = add_row s.rows (
        new_recovery now s.next_id monitor_id incident_id down (
          recovery_payload
            (parse_notification_payload encode_uri_component to_iso_string now down.payload_safe
              NotificationEventType.down)
            incident resolved_at (db.monitor monitor_id)));
    next_id = s.next_id + 1;
  }

  -- The tests behind those of the DOWN event: the incident is resolved, the notification has a
  -- monitor, and channel and binding still want the recovery.
  unfoldable pub recover_resolved :
      Surroundings
      → (now incident_id : ℕ) → NotificationOutbox
      → IncidentRow
      → IncidentStatus
      → (resolved_at monitor_id : Option ℕ) → Outbox
      → Outbox
  unfolding restore_recovery
  recover_resolved db now incident_id down incident IncidentStatus.resolved (some resolved_at)
        (some monitor_id) s =
      if db.is_live down.channel_id && db.notifies_recovery monitor_id down.channel_id
      then restore_recovery db now monitor_id incident_id down incident resolved_at
          (find_row
            (has_sequence incident_id down.channel_id
              (notification_sequence NotificationEventType.recovery))
            s.rows)
          s
      else s
  recover_resolved db now incident_id down incident _ _ _ s = s

  unfoldable pub recover_if_found :
      Surroundings
      → (now incident_id : ℕ) → NotificationOutbox
      → Option IncidentRow
      → Outbox
      → Outbox
  unfolding recover_resolved
  recover_if_found db now incident_id down none s = s
  recover_if_found db now incident_id down (some incident) s =
      recover_resolved db now incident_id down incident incident.status incident.resolved_at
        down.monitor_id s

  abbrev pub status_of_incident : Option IncidentRow → Option IncidentStatus
  status_of_incident none = none
  status_of_incident (some i) = some i.status

  -- `ensureRecoveryAfterLateDownSuccess`: the incident's status, and the outbox.
  unfoldable pub ensure_recovery :
      Surroundings → ℕ → NotificationOutbox → Option ℕ → Outbox → Option IncidentStatus × Outbox
  unfolding recover_if_found
  ensure_recovery db now down none s = (none, s)
  ensure_recovery db now down (some incident_id) s =
      if is_down down.event_type && payload_allows_recovery down.payload_safe
      then (
        status_of_incident (db.incident incident_id),
        recover_if_found db now incident_id down (db.incident incident_id) s,
      )
      else (none, s)

  abbrev pub secret_state : NotificationOutbox → Option IncidentStatus → NotificationSecretState
  secret_state o incident_status = record {
    status = NotificationOutboxStatus.sent;
    event_type = o.event_type;
    down_not_delivered = false;
    payload_allows_recovery = payload_allows_recovery o.payload_safe;
    incident_status = incident_status;
  }

  -- The destination is retired where it is not needed any more.
  unfoldable pub retire_if_done : NotificationOutbox → Option IncidentStatus × Outbox → Outbox
  retire_if_done o (incident_status, s) =
      if should_retain_notification_secret (secret_state o incident_status)
      then s
      else record s { rows = update_row o.id retire s.rows }

  unfoldable pub mark_sent :
      Surroundings
      → ℕ
      → ClaimedNotification
      → (provider_message_id : Option (List ℕ)) → Outbox
      → Outbox
  unfolding retire_if_done ensure_recovery
  mark_sent db now c provider_message_id s =
      let sent : Outbox = record s {
        deliveries =
            update_many (has_delivery_id c.delivery_id) (succeed_attempt now provider_message_id)
              s.deliveries;
        rows = update_many (may_be_sent c.outbox.id) (sent_row now) s.rows;
      } in
      if count (may_be_sent c.outbox.id) s.rows == 1
      then retire_if_done c.outbox (ensure_recovery db now c.outbox c.outbox.incident_id sent)
      else sent
