-- ===== src/Worker/CheckProcessor/Recovery.antt =====
-- apps/worker/src/check-processor.ts: what is queued when an incident is resolved, `createRecoveryOutbox`.
use link_alive.Common.{
  ℕ, Bool, true, not, ◌&&◌, Option, none, some, List, [], ◌∷◌, Result, ok, throw, ◌>>=◌, any, ◌==◌,
  if◌then◌else◌, update_many, count,
}
use link_alive.Domain.Types.{NotificationEventType, NotificationOutboxStatus}
use link_alive.Domain.Notifications.{
  RecoveryNotificationPlan, replace_with_resolved_summary, skip, is_waiting,
  plan_recovery_notification,
}
use link_alive.Worker.Delivery.{should_retain_notification_secret, is_down}
use link_alive.Worker.CheckProcessor.World.{
  World, IncidentRow, OutboxRow, Binding, CommitError, row_not_found, lift, find_outbox,
  create_outbox_row, retire_secret,
}

-- Whether the destination of the DOWN event `down` can still be needed, when its status is `status`
-- and whether it failed as undelivered is `undelivered`.
abbrev pub retains : IncidentRow → OutboxRow → NotificationOutboxStatus → Bool → Bool
retains incident down status undelivered = should_retain_notification_secret (record {
  status = status;
  event_type = down.event_type;
  down_not_delivered = undelivered;
  payload_allows_recovery = down.notify_on_recovery;
  incident_status = some incident.status;
})

-- `if (!shouldRetainNotificationSecret(…)) update(…)`
abbrev pub retire_unless : Bool → ℕ → World → World
retire_unless kept id w = if kept then w else retire_secret id w

-- What is known of a DOWN event once the summary has tried to replace it.
pub record Settled : Type 0 where
  pub plan : RecoveryNotificationPlan
  pub status : NotificationOutboxStatus
  pub undelivered : Bool
  pub world : World

-- The second reading of a DOWN event that could not be canceled.
unfoldable pub replan : Option OutboxRow → World → Result CommitError Settled
replan none w = throw row_not_found
replan (some current) w = do
  plan ← lift (plan_recovery_notification current.status current.attempt_count)
  ok (record {
    plan = plan;
    status = current.status;
    undelivered = current.down_not_delivered;
    world = w;
  })

abbrev pub is_replaceable : ℕ → OutboxRow → Bool
is_replaceable id o = o.id == id && o.attempt_count == 0 && is_waiting o.status

abbrev pub cancel_replaced : IncidentRow → OutboxRow → OutboxRow
cancel_replaced incident o = record o {
  status = NotificationOutboxStatus.canceled;
  canceled_at = incident.resolved_at;
  lease_owner = none;
  lease_until = none;
}

-- The DOWN event has been canceled for the summary.
abbrev pub replaced : IncidentRow → OutboxRow → World → Settled
replaced incident down w = record {
  plan = replace_with_resolved_summary;
  status = NotificationOutboxStatus.canceled;
  undelivered = down.down_not_delivered;
  world = record w {
    outbox = update_many (is_replaceable down.id) (cancel_replaced incident) w.outbox;
  };
}

-- The part under `plan.action === 'REPLACE_WITH_RESOLVED_SUMMARY'`.
unfoldable pub settle :
    RecoveryNotificationPlan → IncidentRow → OutboxRow → World → Result CommitError Settled
unfolding replan
settle replace_with_resolved_summary incident down w =
    if count (is_replaceable down.id) w.outbox == 1
    then ok (replaced incident down w)
    else replan (find_outbox down.id w.outbox) w
settle plan incident down w =
    ok (record {
      plan = plan;
      status = down.status;
      undelivered = down.down_not_delivered;
      world = w;
    })

-- The event that a plan other than SKIP queues.
abbrev pub event_of : RecoveryNotificationPlan → NotificationEventType
event_of replace_with_resolved_summary = NotificationEventType.resolved_summary
event_of _ = NotificationEventType.recovery

-- The event of a plan is queued unless it is SKIP, and the DOWN event's destination is retired
-- unless it is kept.
unfoldable pub queue_planned :
    RecoveryNotificationPlan
    → IncidentRow
    → OutboxRow
    → (kept : Bool) → World
    → Result CommitError World
queue_planned skip incident down kept w = ok (retire_unless kept down.id w)
queue_planned plan incident down kept w = do
  w ← create_outbox_row incident.id down.channel_id (event_of plan) true down.is_tombstone w
  ok (retire_unless kept down.id w)

unfoldable pub queue_recovery : IncidentRow → OutboxRow → Settled → Result CommitError World
unfolding queue_planned
queue_recovery incident down s =
    queue_planned s.plan incident down (retains incident down s.status s.undelivered) s.world

-- The body of the loop for a DOWN event whose payload allows a recovery.
unfoldable pub recover_planned : IncidentRow → OutboxRow → World → Result CommitError World
unfolding settle queue_recovery
recover_planned incident down w = do
  plan ← lift (plan_recovery_notification down.status down.attempt_count)
  settled ← settle plan incident down w
  queue_recovery incident down settled

-- The body of the loop for the DOWN event `down`.
unfoldable pub recover_one : IncidentRow → OutboxRow → World → Result CommitError World
unfolding recover_planned
recover_one incident down w =
    if not down.notify_on_recovery
    then ok (retire_unless (retains incident down down.status down.down_not_delivered) down.id w)
    else recover_planned incident down w

unfoldable pub recover_all : IncidentRow → List OutboxRow → World → Result CommitError World
unfolding recover_one
recover_all incident [] w = ok w
recover_all incident (down ∷ downs) w = do
  w ← recover_one incident down w
  recover_all incident downs w

-- The WHERE of the query for `downEvents`.
unfoldable pub is_down_event : List Binding → ℕ → OutboxRow → Bool
is_down_event bindings incident_id o =
    o.incident_id == incident_id
    && is_down o.event_type
    && any (λ b. b.channel_id == o.channel_id && b.is_live && b.notify_on_recovery) bindings

abbrev pub filter {ℓ} : {A : Type ℓ} → (A → Bool) → List A → List A
filter p [] = []
filter p (x ∷ xs) = let rest = filter p xs in if p x then x ∷ rest else rest

unfoldable pub create_recovery_outbox : IncidentRow → World → Result CommitError World
unfolding recover_all is_down_event
create_recovery_outbox incident w =
    recover_all incident (filter (is_down_event w.bindings incident.id) w.outbox) w
