-- ===== src/Worker/CheckProcessor/Commit.antt =====
-- apps/worker/src/check-processor.ts: `persist`, the transaction that commits the result of a check.
-- It runs alone on the rows that its lock on the monitor guards; a thrown error undoes it. The row of
-- the check is read without a lock, and what that allows is in Ledger.
use link_alive.Common.{
  ℕ, ◌+◌, Bool, true, false, ◌&&◌, ◌||◌, Option, none, some, List, [], ◌∷◌, Result, ok, throw,
  ◌>>=◌, any, leb, map, ◌==◌, if◌then◌else◌, update_many,
}
use link_alive.Domain.Types.{
  CheckSource, CheckOutcome, CheckErrorType, IncidentStatus, IncidentClosureReason,
  NotificationEventType, Date, at, invalid,
}
use link_alive.Domain.StateMachine.{
  CheckTransitionInput, StateTransitionResult, IncidentEffect, no_effect, open_incident,
  update_incident, resolve_incident, is_active, apply_check_result,
}
use link_alive.Monitoring.Types.{MonitorCheckResult}
use link_alive.Database.Checks.{ScheduledCheck, is_open, is_null}
use link_alive.Worker.CheckProcessor.Claims.{complete_row}
use link_alive.Worker.CheckProcessor.World.{
  World, MonitorRow, IncidentRow, Binding, Observation, OutageRow, CommitError, date_refused, lift,
  find_open, create_outbox_row,
}
use link_alive.Worker.CheckProcessor.Recovery.{create_recovery_outbox}

-- The DOWN event for one binding, if it asks for it.
unfoldable pub create_down : ℕ → Binding → World → Result CommitError World
create_down incident_id b w =
    if b.notify_on_down && b.is_live
    then create_outbox_row incident_id b.channel_id NotificationEventType.down b.notify_on_recovery
        false w
    else ok w

-- `createOutbox`
unfoldable pub create_outbox : ℕ → List Binding → World → Result CommitError World
unfolding create_down
create_outbox incident_id [] w = ok w
create_outbox incident_id (b ∷ bs) w = do
  w ← create_down incident_id b w
  create_outbox incident_id bs w

abbrev pub set_last_error : ℕ → Option CheckErrorType → World → World
set_last_error id e w = record w {
  incidents = update_many (λ i. i.id == id) (λ i. record i { last_error_type = e }) w.incidents;
}

abbrev pub resolved : Date → IncidentRow → IncidentRow
resolved resolved_at i = record i {
  status = IncidentStatus.resolved;
  resolved_at = some resolved_at;
  closure_reason = some IncidentClosureReason.recovered;
}

-- The branch of an incident to open, with the one that is open already, if any.
unfoldable pub open_for :
    Option IncidentRow
    → (first_failure_at detected_at : Date)
    → (first_error_type last_error_type : Option CheckErrorType) → World
    → Result CommitError World
open_for (some existing) first_failure_at detected_at first_error_type last_error_type w =
    ok (set_last_error existing.id last_error_type w)
open_for none first_failure_at detected_at first_error_type last_error_type w =
    create_outbox w.next_id w.bindings (record w {
      incidents =
          record {
            id = w.next_id;
            config_version = w.monitor.state.config_version;
            status = IncidentStatus.opened;
            first_failure_at = first_failure_at;
            detected_at = detected_at;
            resolved_at = none;
            first_error_type = first_error_type;
            last_error_type = last_error_type;
            closure_reason = none;
          }
          ∷ w.incidents;
      next_id = w.next_id + 1;
    })

-- The branches for the incident that is open, if any; a CANCEL has none here.
unfoldable pub change_open : Option IncidentRow → IncidentEffect → World → Result CommitError World
change_open (some i) (update_incident e) w = ok (set_last_error i.id e w)
change_open (some i) (resolve_incident d) w =
    create_recovery_outbox (resolved d i)
      (record w { incidents = update_many (λ k. k.id == i.id) (resolved d) w.incidents })
change_open _ _ w = ok w

unfoldable pub apply_incident_effect : IncidentEffect → World → Result CommitError World
unfolding open_for change_open
apply_incident_effect no_effect w = ok w
apply_incident_effect (open_incident first_failure_at detected_at first_error_type last_error_type)
      w =
    open_for (find_open w.incidents) first_failure_at detected_at first_error_type last_error_type w
apply_incident_effect effect w = change_open (find_open w.incidents) effect w

abbrev pub is_success : CheckOutcome → Bool
is_success CheckOutcome.success = true
is_success _ = false

abbrev pub is_inconclusive : CheckOutcome → Bool
is_inconclusive CheckOutcome.inconclusive = true
is_inconclusive _ = false

-- `['SUCCESS', 'TARGET_FAILURE'].includes(outcome)`
abbrev pub is_about_target : CheckOutcome → Bool
is_about_target CheckOutcome.success = true
is_about_target CheckOutcome.target_failure = true
is_about_target _ = false

-- The update keeps the lifecycle and the configuration version as they are.
unfoldable pub monitor_update : MonitorRow → MonitorCheckResult → StateTransitionResult → MonitorRow
monitor_update m result transition = record m {
  state = record (transition.state) {
    lifecycle_status = m.state.lifecycle_status;
    config_version = m.state.config_version;
  };
  last_checked_at = some result.finished_at;
  network_unknown_since = none;
  last_status_code = result.status_code;
  last_ttfb_ms = result.ttfb_ms;
  last_total_ms = some result.total_ms;
  last_error_type = result.error_type;
  last_success_at =
      if is_success result.outcome then some result.finished_at else m.last_success_at;
  last_failure_at =
      if is_success result.outcome then m.last_failure_at else some result.finished_at;
}

abbrev pub or_else : Option Date → Date → Option Date
or_else none d = some d
or_else (some c) d = some c

abbrev pub observes : ℕ → List Observation → Bool
observes outage [] = false
observes outage (o ∷ os) = o.outage_id == outage || observes outage os

-- The `upsert` of an observation, whose update is empty.
unfoldable pub observe : Option ℕ → ℕ → World → World
observe none version w = w
observe (some outage) version w = if observes outage w.observations then w else record w {
  observations =
      record { outage_id = outage; config_version = version; rechecked_at = none; outcome = none }
      ∷ w.observations;
}

-- `{ lte: startedAt }`
abbrev pub not_later : Option Date → Date → Bool
not_later (some (at a)) (at b) = leb a b
not_later _ _ = false

-- `outage: { recoveredAt: { lte: startedAt } }`
abbrev pub has_recovered : ℕ → Date → List OutageRow → Bool
has_recovered id started_at outages =
    any (λ r. r.id == id && not_later r.recovered_at started_at) outages

unfoldable pub recheck : List OutageRow → ℕ → MonitorCheckResult → Observation → Observation
recheck outages version result o =
    if is_null o.rechecked_at
      && o.config_version == version
      && has_recovered o.outage_id result.started_at outages
    then record o { rechecked_at = some result.finished_at; outcome = some result.outcome }
    else o

-- What the network guard has written, before the state machine is asked.
unfoldable pub note_network : (has_guard : Bool) → MonitorCheckResult → Option ℕ → ℕ → World → World
unfolding observe recheck
note_network false result outage_id version w = w
note_network true result outage_id version w =
    if is_inconclusive result.outcome
    then observe outage_id version (record w {
      monitor = record (w.monitor) {
        network_unknown_since = or_else w.monitor.network_unknown_since result.started_at;
      };
    })
    else (if is_about_target result.outcome
        then record w { observations = map (recheck w.outages version result) w.observations }
        else w)

unfoldable pub apply_transition :
    MonitorCheckResult → StateTransitionResult → World → Result CommitError World
unfolding monitor_update apply_incident_effect
apply_transition result transition w =
    if transition.applied
    then apply_incident_effect transition.incident_effect
        (record w { monitor = monitor_update w.monitor result transition })
    else ok w

abbrev pub transition_input : MonitorCheckResult → ℕ → MonitorRow → CheckTransitionInput
transition_input result version m = record {
  source = CheckSource.scheduled;
  outcome = result.outcome;
  config_version = version;
  checked_at = result.finished_at;
  error_type = result.error_type;
  failure_threshold = m.failure_threshold;
  recovery_threshold = m.recovery_threshold;
}

-- The call of the state machine and what follows from it.
unfoldable pub apply_result : MonitorCheckResult → ℕ → World → Result CommitError World
unfolding apply_transition
apply_result result version w = do
  transition ← lift (apply_check_result w.monitor.state (transition_input result version w.monitor))
  apply_transition result transition w

-- What a valid result does.
unfoldable pub count_result :
    (has_guard : Bool) → MonitorCheckResult → Option ℕ → ℕ → World → Result CommitError World
unfolding note_network apply_result
count_result has_guard result outage_id version w =
    apply_result result version (note_network has_guard result outage_id version w)

pub data ProcessStatus : Type 0 where
  completed duplicate canceled : ProcessStatus

abbrev pub is_valid : ScheduledCheck → MonitorRow → Bool
is_valid c m =
    is_open c.status
    && c.config_version == m.state.config_version
    && is_active m.state.lifecycle_status
    && is_null m.deleted_at

-- The last update of the row of the check, which gets its result in any case.
abbrev pub finish : MonitorCheckResult → ℕ → ScheduledCheck → World → World
finish result finished_at c w = record w { check = some (complete_row result finished_at c) }

-- `persist` behind the test for a check that is gone or has a result already.
unfoldable pub persist_result :
    (has_guard : Bool)
    → MonitorCheckResult
    → Option ℕ
    → ScheduledCheck
    → Date
    → World
    → Result CommitError (ProcessStatus × World)
unfolding count_result
persist_result has_guard result outage_id c invalid w = throw date_refused
persist_result has_guard result outage_id c (at finished_at) w =
    if is_valid c w.monitor
    then (do
      w ← count_result has_guard result outage_id c.config_version w
      ok (completed, finish result finished_at c w))
    else ok (canceled, finish result finished_at c w)

unfoldable pub persist_check :
    (has_guard : Bool)
    → MonitorCheckResult
    → Option ℕ
    → Option ScheduledCheck
    → World
    → Result CommitError (ProcessStatus × World)
unfolding persist_result
persist_check has_guard result outage_id none w = ok (duplicate, w)
persist_check has_guard result outage_id (some c) w =
    if is_null c.result
    then persist_result has_guard result outage_id c result.finished_at w
    else ok (duplicate, w)

unfoldable pub persist :
    (has_guard : Bool)
    → MonitorCheckResult
    → Option ℕ
    → World
    → Result CommitError (ProcessStatus × World)
unfolding persist_check
persist has_guard result outage_id w = persist_check has_guard result outage_id w.check w
