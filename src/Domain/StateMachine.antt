-- ===== src/Domain/StateMachine.antt =====
-- packages/domain/src/state-machine.ts: the health of a monitor under check results, lifecycle
-- changes and configuration changes. A thrown error is a `throw`, and the state is not mutated.
pub mod Events
pub mod Invariant
pub mod Applies
pub mod Ledger
pub mod Thresholds
pub mod History
mod Tests
use link_alive.Common.{
  ℕ, ◌+◌, Bool, true, false, not, ◌&&◌, ◌||◌, Option, none, some, Result, ok, ◌>>=◌, ◌>>◌, throw_if,
  leb, ltb, ◌==◌, if◌then◌else◌,
}
use link_alive.Domain.Types.{
  MonitorLifecycle, MonitorHealth, CheckSource, CheckOutcome, CheckErrorType, IncidentClosureReason,
  Date, Error, is_safe_integer, is_positive_safe, is_invalid, config_version_range, counters_range,
  failure_threshold_range, recovery_threshold_range, result_config_version_range, invalid_date,
  deleted_is_final, next_config_version_range,
}

pub record MonitorState : Type 0 where
  pub lifecycle_status : MonitorLifecycle
  pub health_state : MonitorHealth
  pub consecutive_failures : ℕ
  pub consecutive_successes : ℕ
  pub failure_streak_started_at : Option Date
  pub failure_streak_first_error_type : Option CheckErrorType
  pub config_version : ℕ

-- An absent `errorType` is read as null (`input.errorType ?? null`).
pub record CheckTransitionInput : Type 0 where
  pub source : CheckSource
  pub outcome : CheckOutcome
  pub config_version : ℕ
  pub checked_at : Date
  pub error_type : Option CheckErrorType
  pub failure_threshold : ℕ
  pub recovery_threshold : ℕ

pub data IgnoredCheckReason : Type 0 where
  lifecycle_not_active non_scheduled_source : IgnoredCheckReason
  stale_config_version non_target_outcome : IgnoredCheckReason

-- `cancel_incident` is never given the reason RECOVERED, which the source's type leaves out.
pub data IncidentEffect : Type 0 where
  no_effect : IncidentEffect
  open_incident :
      (first_failure_at detected_at : Date)
      (first_error_type last_error_type : Option CheckErrorType)
      → IncidentEffect
  update_incident : (last_error_type : Option CheckErrorType) → IncidentEffect
  resolve_incident : (resolved_at : Date) → IncidentEffect
  cancel_incident : (canceled_at : Date) (reason : IncidentClosureReason) → IncidentEffect

pub record StateTransitionResult : Type 0 where
  pub applied : Bool
  pub ignored_reason : Option IgnoredCheckReason
  pub previous_health_state : MonitorHealth
  pub state : MonitorState
  pub health_changed : Bool
  pub incident_effect : IncidentEffect

pub record AdministrativeTransitionResult : Type 0 where
  pub state : MonitorState
  pub incident_effect : IncidentEffect

unfoldable pub assert_state : MonitorState → Result Error (Unit {0})
assert_state s = do
  throw_if (not (is_positive_safe s.config_version)) config_version_range
  throw_if
      (not (is_safe_integer s.consecutive_failures)
        || not (is_safe_integer s.consecutive_successes))
      counters_range

unfoldable pub assert_transition_input : CheckTransitionInput → Result Error (Unit {0})
assert_transition_input i = do
  throw_if (not (is_positive_safe i.failure_threshold)) failure_threshold_range
  throw_if (not (is_positive_safe i.recovery_threshold)) recovery_threshold_range
  throw_if (not (is_positive_safe i.config_version)) result_config_version_range
  throw_if (is_invalid i.checked_at) invalid_date

unfoldable pub unchanged : MonitorState → IgnoredCheckReason → StateTransitionResult
unchanged s reason = record {
  applied = false;
  ignored_reason = some reason;
  previous_health_state = s.health_state;
  state = s;
  health_changed = false;
  incident_effect = no_effect;
}

abbrev pub is_active : MonitorLifecycle → Bool
is_active MonitorLifecycle.active = true
is_active _ = false

abbrev pub is_deleted : MonitorLifecycle → Bool
is_deleted MonitorLifecycle.deleted = true
is_deleted _ = false

abbrev pub is_scheduled : CheckSource → Bool
is_scheduled CheckSource.scheduled = true
is_scheduled _ = false

-- DOWN and RECOVERING: the states of a monitor with an open incident.
abbrev pub in_incident : MonitorHealth → Bool
in_incident MonitorHealth.down = true
in_incident MonitorHealth.recovering = true
in_incident _ = false

abbrev pub same_health : MonitorHealth → MonitorHealth → Bool
same_health MonitorHealth.pending MonitorHealth.pending = true
same_health MonitorHealth.up MonitorHealth.up = true
same_health MonitorHealth.suspect MonitorHealth.suspect = true
same_health MonitorHealth.down MonitorHealth.down = true
same_health MonitorHealth.recovering MonitorHealth.recovering = true
same_health _ _ = false

abbrev pub same_lifecycle : MonitorLifecycle → MonitorLifecycle → Bool
same_lifecycle MonitorLifecycle.active MonitorLifecycle.active = true
same_lifecycle MonitorLifecycle.paused MonitorLifecycle.paused = true
same_lifecycle MonitorLifecycle.deleted MonitorLifecycle.deleted = true
same_lifecycle _ _ = false

-- The branch `input.outcome === SUCCESS`: the next state and the incident effect.
unfoldable pub on_success : MonitorState → CheckTransitionInput → MonitorState × IncidentEffect
on_success s i =
    let successes = s.consecutive_successes + 1 in
    let recovering = in_incident s.health_state in
    let recovered = recovering && leb i.recovery_threshold successes in
    (
      record s {
        health_state =
            if recovering
            then (if recovered then MonitorHealth.up else MonitorHealth.recovering)
            else MonitorHealth.up;
        consecutive_failures = 0;
        consecutive_successes = successes;
        failure_streak_started_at = none;
        failure_streak_first_error_type = none;
      },
      if recovered then resolve_incident i.checked_at else no_effect,
    )

-- `state.consecutiveFailures > 0 && startedAt !== null ? startedAt : checkedAt`
abbrev pub streak_start : ℕ → Option Date → Date → Date
streak_start failures none checked_at = checked_at
streak_start failures (some d) checked_at = if ltb 0 failures then d else checked_at

-- The branch of a target failure.
unfoldable pub on_failure : MonitorState → CheckTransitionInput → MonitorState × IncidentEffect
on_failure s i =
    let failures = s.consecutive_failures + 1 in
    let started = streak_start s.consecutive_failures s.failure_streak_started_at i.checked_at in
    let first_error =
      if ltb 0 s.consecutive_failures then s.failure_streak_first_error_type else i.error_type in
    let already = in_incident s.health_state in
    let enters_down = already || leb i.failure_threshold failures in
    (
      record s {
        health_state = if enters_down then MonitorHealth.down else MonitorHealth.suspect;
        consecutive_failures = failures;
        consecutive_successes = 0;
        failure_streak_started_at = some started;
        failure_streak_first_error_type = first_error;
      },
      if already
          then update_incident i.error_type
          else (if enters_down
              then open_incident started i.checked_at first_error i.error_type
              else no_effect),
    )

unfoldable pub applied_result : MonitorState → MonitorState × IncidentEffect → StateTransitionResult
applied_result s (next, effect) = record {
  applied = true;
  ignored_reason = none;
  previous_health_state = s.health_state;
  state = next;
  health_changed = not (same_health s.health_state next.health_state);
  incident_effect = effect;
}

-- What follows the three tests of the lifecycle, the source and the version.
unfoldable pub by_outcome :
    CheckOutcome → MonitorState → CheckTransitionInput → StateTransitionResult
unfolding on_success on_failure applied_result unchanged
by_outcome CheckOutcome.success s i = applied_result s (on_success s i)
by_outcome CheckOutcome.target_failure s i = applied_result s (on_failure s i)
by_outcome _ s i = unchanged s non_target_outcome

-- The body of `applyCheckResult` behind the two assertions.
unfoldable pub decide_result : MonitorState → CheckTransitionInput → StateTransitionResult
unfolding by_outcome unchanged
decide_result s i =
    if not (is_active s.lifecycle_status)
    then unchanged s lifecycle_not_active
    else (if not (is_scheduled i.source)
        then unchanged s non_scheduled_source
        else (if not (i.config_version == s.config_version)
            then unchanged s stale_config_version
            else by_outcome i.outcome s i))

unfoldable pub apply_check_result :
    MonitorState → CheckTransitionInput → Result Error StateTransitionResult
apply_check_result s i = do assert_state s; assert_transition_input i; ok (decide_result s i)

-- `healthState: PENDING` with the counters and the failure streak cleared.
abbrev pub cleared : MonitorState → MonitorState
cleared s = record s {
  health_state = MonitorHealth.pending;
  consecutive_failures = 0;
  consecutive_successes = 0;
  failure_streak_started_at = none;
  failure_streak_first_error_type = none;
}

unfoldable pub transition_lifecycle :
    MonitorState → MonitorLifecycle → Date → Result Error AdministrativeTransitionResult
unfolding assert_state
transition_lifecycle s lifecycle changed_at = do
  assert_state s
  throw_if (is_invalid changed_at) invalid_date
  throw_if (is_deleted s.lifecycle_status && not (is_deleted lifecycle)) deleted_is_final
  let reason =
      if is_deleted lifecycle then IncidentClosureReason.deleted else IncidentClosureReason.paused
  ok (
      if same_lifecycle s.lifecycle_status lifecycle
      then record { state = s; incident_effect = no_effect }
      else record {
        state = record (cleared s) { lifecycle_status = lifecycle };
        incident_effect =
            if in_incident s.health_state && not (is_active lifecycle)
            then cancel_incident changed_at reason
            else no_effect;
      })

-- The default of `nextConfigVersion` is `reset_default`.
unfoldable pub reset_for_config_change :
    MonitorState → Date → ℕ → Result Error AdministrativeTransitionResult
unfolding assert_state
reset_for_config_change s changed_at next_config_version = do
  assert_state s
  throw_if (is_invalid changed_at) invalid_date
  throw_if (not (is_safe_integer next_config_version) || leb next_config_version s.config_version)
      next_config_version_range
  ok (record {
    state = record (cleared s) { config_version = next_config_version };
    incident_effect =
        if in_incident s.health_state
        then cancel_incident changed_at IncidentClosureReason.config_changed
        else no_effect;
  })

unfoldable pub reset_default : MonitorState → Date → Result Error AdministrativeTransitionResult
unfolding reset_for_config_change
reset_default s changed_at = reset_for_config_change s changed_at (s.config_version + 1)
