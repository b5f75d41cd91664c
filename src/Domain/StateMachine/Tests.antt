-- ===== src/Domain/StateMachine/Tests.antt =====
-- A monitor with failure threshold 3 and recovery threshold 2, through an outage.
use link_alive.Common.{
  ℕ, ◌≡◌, refl, ◌≢◌, true, false, Option, none, some, [], ◌∷◌, map, arith, ◌↔◌, ok,
}
use link_alive.Domain.Types.{
  MonitorLifecycle, MonitorHealth, CheckSource, CheckOutcome, CheckErrorType, at, invalid,
}
use link_alive.Domain.StateMachine.{
  MonitorState, CheckTransitionInput, no_effect, open_incident, resolve_incident, in_incident,
  decide_result, apply_check_result, assert_transition_input,
}
use link_alive.Domain.StateMachine.Events.{
  check_result, lifecycle_change, config_change, step, final, effects,
}
use link_alive.Domain.StateMachine.Invariant.{IsWellFormed, final-IsWellFormed}
use link_alive.Domain.StateMachine.Applies.{
  Counts, IsSafeState, IsSafeInput, apply_check_result-ok_iff, applied_iff, ignored_unchanged,
}
use link_alive.Domain.StateMachine.Ledger.{post_all, effects-post_all}
use link_alive.Domain.StateMachine.Thresholds.{
  IsReady, IsScheduledResult, effects-opens_at_threshold, effects-resolves_at_threshold,
}
use link_alive.Domain.StateMachine.History.{IsQuiet, final-deleted, stale_never_applies}

abbrev fresh : MonitorState
fresh = record {
  lifecycle_status = MonitorLifecycle.active;
  health_state = MonitorHealth.pending;
  consecutive_failures = 0;
  consecutive_successes = 0;
  failure_streak_started_at = none;
  failure_streak_first_error_type = none;
  config_version = 1;
}

abbrev result : CheckOutcome → ℕ → Option CheckErrorType → CheckTransitionInput
result o t e = record {
  source = CheckSource.scheduled;
  outcome = o;
  config_version = 1;
  checked_at = at t;
  error_type = e;
  failure_threshold = 3;
  recovery_threshold = 2;
}

abbrev failure : ℕ → CheckTransitionInput
failure t = result CheckOutcome.target_failure t (some CheckErrorType.dns_error)

abbrev success : ℕ → CheckTransitionInput
success t = result CheckOutcome.success t none

abbrev broken : MonitorState
broken = record fresh {
  health_state = MonitorHealth.down;
  consecutive_failures = 3;
  failure_streak_started_at = some (at 10);
  failure_streak_first_error_type = some CheckErrorType.dns_error;
}

abbrev removed : MonitorState
removed = record fresh { lifecycle_status = MonitorLifecycle.deleted }

outage :
    effects fresh (map check_result (failure 10 ∷ failure 20 ∷ failure 30 ∷ []))
    ≡ no_effect
      ∷ no_effect
      ∷ open_incident
          (at 10)
          (at 30)
          (some CheckErrorType.dns_error)
          (some CheckErrorType.dns_error)
      ∷ []
unfolding effects step decide_result assert_transition_input
outage = refl

valid_date : (t : ℕ) → at t ≢ invalid
valid_date t = λ e. cc

fresh-IsWellFormed : IsWellFormed fresh
fresh-IsWellFormed = ground arith

final-IsWellFormed_example :
    IsWellFormed (final fresh (check_result (failure 10) ∷ config_change (at 20) 2 ∷ []))
final-IsWellFormed_example =
    final-IsWellFormed (check_result (failure 10) ∷ config_change (at 20) 2 ∷ []) fresh
      fresh-IsWellFormed

effects-post_all_example :
    post_all (some false) (effects fresh (map check_result (failure 10 ∷ failure 20 ∷ [])))
    ≡ some
        (in_incident (final fresh (map check_result (failure 10 ∷ failure 20 ∷ []))).health_state)
effects-post_all_example =
    effects-post_all (map check_result (failure 10 ∷ failure 20 ∷ [])) fresh fresh-IsWellFormed

fresh-IsReady : IsReady 1 fresh
fresh-IsReady = record { safe = omega arith; active = refl; version = refl }

broken-IsReady : IsReady 1 broken
broken-IsReady = record { safe = omega arith; active = refl; version = refl }

result-IsSafeInput :
    (o : CheckOutcome) (t : ℕ) (e : Option CheckErrorType) → IsSafeInput (result o t e)
result-IsSafeInput o t e = record {
  failure_pos = omega arith;
  failure_safe = omega arith;
  recovery_pos = omega arith;
  recovery_safe = omega arith;
  version_pos = omega arith;
  version_safe = omega arith;
  valid_date = valid_date t;
}

result-IsScheduledResult :
    (o : CheckOutcome) (t : ℕ) (e : Option CheckErrorType)
    → IsScheduledResult o 1 3 2 (result o t e)
result-IsScheduledResult o t e = record {
  safe = result-IsSafeInput o t e;
  scheduled = refl;
  outcome = refl;
  version = refl;
  failure_threshold = refl;
  recovery_threshold = refl;
}

effects-opens_at_threshold_example :
    effects fresh (map check_result (failure 10 ∷ failure 20 ∷ failure 30 ∷ []))
    ≡ no_effect
      ∷ no_effect
      ∷ open_incident
          (at 10)
          (at 30)
          (some CheckErrorType.dns_error)
          (some CheckErrorType.dns_error)
      ∷ []
effects-opens_at_threshold_example =
    effects-opens_at_threshold {v = 1} {n = 3} {m = 2} (failure 10) (failure 20 ∷ failure 30 ∷ [])
      fresh fresh-IsReady refl refl refl
      (
        result-IsScheduledResult _ _ _,
        (result-IsScheduledResult _ _ _, (result-IsScheduledResult _ _ _, tt)),
      )

effects-resolves_at_threshold_example :
    (effects broken (map check_result (success 40 ∷ success 50 ∷ []))
      ≡ no_effect ∷ resolve_incident (at 50) ∷ [])
    × ((final broken (map check_result (success 40 ∷ success 50 ∷ []))).health_state
        ≡ MonitorHealth.up)
effects-resolves_at_threshold_example =
    effects-resolves_at_threshold {v = 1} {n = 3} {m = 2} (success 40) (success 50 ∷ []) broken
      broken-IsReady refl refl refl
      (result-IsScheduledResult _ _ _, (result-IsScheduledResult _ _ _, tt))

final-deleted_example :
    ((final removed (check_result (failure 10) ∷ [])).lifecycle_status ≡ MonitorLifecycle.deleted)
    × ((final removed (check_result (failure 10) ∷ [])).health_state ≡ MonitorHealth.pending)
    × IsQuiet (effects removed (check_result (failure 10) ∷ []))
final-deleted_example = final-deleted (check_result (failure 10) ∷ []) removed (ground arith) refl

stale_never_applies_example :
    let now =
      final
        (step fresh (config_change (at 5) 2)).0
        (lifecycle_change MonitorLifecycle.paused (at 6) ∷ []) in
    step now (check_result (failure 10)) ≡ (now, no_effect)
unfolding step
stale_never_applies_example =
    stale_never_applies fresh (at 5) 2 (lifecycle_change MonitorLifecycle.paused (at 6) ∷ [])
      (failure 10) refl (omega arith)

apply_check_result-ok_iff_example :
    (apply_check_result fresh (failure 10) ≡ ok (decide_result fresh (failure 10)))
    ↔ (IsSafeState fresh × IsSafeInput (failure 10))
apply_check_result-ok_iff_example = apply_check_result-ok_iff fresh (failure 10)

ready : apply_check_result fresh (failure 10) ≡ ok (decide_result fresh (failure 10))
ready = (apply_check_result-ok_iff fresh (failure 10)).1 (omega arith, result-IsSafeInput _ _ _)

applied_iff_example :
    ((decide_result fresh (failure 10)).applied ≡ true) ↔ Counts fresh (failure 10)
applied_iff_example = applied_iff fresh (failure 10) (decide_result fresh (failure 10)) ready

ignored : apply_check_result removed (failure 10) ≡ ok (decide_result removed (failure 10))
ignored = (apply_check_result-ok_iff removed (failure 10)).1 (omega arith, result-IsSafeInput _ _ _)

ignored_unchanged_example :
    let r = decide_result removed (failure 10) in
    (r.state ≡ removed) × (r.incident_effect ≡ no_effect) × (r.ignored_reason ≢ none)
unfolding decide_result
ignored_unchanged_example =
    ignored_unchanged removed (failure 10) (decide_result removed (failure 10)) ignored refl
