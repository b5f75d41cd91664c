-- ===== src/Domain/StateMachine/History.antt =====
-- What no later event undoes: the deletion of a monitor, and the retirement of a configuration.
use link_alive.Common.{ℕ, ◌≤◌, ◌<◌, ◌≡◌, ◌≢◌, List, [], ◌∷◌, arith}
use link_alive.Domain.Types.{MonitorLifecycle, MonitorHealth, Date}
use link_alive.Domain.StateMachine.{
  MonitorState, CheckTransitionInput, IncidentEffect, no_effect, decide_result, apply_check_result,
  transition_lifecycle, reset_for_config_change,
}
use link_alive.Domain.StateMachine.Events.{
  MonitorEvent, check_result, lifecycle_change, config_change, step, final, effects,
}
use link_alive.Domain.StateMachine.Invariant.{IsWellFormed, step-IsWellFormed}

abbrev pub IsQuiet : List IncidentEffect → Type 0
IsQuiet [] = Unit
IsQuiet (e ∷ es) = (e ≡ no_effect) × IsQuiet es

step-deleted :
    (e : MonitorEvent) (s : MonitorState)
    → IsWellFormed s
    → s.lifecycle_status ≡ MonitorLifecycle.deleted
    → ((step s e).0.lifecycle_status ≡ MonitorLifecycle.deleted) × ((step s e).1 ≡ no_effect)
step-deleted (check_result i) s w d = unfold step apply_check_result decide_result in ground arith
step-deleted (lifecycle_change l t) s w d = unfold step transition_lifecycle in ground arith
step-deleted (config_change t v) s w d = unfold step reset_for_config_change in ground arith

-- Deletion is final: whatever events follow, a deleted monitor stays deleted and PENDING, and no
-- incident is opened, updated or closed for it.
pub final-deleted :
    (es : List MonitorEvent) (s : MonitorState)
    → IsWellFormed s
    → s.lifecycle_status ≡ MonitorLifecycle.deleted
    → ((final s es).lifecycle_status ≡ MonitorLifecycle.deleted)
      × ((final s es).health_state ≡ MonitorHealth.pending)
      × IsQuiet (effects s es)
unfolding final effects
final-deleted [] s w d = (d, w.inactive_pending (rw d), tt)
final-deleted (e ∷ es) s w d =
    let (d', quiet) = step-deleted e s w d in
    let (kept, pending, later) = final-deleted es (step s e).0 (step-IsWellFormed e s w) d' in
    (kept, pending, (quiet, later))

step-version :
    (e : MonitorEvent) (s : MonitorState) → s.config_version ≤ (step s e).0.config_version
step-version (check_result i) s = unfold step apply_check_result decide_result in ground arith
step-version (lifecycle_change l t) s = unfold step transition_lifecycle in ground arith
step-version (config_change t v) s = unfold step reset_for_config_change in ground arith

version-final :
    (es : List MonitorEvent) (s : MonitorState) → s.config_version ≤ (final s es).config_version
unfolding final
version-final [] s = omega arith
version-final (e ∷ es) s = omega (arith, step-version e s, version-final es (step s e).0)

decide_result-stale :
    (s : MonitorState) (i : CheckTransitionInput)
    → i.config_version < s.config_version
    → step s (check_result i) ≡ (s, no_effect)
decide_result-stale s i h = unfold step apply_check_result decide_result in ground arith

-- Once a configuration change has been accepted, a check result of the configuration before it
-- never changes the monitor or its incidents again, whatever has happened in between.
pub stale_never_applies :
    (s : MonitorState) (changed_at : Date) (v : ℕ) (es : List MonitorEvent)
    (i : CheckTransitionInput)
    → i.config_version ≡ s.config_version
    → (step s (config_change changed_at v)).0.config_version ≢ s.config_version
    → let now = final (step s (config_change changed_at v)).0 es in
      step now (check_result i) ≡ (now, no_effect)
stale_never_applies s changed_at v es i old changed =
    let grown = step-version (config_change changed_at v) s in
    let later = version-final es (step s (config_change changed_at v)).0 in
    decide_result-stale (final (step s (config_change changed_at v)).0 es) i (omega arith)
