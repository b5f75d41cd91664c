-- ===== src/Domain/StateMachine/Events.antt =====
-- The transitions of a monitor as one step over events, and a run over a list of them. A call that
-- throws is rolled back by its caller's transaction: the state stays and there is no effect.
use link_alive.Common.{ℕ, List, [], ◌∷◌, Result, ok, throw}
use link_alive.Domain.Types.{MonitorLifecycle, Date, Error}
use link_alive.Domain.StateMachine.{
  MonitorState, CheckTransitionInput, IncidentEffect, no_effect, StateTransitionResult,
  AdministrativeTransitionResult, apply_check_result, transition_lifecycle, reset_for_config_change,
}

pub data MonitorEvent : Type 0 where
  check_result : CheckTransitionInput → MonitorEvent
  lifecycle_change : MonitorLifecycle → Date → MonitorEvent
  config_change : Date → ℕ → MonitorEvent

abbrev pub checked :
    MonitorState → Result Error StateTransitionResult → MonitorState × IncidentEffect
checked s (ok r) = (r.state, r.incident_effect)
checked s (throw e) = (s, no_effect)

abbrev pub administered :
    MonitorState → Result Error AdministrativeTransitionResult → MonitorState × IncidentEffect
administered s (ok r) = (r.state, r.incident_effect)
administered s (throw e) = (s, no_effect)

unfoldable pub step : MonitorState → MonitorEvent → MonitorState × IncidentEffect
unfolding apply_check_result transition_lifecycle reset_for_config_change
step s (check_result i) = checked s (apply_check_result s i)
step s (lifecycle_change l d) = administered s (transition_lifecycle s l d)
step s (config_change d v) = administered s (reset_for_config_change s d v)

-- The state after all events, and the effects in order.
unfoldable pub final : MonitorState → List MonitorEvent → MonitorState
final s [] = s
final s (e ∷ es) = final (step s e).0 es

unfoldable pub effects : MonitorState → List MonitorEvent → List IncidentEffect
effects s [] = []
effects s (e ∷ es) = (step s e).1 ∷ effects (step s e).0 es
