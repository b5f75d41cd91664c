-- ===== src/Domain/StateMachine/Ledger.antt =====
-- The incident effects against a ledger of one monitor's incidents: at most one is open.
use link_alive.Common.{◌≡◌, refl, Bool, true, false, Option, none, some, List, [], ◌∷◌, arith}
use link_alive.Domain.StateMachine.{
  MonitorState, CheckTransitionInput, IncidentEffect, no_effect, open_incident, update_incident,
  resolve_incident, cancel_incident, in_incident, decide_result, apply_check_result,
  transition_lifecycle, reset_for_config_change,
}
use link_alive.Domain.StateMachine.Events.{
  MonitorEvent, check_result, lifecycle_change, config_change, step, final, effects,
}
use link_alive.Domain.StateMachine.Invariant.{IsWellFormed, step-IsWellFormed}

-- Whether an incident is open after an effect; `none` where the effect does not fit.
abbrev pub post : Bool → IncidentEffect → Option Bool
post opened no_effect = some opened
post false (open_incident a b c d) = some true
post true (update_incident e) = some true
post true (resolve_incident d) = some false
post true (cancel_incident d r) = some false
post _ _ = none

abbrev pub post_all : Option Bool → List IncidentEffect → Option Bool
post_all opened [] = opened
post_all none (e ∷ es) = none
post_all (some opened) (e ∷ es) = post_all (post opened e) es

pub decide_result-post :
    (s : MonitorState) (i : CheckTransitionInput)
    → post (in_incident s.health_state) (decide_result s i).incident_effect
      ≡ some (in_incident (decide_result s i).state.health_state)
unfolding decide_result
decide_result-post s i = ground arith

step-post :
    (e : MonitorEvent) (s : MonitorState)
    → IsWellFormed s
    → post (in_incident s.health_state) (step s e).1 ≡ some (in_incident (step s e).0.health_state)
step-post (check_result i) s w =
    unfold step apply_check_result in ground (arith, decide_result-post s i)
step-post (lifecycle_change l d) s w = unfold step transition_lifecycle in ground arith
step-post (config_change d v) s w = unfold step reset_for_config_change in ground arith

-- Over every sequence of events the incident effects fit the ledger: an incident is opened only
-- where none is open, and updated, resolved or canceled only where one is; and the ledger has an
-- open incident exactly when the final health state is DOWN or RECOVERING.
pub effects-post_all :
    (es : List MonitorEvent) (s : MonitorState)
    → IsWellFormed s
    → post_all (some (in_incident s.health_state)) (effects s es)
      ≡ some (in_incident (final s es).health_state)
unfolding effects final
effects-post_all [] s w = refl
effects-post_all (e ∷ es) s w =
    rw (step-post e s w, post_all) (effects-post_all es (step s e).0 (step-IsWellFormed e s w))
