-- ===== src/Domain/StateMachine/Invariant.antt =====
-- What holds of a monitor's state between two transitions.
use link_alive.Common.{ℕ, ◌<◌, ◌≡◌, Option, none, some, arith, true, false, List, [], ◌∷◌}
use link_alive.Domain.Types.{MonitorHealth, CheckOutcome, Date}
use link_alive.Domain.StateMachine.{
  MonitorState, CheckTransitionInput, is_active, decide_result, by_outcome, apply_check_result,
  transition_lifecycle, reset_for_config_change,
}
use link_alive.Domain.StateMachine.Events.{
  MonitorEvent, check_result, lifecycle_change, config_change, step, final,
}

-- The counters that each health state stands for.
abbrev pub Counts : MonitorHealth → ℕ → ℕ → Type 0
Counts MonitorHealth.pending f s = (f ≡ 0) × (s ≡ 0)
Counts MonitorHealth.up f s = (f ≡ 0) × (0 < s)
Counts MonitorHealth.suspect f s = (0 < f) × (s ≡ 0)
Counts MonitorHealth.down f s = (0 < f) × (s ≡ 0)
Counts MonitorHealth.recovering f s = (f ≡ 0) × (0 < s)

-- A streak has a start exactly while there are failures.
abbrev pub Streak : ℕ → Option Date → Type 0
Streak f none = f ≡ 0
Streak f (some d) = 0 < f

pub record IsWellFormed (s : MonitorState) : Type 0 where
  pub counts : Counts s.health_state s.consecutive_failures s.consecutive_successes
  pub streak : Streak s.consecutive_failures s.failure_streak_started_at
  pub inactive_pending :
      is_active s.lifecycle_status ≡ false → s.health_state ≡ MonitorHealth.pending

by_outcome-IsWellFormed :
    (o : CheckOutcome) (s : MonitorState) (i : CheckTransitionInput)
    → is_active s.lifecycle_status ≡ true
    → IsWellFormed s
    → IsWellFormed (by_outcome o s i).state
unfolding by_outcome
by_outcome-IsWellFormed CheckOutcome.success s i a w = ground arith
by_outcome-IsWellFormed _ s i a w = ground arith

pub decide_result-IsWellFormed :
    (s : MonitorState) (i : CheckTransitionInput)
    → IsWellFormed s
    → IsWellFormed (decide_result s i).state
unfolding decide_result
decide_result-IsWellFormed s i w = ground (arith, by_outcome-IsWellFormed i.outcome s i)

pub step-IsWellFormed :
    (e : MonitorEvent) (s : MonitorState) → IsWellFormed s → IsWellFormed (step s e).0
step-IsWellFormed (check_result i) s w =
    unfold step apply_check_result in ground (arith, decide_result-IsWellFormed s i)
step-IsWellFormed (lifecycle_change l d) s w = unfold step transition_lifecycle in ground arith
step-IsWellFormed (config_change d v) s w = unfold step reset_for_config_change in ground arith

-- A monitor that starts well-formed stays so under every sequence of check results, lifecycle
-- changes and configuration changes, also where some of them throw: each health state has its
-- counters, a failure streak has a start exactly while there are failures, and a monitor that is
-- not active is PENDING.
pub final-IsWellFormed :
    (es : List MonitorEvent) (s : MonitorState) → IsWellFormed s → IsWellFormed (final s es)
unfolding final
final-IsWellFormed [] s w = w
final-IsWellFormed (e ∷ es) s w = final-IsWellFormed es (step s e).0 (step-IsWellFormed e s w)
