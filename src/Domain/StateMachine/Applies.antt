-- ===== src/Domain/StateMachine/Applies.antt =====
-- When a check result counts, when the transitions throw, and what they leave alone.
use link_alive.Common.{◌≤◌, ◌≡◌, ◌≢◌, ◌↔◌, ◌⊎◌, none, ok, arith, true, false, >>-eq-ok}
use link_alive.Domain.Types.{MonitorLifecycle, CheckOutcome, CheckSource, invalid, max_safe_integer}
use link_alive.Domain.StateMachine.{
  MonitorState, CheckTransitionInput, StateTransitionResult, no_effect, decide_result,
  apply_check_result, assert_state, assert_transition_input,
}

-- A result that the health of `s` depends on.
pub record Counts (s : MonitorState) (i : CheckTransitionInput) : Type 0 where
  pub active : s.lifecycle_status ≡ MonitorLifecycle.active
  pub scheduled : i.source ≡ CheckSource.scheduled
  pub current : i.config_version ≡ s.config_version
  pub about_target : (i.outcome ≡ CheckOutcome.success) ⊎ (i.outcome ≡ CheckOutcome.target_failure)

-- A state that the assertions accept.
pub record IsSafeState (s : MonitorState) : Type 0 where
  pub version_pos : 1 ≤ s.config_version
  pub version_safe : s.config_version ≤ max_safe_integer
  pub failures_safe : s.consecutive_failures ≤ max_safe_integer
  pub successes_safe : s.consecutive_successes ≤ max_safe_integer

-- An input that the assertions accept.
pub record IsSafeInput (i : CheckTransitionInput) : Type 0 where
  pub failure_pos : 1 ≤ i.failure_threshold
  pub failure_safe : i.failure_threshold ≤ max_safe_integer
  pub recovery_pos : 1 ≤ i.recovery_threshold
  pub recovery_safe : i.recovery_threshold ≤ max_safe_integer
  pub version_pos : 1 ≤ i.config_version
  pub version_safe : i.config_version ≤ max_safe_integer
  pub valid_date : i.checked_at ≢ invalid

pub assert_state_of_IsSafeState : (s : MonitorState) → IsSafeState s → assert_state s ≡ ok tt
unfolding assert_state
assert_state_of_IsSafeState s h = ground arith

pub assert_input_of_IsSafeInput :
    (i : CheckTransitionInput) → IsSafeInput i → assert_transition_input i ≡ ok tt
unfolding assert_transition_input
assert_input_of_IsSafeInput i h = ground arith

IsSafeState-assert : (s : MonitorState) {u : Unit {0}} → assert_state s ≡ ok u → IsSafeState s
unfolding assert_state
IsSafeState-assert s h = ground arith

IsSafeInput-assert :
    (i : CheckTransitionInput) {u : Unit {0}} → assert_transition_input i ≡ ok u → IsSafeInput i
unfolding assert_transition_input
IsSafeInput-assert i h = ground arith

-- `applyCheckResult` returns, and does not throw, exactly when the state and the input are within
-- their documented ranges; what it returns is then `decide_result`.
pub apply_check_result-ok_iff :
    (s : MonitorState) (i : CheckTransitionInput)
    → (apply_check_result s i ≡ ok (decide_result s i)) ↔ (IsSafeState s × IsSafeInput i)
unfolding apply_check_result
apply_check_result-ok_iff s i = (
  λ h.
      let (safe, rest) = >>-eq-ok (assert_state s) _ h in
      let (safe', same) = >>-eq-ok (assert_transition_input i) _ rest in
      (IsSafeState-assert s safe, IsSafeInput-assert i safe'),
  λ (a, b). rw (assert_state_of_IsSafeState s a, assert_input_of_IsSafeInput i b),
)

-- What `applyCheckResult` returns, if it returns.
pub apply_check_result-decide :
    (s : MonitorState) (i : CheckTransitionInput) (r : StateTransitionResult)
    → apply_check_result s i ≡ ok r
    → r ≡ decide_result s i
unfolding apply_check_result
apply_check_result-decide s i r h = ground arith

applied-Counts :
    (s : MonitorState) (i : CheckTransitionInput) → (decide_result s i).applied ≡ true → Counts s i
unfolding decide_result
applied-Counts s i h = ground arith

Counts-applied :
    (s : MonitorState) (i : CheckTransitionInput) → Counts s i → (decide_result s i).applied ≡ true
unfolding decide_result
Counts-applied s i c = ground arith

-- A result counts exactly when the monitor is active, the check was scheduled, it ran under the
-- current configuration, and its outcome is about the target.
pub applied_iff :
    (s : MonitorState) (i : CheckTransitionInput) (r : StateTransitionResult)
    → apply_check_result s i ≡ ok r
    → (r.applied ≡ true) ↔ Counts s i
applied_iff s i r h =
    rw (apply_check_result-decide s i r h) (applied-Counts s i, Counts-applied s i)

pub decide_result_ignored :
    (s : MonitorState) (i : CheckTransitionInput)
    → (decide_result s i).applied ≡ false
    → ((decide_result s i).state ≡ s)
      × ((decide_result s i).incident_effect ≡ no_effect)
      × ((decide_result s i).ignored_reason ≢ none)
unfolding decide_result
decide_result_ignored s i n = ground arith

-- A result that does not count changes neither the state nor an incident, and says why.
pub ignored_unchanged :
    (s : MonitorState) (i : CheckTransitionInput) (r : StateTransitionResult)
    → apply_check_result s i ≡ ok r
    → r.applied ≡ false
    → (r.state ≡ s) × (r.incident_effect ≡ no_effect) × (r.ignored_reason ≢ none)
ignored_unchanged s i r h n =
    let e = apply_check_result-decide s i r h in rw e (decide_result_ignored s i (rw e at n))

decide_result-health_changed_iff :
    (s : MonitorState) (i : CheckTransitionInput)
    → ((decide_result s i).health_changed ≡ false)
      ↔ ((decide_result s i).state.health_state ≡ s.health_state)
unfolding decide_result
decide_result-health_changed_iff s i = ground arith

-- Whatever the result, `healthChanged` says whether the health state differs.
pub health_changed_iff :
    (s : MonitorState) (i : CheckTransitionInput) (r : StateTransitionResult)
    → apply_check_result s i ≡ ok r
    → (r.health_changed ≡ false) ↔ (r.state.health_state ≡ s.health_state)
health_changed_iff s i r h =
    rw (apply_check_result-decide s i r h) (decide_result-health_changed_iff s i)
