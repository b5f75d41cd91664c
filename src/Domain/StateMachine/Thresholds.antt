-- ===== src/Domain/StateMachine/Thresholds.antt =====
-- An incident opens at the failure threshold and is resolved at the recovery threshold.
use link_alive.Common.{
  ℕ, suc, ◌+◌, ◌≤◌, ◌≡◌, true, false, List, [], ◌∷◌, ◌++◌, map, arith, length, replicate, All, ltb,
  if◌then◌else◌, ap, ◌∙◌,
}
use link_alive.Domain.Types.{
  MonitorLifecycle, MonitorHealth, CheckSource, CheckOutcome, max_safe_integer,
}
use link_alive.Domain.StateMachine.{
  MonitorState, CheckTransitionInput, IncidentEffect, no_effect, open_incident, resolve_incident,
  in_incident, streak_start, decide_result, on_failure, on_success,
}
use link_alive.Domain.StateMachine.Events.{check_result, checked, step, final, effects}
use link_alive.Domain.StateMachine.Applies.{IsSafeState, IsSafeInput, apply_check_result-ok_iff}

-- A scheduled result under configuration `v`, with thresholds `n` and `m`.
pub record IsScheduledResult (o : CheckOutcome) (v n m : ℕ) (i : CheckTransitionInput)
    : Type 0 where
  pub safe : IsSafeInput i
  pub scheduled : i.source ≡ CheckSource.scheduled
  pub outcome : i.outcome ≡ o
  pub version : i.config_version ≡ v
  pub failure_threshold : i.failure_threshold ≡ n
  pub recovery_threshold : i.recovery_threshold ≡ m

-- An active monitor whose state the assertions accept.
pub record IsReady (v : ℕ) (s : MonitorState) : Type 0 where
  pub safe : IsSafeState s
  pub active : s.lifecycle_status ≡ MonitorLifecycle.active
  pub version : s.config_version ≡ v

-- The last result of a list that is not empty.
abbrev pub last : CheckTransitionInput → List CheckTransitionInput → CheckTransitionInput
last i [] = i
last i (j ∷ js) = last j js

decide-failure :
    (s : MonitorState) (i : CheckTransitionInput) {v n m : ℕ}
    → IsReady v s
    → IsScheduledResult CheckOutcome.target_failure v n m i
    → ((decide_result s i).state ≡ (on_failure s i).0)
      × ((decide_result s i).incident_effect ≡ (on_failure s i).1)
unfolding decide_result
decide-failure s i r f = ground arith

decide-success :
    (s : MonitorState) (i : CheckTransitionInput) {v n m : ℕ}
    → IsReady v s
    → IsScheduledResult CheckOutcome.success v n m i
    → ((decide_result s i).state ≡ (on_success s i).0)
      × ((decide_result s i).incident_effect ≡ (on_success s i).1)
unfolding decide_result
decide-success s i r f = ground arith

step-check :
    (s : MonitorState) (i : CheckTransitionInput)
    → IsSafeState s
    → IsSafeInput i
    → step s (check_result i) ≡ ((decide_result s i).state, (decide_result s i).incident_effect)
step-check s i a b = unfold step in ap (checked s) ((apply_check_result-ok_iff s i).1 (a, b))

-- The effects of failing results `i ∷ rest` that reach the threshold with the last of them.
abbrev opening :
    MonitorState → CheckTransitionInput → List CheckTransitionInput → List IncidentEffect
opening s i rest =
    replicate (length rest) no_effect
    ++ open_incident (streak_start s.consecutive_failures s.failure_streak_started_at i.checked_at)
        (last i rest).checked_at
        (if ltb 0 s.consecutive_failures then s.failure_streak_first_error_type else i.error_type)
        (last i rest).error_type
      ∷ []

-- A failing result below the threshold.
module _ {v n m : ℕ} (s : MonitorState) (i : CheckTransitionInput) (r : IsReady v s)
    (f : IsScheduledResult CheckOutcome.target_failure v n m i)
    (calm : in_incident s.health_state ≡ false) where
  failing-step : step s (check_result i) ≡ on_failure s i
  failing-step =
      let (a, b) = decide-failure s i r f in step-check s i r.safe f.safe ∙ (λ k. (a k, b k))

  on_failure-below :
      suc s.consecutive_failures + 1 ≤ n
      → ((on_failure s i).1 ≡ no_effect)
        × IsReady v (on_failure s i).0
        × (in_incident (on_failure s i).0.health_state ≡ false)
        × ((on_failure s i).0.consecutive_failures ≡ suc s.consecutive_failures)
  unfolding on_failure
  on_failure-below below = ground (arith, r.safe, f.safe)

  on_failure-opens : n ≡ suc s.consecutive_failures → (on_failure s i).1 ∷ [] ≡ opening s i []
  unfolding on_failure
  on_failure-opens e = ground (arith, f.failure_threshold)

opening-step :
    (s : MonitorState) (i j : CheckTransitionInput) (js : List CheckTransitionInput)
    → no_effect ∷ opening (on_failure s i).0 j js ≡ opening s i (j ∷ js)
unfolding on_failure
opening-step s i j js = ground arith

effects-opening :
    {v n m : ℕ} (rest : List CheckTransitionInput) (i : CheckTransitionInput) (s : MonitorState)
    → IsReady v s
    → in_incident s.health_state ≡ false
    → n ≡ s.consecutive_failures + suc (length rest)
    → All (IsScheduledResult CheckOutcome.target_failure v n m) (i ∷ rest)
    → effects s (map check_result (i ∷ rest)) ≡ opening s i rest
unfolding effects
effects-opening [] i s r calm e (f, fs) =
    rw (failing-step s i r f calm) (on_failure-opens s i r f calm (omega arith))
effects-opening {v} (j ∷ js) i s r calm e (f, fs) =
    let (same, ready, calm', count) = on_failure-below s i r f calm (omega arith) in
    rw (failing-step s i r f calm, same)
      (ap (λ t. no_effect ∷ t)
          (effects-opening js j (on_failure s i).0 ready calm' (omega arith) fs)
        ∙ opening-step s i j js)

-- Of a ready monitor with no failures and no incident, a run of scheduled target failures as long
-- as the failure threshold opens an incident with its last result, and no earlier: the incident
-- carries the time and the error of the first failure and those of the last.
pub effects-opens_at_threshold :
    {v n m : ℕ} (i : CheckTransitionInput) (rest : List CheckTransitionInput) (s : MonitorState)
    → IsReady v s
    → in_incident s.health_state ≡ false
    → s.consecutive_failures ≡ 0
    → n ≡ suc (length rest)
    → All (IsScheduledResult CheckOutcome.target_failure v n m) (i ∷ rest)
    → effects s (map check_result (i ∷ rest))
      ≡ replicate (length rest) no_effect
        ++ open_incident i.checked_at (last i rest).checked_at i.error_type (last i rest).error_type
          ∷ []
effects-opens_at_threshold i rest s r calm zero_failures e fs =
    effects-opening rest i s r calm (omega arith) fs ∙ ground arith

-- The same for recovery. A success of a monitor in an incident, below the threshold or at it.
module _ {v n m : ℕ} (s : MonitorState) (i : CheckTransitionInput) (r : IsReady v s)
    (f : IsScheduledResult CheckOutcome.success v n m i)
    (troubled : in_incident s.health_state ≡ true) where
  success-step : step s (check_result i) ≡ on_success s i
  success-step =
      let (a, b) = decide-success s i r f in step-check s i r.safe f.safe ∙ (λ k. (a k, b k))

  on_success-below :
      suc s.consecutive_successes + 1 ≤ m
      → m ≤ max_safe_integer
      → ((on_success s i).1 ≡ no_effect)
        × IsReady v (on_success s i).0
        × (in_incident (on_success s i).0.health_state ≡ true)
        × ((on_success s i).0.consecutive_successes ≡ suc s.consecutive_successes)
  unfolding on_success
  on_success-below below safe = ground (arith, r.safe, f.safe, f.recovery_threshold)

  on_success-resolves :
      m ≡ suc s.consecutive_successes
      → ((on_success s i).1 ≡ resolve_incident i.checked_at)
        × ((on_success s i).0.health_state ≡ MonitorHealth.up)
  unfolding on_success
  on_success-resolves e = ground (arith, f.recovery_threshold)

resolving :
    {v n m : ℕ} (rest : List CheckTransitionInput) (i : CheckTransitionInput) (s : MonitorState)
    → IsReady v s
    → in_incident s.health_state ≡ true
    → m ≡ s.consecutive_successes + suc (length rest)
    → All (IsScheduledResult CheckOutcome.success v n m) (i ∷ rest)
    → (effects s (map check_result (i ∷ rest))
        ≡ replicate (length rest) no_effect ++ resolve_incident (last i rest).checked_at ∷ [])
      × ((final s (map check_result (i ∷ rest))).health_state ≡ MonitorHealth.up)
unfolding effects final
resolving [] i s r troubled e (f, fs) =
    let (same, health) = on_success-resolves s i r f troubled (omega arith) in
    (rw (success-step s i r f troubled, same), rw (success-step s i r f troubled, final) health)
resolving (j ∷ js) i s r troubled e (f, fs) =
    let bound : suc s.consecutive_successes + suc (length js) ≤ max_safe_integer =
      omega (arith, f.safe.recovery_safe, f.recovery_threshold) in
    let (same, ready, troubled', count) =
      on_success-below s i r f troubled (omega arith) (omega arith) in
    let (later, health) = resolving js j (on_success s i).0 ready troubled' (omega arith) fs in
    (
      rw (success-step s i r f troubled, same) (ap (λ t. no_effect ∷ t) later),
      rw (success-step s i r f troubled, final) health,
    )

-- Of a ready monitor that is DOWN with no successes, a run of scheduled successes as long as the
-- recovery threshold resolves the incident with its last result, and no earlier, and the monitor
-- is then UP.
pub effects-resolves_at_threshold :
    {v n m : ℕ} (i : CheckTransitionInput) (rest : List CheckTransitionInput) (s : MonitorState)
    → IsReady v s
    → s.health_state ≡ MonitorHealth.down
    → s.consecutive_successes ≡ 0
    → m ≡ suc (length rest)
    → All (IsScheduledResult CheckOutcome.success v n m) (i ∷ rest)
    → (effects s (map check_result (i ∷ rest))
        ≡ replicate (length rest) no_effect ++ resolve_incident (last i rest).checked_at ∷ [])
      × ((final s (map check_result (i ∷ rest))).health_state ≡ MonitorHealth.up)
effects-resolves_at_threshold i rest s r d z e fs = resolving rest i s r (rw d) (omega arith) fs
