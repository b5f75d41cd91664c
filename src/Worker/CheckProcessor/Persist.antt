-- ===== src/Worker/CheckProcessor/Persist.antt =====
-- The commit of a result counts it once, as the state machine says, and keeps the health of the
-- monitor and its incidents together.
use link_alive.Common.{
  ℕ, ◌≡◌, refl, sym, ap, ◌∙◌, Bool, true, false, not, Option, none, some, Result, ok, throw, ◌>>=◌,
  >>=-eq-ok, arith, if-eq, inl, inr,
}
use link_alive.Domain.Types.{Date, at, invalid, Error}
use link_alive.Domain.StateMachine.{
  MonitorState, CheckTransitionInput, in_incident, decide_result, apply_check_result,
}
use link_alive.Domain.StateMachine.Invariant.{IsWellFormed, decide_result-IsWellFormed}
use link_alive.Domain.StateMachine.Applies.{apply_check_result-decide, decide_result_ignored}
use link_alive.Domain.StateMachine.Ledger.{decide_result-post}
use link_alive.Monitoring.Types.{MonitorCheckResult}
use link_alive.Database.Checks.{ScheduledCheck, is_null}
use link_alive.Worker.CheckProcessor.World.{World, MonitorRow, CommitError, lift}
use link_alive.Worker.CheckProcessor.Commit.{
  ProcessStatus, completed, duplicate, canceled, monitor_update, note_network, observe,
  transition_input, apply_transition, apply_result, count_result, is_valid, finish, persist_result,
  persist_check, persist, apply_incident_effect,
}
use link_alive.Worker.CheckProcessor.Coherence.{IsLedger, is_cancel, apply_incident_effect-Fits}

-- The health state is well-formed, and one incident is open exactly if it is DOWN or RECOVERING.
pub record IsCoherent (w : World) : Type 0 where
  pub health : IsWellFormed w.monitor.state
  pub ledger : IsLedger (in_incident w.monitor.state.health_state) w

decide_result-kept :
    (s : MonitorState) (i : CheckTransitionInput)
    → ((decide_result s i).state.lifecycle_status ≡ s.lifecycle_status)
      × ((decide_result s i).state.config_version ≡ s.config_version)
      × (is_cancel (decide_result s i).incident_effect ≡ false)
unfolding decide_result
decide_result-kept s i = ground arith

monitor_update-state :
    (m : MonitorRow) (r : MonitorCheckResult) (i : CheckTransitionInput)
    → (monitor_update m r (decide_result m.state i)).state ≡ (decide_result m.state i).state
unfolding monitor_update
monitor_update-state m r i =
    let (lifecycle, version, real) = decide_result-kept m.state i in
    λ j. record ((decide_result m.state i).state) {
      lifecycle_status = sym lifecycle j;
      config_version = sym version j;
    }

IsCoherent-state :
    (s : MonitorState) (u : World)
    → u.monitor.state ≡ s
    → IsWellFormed s
    → IsLedger (in_incident s.health_state) u
    → IsCoherent u
IsCoherent-state s u same health ledger = record {
  health = rw same health;
  ledger = simp same ledger;
}

-- A commit that counts: the state of the monitor is what the state machine says.
abbrev Counts : MonitorCheckResult → ℕ → World → World → Type 0
Counts r version w u =
    IsCoherent u
    × (u.monitor.state
        ≡ (decide_result w.monitor.state (transition_input r version w.monitor)).state)
    × (u.check ≡ w.check)

ok_injective : (w u : World) → ◌≡◌ {A = Result CommitError World} (ok w) (ok u) → w ≡ u
ok_injective w u h = cc

Counts-ignored :
    (r : MonitorCheckResult) (version : ℕ) (w u : World)
    → (decide_result w.monitor.state (transition_input r version w.monitor)).state ≡ w.monitor.state
    → w ≡ u
    → IsCoherent w
    → Counts r version w u
Counts-ignored r version w u kept same c =
    (rw (← same) c, ap (λ x. x.monitor.state) (sym same) ∙ sym kept, ap World.check (sym same))

apply_transition-Counts :
    (r : MonitorCheckResult) (version : ℕ) (w u : World)
    → apply_transition r (decide_result w.monitor.state (transition_input r version w.monitor)) w
      ≡ ok u
    → IsCoherent w
    → Counts r version w u
unfolding apply_transition
apply_transition-Counts r version w u h c =
    let i = transition_input r version w.monitor in
    let t = decide_result w.monitor.state i in
    let v = record w { monitor = monitor_update w.monitor r t } in
    elim (if-eq t.applied (apply_incident_effect t.incident_effect v) (ok w) (ok u) h) [
      | inl (applied, changed) ↦
          let (ledger, monitor, check) =
            apply_incident_effect-Fits t.incident_effect (in_incident w.monitor.state.health_state)
              (in_incident t.state.health_state) v u (decide_result-post w.monitor.state i)
              (decide_result-kept w.monitor.state i).2 changed
              (record { one_open = c.ledger.one_open; ids = c.ledger.ids }) in
          let state = ap MonitorRow.state monitor ∙ monitor_update-state w.monitor r i in
          (
            IsCoherent-state t.state u state (decide_result-IsWellFormed w.monitor.state i c.health)
                ledger,
            state,
            check,
          )
      | inr (ignored, same) ↦
          Counts-ignored r version w u (decide_result_ignored w.monitor.state i ignored).0
            (ok_injective w u same) c
    ]

lift-ok : {A : Type 0} (x : Result Error A) (a : A) → lift x ≡ ok a → x ≡ ok a
lift-ok (throw e) a h = absurd cc
lift-ok (ok b) a h = cc

apply_result-Counts :
    (r : MonitorCheckResult) (version : ℕ) (w u : World)
    → apply_result r version w ≡ ok u
    → IsCoherent w
    → Counts r version w u
unfolding apply_result
apply_result-Counts r version w u h c =
    let i = transition_input r version w.monitor in
    let (t, applied, h1) = >>=-eq-ok (lift (apply_check_result w.monitor.state i)) _ h in
    let same = apply_check_result-decide w.monitor.state i t (lift-ok _ t applied) in
    apply_transition-Counts r version w u (rw (← same) h1) c

-- What the network guard notes is not about the health.
abbrev pub SameHealth : World → World → Type 0
SameHealth w v =
    (v.monitor.state ≡ w.monitor.state)
    × (v.monitor.failure_threshold ≡ w.monitor.failure_threshold)
    × (v.monitor.recovery_threshold ≡ w.monitor.recovery_threshold)
    × (v.incidents ≡ w.incidents)
    × (v.next_id ≡ w.next_id)
    × (v.check ≡ w.check)

IsCoherent-noted :
    (w v : World)
    → v.monitor.state ≡ w.monitor.state
    → v.incidents ≡ w.incidents
    → v.next_id ≡ w.next_id
    → IsCoherent w
    → IsCoherent v
IsCoherent-noted w v state incidents next c =
    IsCoherent-state w.monitor.state v state c.health (record {
      one_open = rw incidents c.ledger.one_open;
      ids = rw (incidents, next) c.ledger.ids;
    })

decided-same :
    (r : MonitorCheckResult) (version : ℕ) (w v : World)
    → v.monitor.state ≡ w.monitor.state
    → v.monitor.failure_threshold ≡ w.monitor.failure_threshold
    → v.monitor.recovery_threshold ≡ w.monitor.recovery_threshold
    → (decide_result v.monitor.state (transition_input r version v.monitor)).state
      ≡ (decide_result w.monitor.state (transition_input r version w.monitor)).state
decided-same r version w v state failures recoveries = rw (state, failures, recoveries) refl

observe-SameHealth : (o : Option ℕ) (version : ℕ) (w : World) → SameHealth w (observe o version w)
unfolding observe
observe-SameHealth o version w = ground arith

note_network-SameHealth :
    (g : Bool) (r : MonitorCheckResult) (o : Option ℕ) (version : ℕ) (w : World)
    → SameHealth w (note_network g r o version w)
unfolding note_network observe
note_network-SameHealth g r o version w = ground arith

count_result-Counts :
    (g : Bool) (r : MonitorCheckResult) (o : Option ℕ) (version : ℕ) (w u : World)
    → count_result g r o version w ≡ ok u
    → IsCoherent w
    → Counts r version w u
unfolding count_result
count_result-Counts g r o version w u h c =
    let v = note_network g r o version w in
    let (state, failures, recoveries, incidents, next, check) =
      note_network-SameHealth g r o version w in
    let (coherent, after, same) =
      apply_result-Counts r version v u h (IsCoherent-noted w v state incidents next c) in
    (coherent, after ∙ decided-same r version w v state failures recoveries, same ∙ check)

IsCoherent-finish :
    (r : MonitorCheckResult) (t : ℕ) (c : ScheduledCheck) (w : World)
    → IsCoherent w
    → IsCoherent (finish r t c w)
IsCoherent-finish r t c w k = record {
  health = k.health;
  ledger = record { one_open = k.ledger.one_open; ids = k.ledger.ids };
}

-- What each status says of the commit of `r`.
abbrev pub Committed : ProcessStatus → MonitorCheckResult → World → World → Type 0
Committed duplicate r w u = u ≡ w
Committed canceled r w u =
    (c : ScheduledCheck) × (w.check ≡ some c)
    × (is_valid c w.monitor ≡ false)
    × (u.monitor ≡ w.monitor)
    × (u.incidents ≡ w.incidents)
    × (u.outbox ≡ w.outbox)
Committed completed r w u =
    (c : ScheduledCheck) × (w.check ≡ some c)
    × (is_valid c w.monitor ≡ true)
    × (u.monitor.state
        ≡ (decide_result w.monitor.state (transition_input r c.config_version w.monitor)).state)

-- The row of the check is gone or has a result.
abbrev pub is_done : Option ScheduledCheck → Bool
is_done none = true
is_done (some c) = not (is_null c.result)

persist_check-done :
    (g : Bool) (r : MonitorCheckResult) (o : Option ℕ) (k : Option ScheduledCheck) (w : World)
    → is_done k ≡ true
    → persist_check g r o k w ≡ ok (duplicate, w)
unfolding persist_check
persist_check-done g r o none w h = refl
persist_check-done g r o (some c) w h = ground arith

finished-done :
    (r : MonitorCheckResult) (t : ℕ) (c : ScheduledCheck) (w : World)
    → is_done (finish r t c w).check ≡ true
finished-done r t c w = ground arith

abbrev pub Outcome : ProcessStatus → MonitorCheckResult → World → World → Type 0
Outcome s r w u = IsCoherent u × Committed s r w u × (is_done u.check ≡ true)

pub pair_injective :
    (s s' : ProcessStatus) (w u : World)
    → ◌≡◌ {A = Result CommitError (ProcessStatus × World)} (ok (s, w)) (ok (s', u))
    → (s ≡ s') × (w ≡ u)
pair_injective s s' w u h = (ap (λ x. x.0) inner, ap (λ x. x.1) inner)
  where
    inner : ◌≡◌ {A = ProcessStatus × World} (s, w) (s', u)
    inner = cc

persist_result-Outcome :
    (g : Bool) (r : MonitorCheckResult) (o : Option ℕ) (c : ScheduledCheck) (d : Date) (w u : World)
    (s : ProcessStatus)
    → w.check ≡ some c
    → persist_result g r o c d w ≡ ok (s, u)
    → IsCoherent w
    → Outcome s r w u
unfolding persist_result
persist_result-Outcome g r o c invalid w u s here h k = absurd cc
persist_result-Outcome g r o c (at t) w u s here h k =
    elim (if-eq (is_valid c w.monitor)
      (count_result g r o c.config_version w >>= λ v. ok (completed, finish r t c v))
      (ok (canceled, finish r t c w)) (ok (s, u)) h) [
        | inl (valid, counted) ↦
            let (v, did, same) = >>=-eq-ok (count_result g r o c.config_version w) _ counted in
            let (status, world) = pair_injective completed s (finish r t c v) u same in
            let (coherent, state, check) = count_result-Counts g r o c.config_version w v did k in
            rw (← status, ← world)
              (IsCoherent-finish r t c v coherent, (c, here, valid, state), finished-done r t c v)
        | inr (stale, same) ↦
            let (status, world) = pair_injective canceled s (finish r t c w) u same in
            rw (← status, ← world)
              (
                IsCoherent-finish r t c w k,
                (c, here, stale, refl, refl, refl),
                finished-done r t c w,
              )
      ]

persist_check-Outcome :
    (g : Bool) (r : MonitorCheckResult) (o : Option ℕ) (k : Option ScheduledCheck) (w u : World)
    (s : ProcessStatus)
    → w.check ≡ k
    → persist_check g r o k w ≡ ok (s, u)
    → IsCoherent w
    → Outcome s r w u
unfolding persist_check
persist_check-Outcome g r o none w u s here h c =
    let (status, world) = pair_injective duplicate s w u h in
    rw (← status, ← world) (c, refl, rw here refl)
persist_check-Outcome g r o (some k) w u s here h c =
    elim (if-eq (is_null k.result) (persist_result g r o k r.finished_at w) (ok (duplicate, w))
      (ok (s, u)) h) [
        | inl (new, committed) ↦ persist_result-Outcome g r o k r.finished_at w u s here committed c
        | inr (old, same) ↦
            let (status, world) = pair_injective duplicate s w u same in
            rw (← status, ← world) (c, refl, rw (here, old) refl)
      ]

-- A commit that returns keeps the health of the monitor well-formed, with one incident open exactly
-- if it is DOWN or RECOVERING. It says completed where the check was open, of the current
-- configuration and of an active monitor, and then the health is what the state machine says of this
-- result; it says canceled where not, and then the monitor, its incidents and the outbox are as
-- before; and it says duplicate where nothing has changed. Another commit for that check, of any
-- result, is a duplicate.
pub persist-Outcome :
    (g : Bool) (r : MonitorCheckResult) (o : Option ℕ) (w u : World) (s : ProcessStatus)
    → persist g r o w ≡ ok (s, u)
    → IsCoherent w
    → IsCoherent u
      × Committed s r w u
      × ((g' : Bool) (r' : MonitorCheckResult) (o' : Option ℕ)
          → persist g' r' o' u ≡ ok (duplicate, u))
unfolding persist
persist-Outcome g r o w u s h c =
    let (coherent, committed, done) = persist_check-Outcome g r o w.check w u s refl h c in
    (coherent, committed, λ g' r' o'. persist_check-done g' r' o' u.check u done)
