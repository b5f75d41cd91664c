-- ===== src/Ledger/Rows.antt =====
-- What every row of the ledger satisfies, and how a row goes on.
use link_alive.Common.{
  ℕ, ◌≡◌, refl, ◌∙◌, ◌==◌, Bool, true, false, not, ◌&&◌, Option, List, [], ◌∷◌, arith, ap,
  update_many, Bool-cases, inl, inr,
}
use link_alive.Domain.Types.{ScheduledCheckStatus}
use link_alive.Monitoring.Types.{MonitorCheckResult}
use link_alive.Database.Checks.{ScheduledCheck, is_open, is_null}
use link_alive.Scheduler.Store.{
  DueMonitorRow, new_check, is_claimable, claim_row, is_claimed_by, enqueue_row, release_row,
}
use link_alive.Worker.CheckProcessor.Claims.{
  is_canceled, is_startable, start_row, cancel_row, finish_row, complete_check,
}
use link_alive.Ledger.{WasRead}

abbrev pub is_completed : ScheduledCheckStatus → Bool
is_completed ScheduledCheckStatus.completed = true
is_completed _ = false

abbrev pub is_failed : ScheduledCheckStatus → Bool
is_failed ScheduledCheckStatus.failed = true
is_failed _ = false

-- A row has a time of completion exactly when it is completed; a canceled row has a time of
-- cancellation, and a row with one has ended; a completed row has its result, and a row with a result has ended; a row that has
-- ended holds no lease; and an owner goes with a time.
pub record IsSound (c : ScheduledCheck) : Type 0 where
  pub completed : is_null c.completed_at ≡ not (is_completed c.status)
  pub canceled : is_canceled c.status ≡ true → is_null c.canceled_at ≡ false
  pub canceled_ended : is_null c.canceled_at ≡ false → is_open c.status ≡ false
  pub completed_result : is_completed c.status ≡ true → is_null c.result ≡ false
  pub result_ended : is_null c.result ≡ false → is_open c.status ≡ false
  pub ended_free : is_open c.status ≡ false → is_null c.lease_owner ≡ true
  pub lease : is_null c.lease_owner ≡ is_null c.lease_until
  pub not_failed : is_failed c.status ≡ false

pub new_check-IsSound :
    (id : ℕ) (m : DueMonitorRow) (scheduled_at : ℕ) → IsSound (new_check id m scheduled_at)
unfolding new_check
new_check-IsSound id m scheduled_at = ground arith

claim_row-IsSound :
    (owner now lease_until : ℕ) (c : ScheduledCheck)
    → is_claimable now c ≡ true
    → IsSound c
    → IsSound (claim_row owner lease_until c)
unfolding is_claimable
claim_row-IsSound owner now lease_until c test w = ground arith

enqueue_row-IsSound :
    (owner now lease_until : ℕ) (c : ScheduledCheck)
    → is_claimed_by owner c ≡ true
    → IsSound c
    → IsSound (enqueue_row now lease_until c)
unfolding is_claimed_by
enqueue_row-IsSound owner now lease_until c test w = ground arith

release_row-IsSound :
    (owner : ℕ) (reason : List ℕ) (c : ScheduledCheck)
    → is_claimed_by owner c ≡ true
    → IsSound c
    → IsSound (release_row reason c)
unfolding is_claimed_by
release_row-IsSound owner reason c test w = ground arith

start_row-IsSound :
    (instance_id now lease_until : ℕ) (c : ScheduledCheck)
    → is_startable now c ≡ true
    → IsSound c
    → IsSound (start_row instance_id now lease_until c)
unfolding is_startable
start_row-IsSound instance_id now lease_until c test w = ground arith

cancel_row-IsSound :
    (reason : List ℕ) (now : ℕ) (c : ScheduledCheck)
    → is_open c.status ≡ true
    → IsSound c
    → IsSound (cancel_row reason now c)
cancel_row-IsSound reason now c test w = ground arith

finish_row-IsSound :
    (was_canceled : Bool) (result : MonitorCheckResult) (finished_at : ℕ) (c : ScheduledCheck)
    → is_null c.result ≡ true
    → (was_canceled ≡ true → is_canceled c.status ≡ true)
    → IsSound c
    → IsSound (finish_row was_canceled result finished_at c)
finish_row-IsSound true result finished_at c test read w = let still = read refl in ground arith
finish_row-IsSound false result finished_at c test read w = ground arith

-- What never changes again: the identity of a row, its result, that it has ended, when it was
-- canceled, and, once it has a result, how and when it ended.
pub record IsLater (c d : ScheduledCheck) : Type 0 where
  pub same_id : d.id ≡ c.id
  pub same_monitor : d.monitor_id ≡ c.monitor_id
  pub same_slot : d.scheduled_at ≡ c.scheduled_at
  pub same_version : d.config_version ≡ c.config_version
  pub same_result : is_null c.result ≡ false → d.result ≡ c.result
  pub same_status : is_null c.result ≡ false → d.status ≡ c.status
  pub same_completion : is_null c.result ≡ false → d.completed_at ≡ c.completed_at
  pub ended : is_open c.status ≡ false → is_open d.status ≡ false
  pub same_cancellation : is_open c.status ≡ false → d.canceled_at ≡ c.canceled_at

pub IsLater-refl : (c : ScheduledCheck) → IsLater c c
IsLater-refl c = ground arith

still_set : {A : Type 0} (o p : Option A) → p ≡ o → is_null o ≡ false → is_null p ≡ false
still_set o p same h = rw same h

pub IsLater-trans : (c d e : ScheduledCheck) → IsLater c d → IsLater d e → IsLater c e
IsLater-trans c d e h k = record {
  same_id = k.same_id ∙ h.same_id;
  same_monitor = k.same_monitor ∙ h.same_monitor;
  same_slot = k.same_slot ∙ h.same_slot;
  same_version = k.same_version ∙ h.same_version;
  same_result = λ set. k.same_result (still set) ∙ h.same_result set;
  same_status = λ set. k.same_status (still set) ∙ h.same_status set;
  same_completion = λ set. k.same_completion (still set) ∙ h.same_completion set;
  ended = λ end. k.ended (h.ended end);
  same_cancellation = λ end. k.same_cancellation (h.ended end) ∙ h.same_cancellation end;
}
  where
    still : is_null c.result ≡ false → is_null d.result ≡ false
    still set = still_set c.result d.result (h.same_result set) set

-- An update of the rows that pass `test` that keeps a row sound and only goes on with it.
abbrev pub Keeps : (ScheduledCheck → Bool) → (ScheduledCheck → ScheduledCheck) → Type 0
Keeps test set =
    (c : ScheduledCheck) → test c ≡ true → IsSound c → IsSound (set c) × IsLater c (set c)

pub and-right : (a b : Bool) → (a && b) ≡ true → b ≡ true
and-right a b h = ground arith

pub claim_row-Keeps :
    (id owner now lease_until : ℕ)
    → Keeps (λ c. c.id == id && is_claimable now c) (claim_row owner lease_until)
unfolding is_claimable
claim_row-Keeps id owner now lease_until c test w =
    (claim_row-IsSound owner now lease_until c (and-right (c.id == id) _ test) w, ground arith)

pub enqueue_row-Keeps :
    (id owner now lease_until : ℕ)
    → Keeps (λ c. c.id == id && is_claimed_by owner c) (enqueue_row now lease_until)
unfolding is_claimed_by
enqueue_row-Keeps id owner now lease_until c test w =
    (enqueue_row-IsSound owner now lease_until c (and-right (c.id == id) _ test) w, ground arith)

pub release_row-Keeps :
    (id owner : ℕ) (reason : List ℕ)
    → Keeps (λ c. c.id == id && is_claimed_by owner c) (release_row reason)
unfolding is_claimed_by
release_row-Keeps id owner reason c test w =
    (release_row-IsSound owner reason c (and-right (c.id == id) _ test) w, ground arith)

pub start_row-Keeps :
    (id instance_id now lease_until : ℕ)
    → Keeps (λ c. c.id == id && is_startable now c) (start_row instance_id now lease_until)
unfolding is_startable
start_row-Keeps id instance_id now lease_until c test w = (
  start_row-IsSound instance_id now lease_until c (and-right (c.id == id) _ test) w,
  ground arith,
)

pub cancel_row-Keeps :
    (reason : List ℕ) (id now : ℕ)
    → Keeps (λ c. c.id == id && is_open c.status) (cancel_row reason now)
cancel_row-Keeps reason id now c test w =
    (cancel_row-IsSound reason now c (and-right (c.id == id) _ test) w, ground arith)

finish_row-IsLater :
    (was_canceled : Bool) (result : MonitorCheckResult) (finished_at : ℕ) (c : ScheduledCheck)
    → is_null c.result ≡ true
    → (was_canceled ≡ true → is_canceled c.status ≡ true)
    → IsSound c
    → IsLater c (finish_row was_canceled result finished_at c)
finish_row-IsLater true result finished_at c test read w = let still = read refl in ground arith
finish_row-IsLater false result finished_at c test read w = ground arith

-- The update of a commit, by what it has read and what the row still is.
abbrev pub finish_read : Bool → MonitorCheckResult → ℕ → ScheduledCheck → ScheduledCheck
finish_read was_canceled result finished_at c =
    finish_row (was_canceled && is_canceled c.status) result finished_at c

pub finish_read-Keeps :
    (was_canceled : Bool) (result : MonitorCheckResult) (id finished_at : ℕ)
    → Keeps (λ c. c.id == id && is_null c.result) (finish_read was_canceled result finished_at)
finish_read-Keeps was_canceled result id finished_at c test w =
    let new = and-right (c.id == id) _ test in
    let still =
      λ (both : (was_canceled && is_canceled c.status) ≡ true). and-right was_canceled _ both in
    (
      finish_row-IsSound (was_canceled && is_canceled c.status) result finished_at c new still w,
      finish_row-IsLater (was_canceled && is_canceled c.status) result finished_at c new still w,
    )

both_read :
    (was_canceled is : Bool)
    → (was_canceled ≡ true → is ≡ true)
    → was_canceled ≡ (was_canceled && is)
both_read was_canceled is h = ground arith

-- A commit writes what it would by the rows as they are.
pub complete_check_read :
    (was_canceled : Bool) (result : MonitorCheckResult) (id finished_at : ℕ)
    (cs : List ScheduledCheck)
    → WasRead was_canceled id cs
    → complete_check was_canceled result id finished_at cs
      ≡ update_many
          (λ c. c.id == id && is_null c.result)
          (finish_read was_canceled result finished_at)
          cs
unfolding complete_check
complete_check_read was_canceled result id finished_at [] h = refl
complete_check_read was_canceled result id finished_at (c ∷ cs) (read, h) =
    let rest = complete_check_read was_canceled result id finished_at cs h in
    elim (Bool-cases (c.id == id && is_null c.result)) [
      | inl passes ↦
          let same = both_read was_canceled (is_canceled c.status) (read passes) in
          let later =
            update_many (λ d. d.id == id && is_null d.result)
              (finish_read was_canceled result finished_at) cs in
          rw (passes, rest) (ap (λ b. finish_row b result finished_at c ∷ later) same)
      | inr fails ↦ rw (fails, rest) refl
    ]
