-- ===== src/Worker/CheckProcessor/Claims.antt =====
-- apps/worker/src/check-processor.ts: the statements on the rows of scheduled checks.
use link_alive.Common.{
  ℕ, Bool, true, false, ◌&&◌, ◌||◌, none, some, List, ◌==◌, if◌then◌else◌, update_many, count,
}
use link_alive.Domain.Types.{ScheduledCheckStatus}
use link_alive.Monitoring.Types.{MonitorCheckResult}
use link_alive.Database.Checks.{ScheduledCheck, is_open, is_null, has_expired}

abbrev pub is_waiting : ScheduledCheckStatus → Bool
is_waiting ScheduledCheckStatus.pending = true
is_waiting ScheduledCheckStatus.enqueued = true
is_waiting _ = false

abbrev pub is_running : ScheduledCheckStatus → Bool
is_running ScheduledCheckStatus.running = true
is_running _ = false

abbrev pub is_canceled : ScheduledCheckStatus → Bool
is_canceled ScheduledCheckStatus.canceled = true
is_canceled _ = false

-- The WHERE of the claim in `process`, but for the id.
unfoldable pub is_startable : ℕ → ScheduledCheck → Bool
is_startable now c =
    is_null c.completed_at
    && (is_waiting c.status || is_running c.status && has_expired c.lease_until now)

abbrev pub start_row : (instance_id now lease_until : ℕ) → ScheduledCheck → ScheduledCheck
start_row instance_id now lease_until c = record c {
  status = ScheduledCheckStatus.running;
  lease_owner = some instance_id;
  lease_until = some lease_until;
  started_at = some now;
}

unfoldable pub claim_for_run :
    (id instance_id now lease_until : ℕ) → List ScheduledCheck → Bool × List ScheduledCheck
unfolding is_startable
claim_for_run id instance_id now lease_until checks =
    let test : ScheduledCheck → Bool = λ c. c.id == id && is_startable now c in
    (count test checks == 1, update_many test (start_row instance_id now lease_until) checks)

-- The reason is a text that the page of a check shows.
abbrev pub cancel_row : List ℕ → ℕ → ScheduledCheck → ScheduledCheck
cancel_row reason now c = record c {
  status = ScheduledCheckStatus.canceled;
  canceled_at = some now;
  lease_owner = none;
  lease_until = none;
  failure_reason_safe = some reason;
}

unfoldable pub cancel_stale : List ℕ → (id now : ℕ) → List ScheduledCheck → List ScheduledCheck
cancel_stale reason id now checks =
    update_many (λ c. c.id == id && is_open c.status) (cancel_row reason now) checks

-- What `persist` does to the row of the check: the result is created for it, and it is completed
-- unless it has been read as canceled.
abbrev pub finish_row :
    (was_canceled : Bool) → MonitorCheckResult → ℕ → ScheduledCheck → ScheduledCheck
finish_row was_canceled result finished_at c =
    if was_canceled then record c { result = some result } else record c {
      result = some result;
      status = ScheduledCheckStatus.completed;
      completed_at = some finished_at;
      lease_owner = none;
      lease_until = none;
      failure_reason_safe = none;
    }

abbrev pub complete_row : MonitorCheckResult → ℕ → ScheduledCheck → ScheduledCheck
complete_row result finished_at c = finish_row (is_canceled c.status) result finished_at c

-- The writes of `persist` to the rows of checks: the unique index on results lets one through for a
-- check, and the update follows what was read before, whatever the row has become since.
unfoldable pub complete_check :
    (was_canceled : Bool)
    → MonitorCheckResult
    → (id finished_at : ℕ) → List ScheduledCheck
    → List ScheduledCheck
complete_check was_canceled result id finished_at checks =
    update_many (λ c. c.id == id && is_null c.result) (finish_row was_canceled result finished_at)
      checks
