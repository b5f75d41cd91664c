-- ===== src/Ledger.antt =====
-- The ledger of scheduled checks, which the scheduler of apps/scheduler/src and the check processor
-- of apps/worker/src share: each statement and each transaction is one step on the tables, and any
-- number of schedulers and workers take steps in any order.
pub mod Rows
pub mod Consistency
pub mod History
pub mod Leases
pub mod Exclusion
mod Tests
use link_alive.Common.{ℕ, ◌≡◌, ◌≢◌, Bool, false, true, ◌&&◌, ◌==◌, ok, List, [], ◌∷◌, All}
use link_alive.Database.Checks.{ScheduledCheck, is_null}
use link_alive.Monitoring.Types.{MonitorCheckResult}
use link_alive.Scheduler.Store.{
  Tables, DueMonitorRow, ScheduledCheckSummary, has_open_check, create_due_checks,
  claim_for_dispatch, mark_enqueued, release_dispatch_claim,
}
use link_alive.Worker.CheckProcessor.Claims.{
  is_canceled, claim_for_run, cancel_stale, complete_check,
}

-- An answer of the SELECT in `createDueChecks`, so far as the ledger depends on it: no monitor twice,
-- and none with an open check. FOR UPDATE keeps it so until the transaction ends.
abbrev pub IsAnswer : Tables → List DueMonitorRow → Type 0
IsAnswer t [] = Unit {0}
IsAnswer t (m ∷ due) =
    (has_open_check t.checks m.id ≡ false) × All (λ d. d.id ≢ m.id) due × IsAnswer t due

-- What a commit has read of the row of its check, without a lock on it: that it was canceled stays so
-- until the check has a result, but a check that was open may have been canceled since.
abbrev pub WasRead : (was_canceled : Bool) → ℕ → List ScheduledCheck → Type 0
WasRead was_canceled id checks =
    All
      (λ c.
        (c.id == id && is_null c.result) ≡ true → was_canceled ≡ true → is_canceled c.status ≡ true)
      checks

pub data Step (t : Tables) : Tables → Type 0 where
  created :
      (now : ℕ) (due : List DueMonitorRow) (summaries : List ScheduledCheckSummary) (u : Tables)
      → IsAnswer t due
      → create_due_checks now due t ≡ ok (summaries, u)
      → Step t u
  claimed :
      (id owner now lease_until : ℕ)
      → Step t (record t { checks = (claim_for_dispatch id owner now lease_until t.checks).1 })
  enqueued :
      (id owner now lease_until : ℕ)
      → Step t (record t { checks = mark_enqueued id owner now lease_until t.checks })
  released :
      (id owner : ℕ) (reason : List ℕ)
      → Step t (record t { checks = release_dispatch_claim id owner reason t.checks })
  started :
      (id instance_id now lease_until : ℕ)
      → Step t (record t { checks = (claim_for_run id instance_id now lease_until t.checks).1 })
  canceled :
      (reason : List ℕ) (id now : ℕ)
      → Step t (record t { checks = cancel_stale reason id now t.checks })
  completed :
      (was_canceled : Bool) (result : MonitorCheckResult) (id finished_at : ℕ)
      → WasRead was_canceled id t.checks
      → Step t (record t { checks = complete_check was_canceled result id finished_at t.checks })

-- Any number of steps.
pub data Reaches (t : Tables) : Tables → Type 0 where
  no_step : Reaches t t
  next_step : (u v : Tables) → Reaches t u → Step u v → Reaches t v
