-- ===== src/Worker/CheckProcessor/Redelivery.antt =====
-- apps/worker/src/check-processor.ts: a check whose job the queue delivers again.
use link_alive.Common.{ℕ, ◌≡◌, Bool, true, false, not, Option, none, some}
use link_alive.Monitoring.Types.{MonitorCheckResult}
use link_alive.Database.Checks.{ScheduledCheck, is_null}
use link_alive.Worker.CheckProcessor.World.{World}
use link_alive.Worker.CheckProcessor.Commit.{ProcessStatus, completed, duplicate, canceled}
use link_alive.Worker.CheckProcessor.Persist.{IsCoherent, Committed}
use link_alive.Worker.CheckProcessor.Process.{Worker, run_assessed}

-- The row of the check is there, with a result.
abbrev pub has_result : Option ScheduledCheck → Bool
has_result none = false
has_result (some c) = not (is_null c.result)

-- A commit that does not say duplicate has left a result.
abbrev Leaves : ProcessStatus → World → Type 0
Leaves duplicate u = Unit {0}
Leaves completed u = has_result u.check ≡ true
Leaves canceled u = has_result u.check ≡ true

module _ (worker : Worker) (version : ℕ) where
  open worker use {others, decrypt, columns}

  abbrev pub result_of : MonitorCheckResult
  result_of = (run_assessed worker version (decrypt (columns.request_url_encrypted))).result

  -- What a run of a job leaves.
  abbrev Processed : ProcessStatus → World → Type 0
  Processed duplicate u = IsCoherent u
  Processed canceled u = IsCoherent u
  Processed completed u =
      IsCoherent u × (has_result u.check ≡ true) × (v : World) × Committed completed result_of v u

  -- Other workers keep the health of the monitor and its incidents together.
  abbrev pub KeepsCoherent : Type 0
  KeepsCoherent = (is_claimed : Bool) (v : World) → IsCoherent v → IsCoherent (others is_claimed v)
