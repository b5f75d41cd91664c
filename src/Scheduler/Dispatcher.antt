-- ===== src/Scheduler/Dispatcher.antt =====
-- apps/scheduler/src/check-dispatcher.ts and scheduler-service.ts: claimed checks are put in the
-- queue. The queue is BullMQ's, and enters as a record of what its calls do.
pub mod Claims
use link_alive.Common.{
  ℕ, ◌+◌, ◌≡◌, Bool, true, false, Option, none, some, List, [], ◌∷◌, Result, ok, throw, ◌>>=◌,
  length, if◌then◌else◌,
}
use link_alive.Database.Checks.{ScheduledCheck}
use link_alive.Domain.Types.{Error}
use link_alive.Scheduler.Store.{
  Tables, DueMonitorRow, ScheduledCheckSummary, claim_for_dispatch, mark_enqueued,
  release_dispatch_claim, create_due_checks,
}

pub data JobState : Type 0 where
  completed failed waiting_or_active : JobState

-- The calls of the queue; `get_job` is `getJob` with `getState`. The law is what BullMQ documents: a
-- job that has been added under an id that has no job is there, and has not ended.
pub record CheckQueue : Type 1 where
  pub Queue : Type 0
  pub QueueError : Type 0
  pub get_job : (id : ℕ) → Queue → Result QueueError (Option JobState)
  pub remove : (id : ℕ) → Queue → Result QueueError (Unit {0}) × Queue
  pub add : (id config_version : ℕ) → Queue → Result QueueError (Unit {0}) × Queue
  pub add_waits :
      (id config_version : ℕ) (q : Queue) (u : Unit {0}) (r : Queue)
      → add id config_version q ≡ (ok u, r)
      → get_job id r ≡ ok (some waiting_or_active)

module _ (queue : CheckQueue) (owner lease_ms : ℕ) (safe_reason : List ℕ) where
  open queue use {Queue, QueueError, get_job, remove, add}

  -- The rest behind `await existing.remove()`.
  unfoldable pub add_after :
      ScheduledCheckSummary
      → Result QueueError (Unit {0}) × Queue
      → Result QueueError (Unit {0}) × Queue
  add_after check (throw e, q) = (throw e, q)
  add_after check (ok u, q) = add check.id check.config_version q

  -- The branches on the job that is there.
  unfoldable pub ensure_found :
      ScheduledCheckSummary
      → Result QueueError (Option JobState)
      → Queue
      → Result QueueError (Unit {0}) × Queue
  unfolding add_after
  ensure_found check (throw e) q = (throw e, q)
  ensure_found check (ok none) q = add check.id check.config_version q
  ensure_found check (ok (some waiting_or_active)) q = (ok tt, q)
  ensure_found check (ok (some ended)) q = add_after check (remove check.id q)

  unfoldable pub ensure_queue_job :
      ScheduledCheckSummary → Queue → Result QueueError (Unit {0}) × Queue
  unfolding ensure_found
  ensure_queue_job check q = ensure_found check (get_job check.id q) q

  -- What follows the queue's answer for a claimed check: it is marked, or its claim is released.
  unfoldable pub settle_claim :
      ℕ
      → ScheduledCheckSummary
      → Result QueueError (Unit {0}) × Queue
      → List ScheduledCheck
      → ℕ × Queue × List ScheduledCheck
  settle_claim now check (ok u, q) checks =
      (1, q, mark_enqueued check.id owner now (now + lease_ms) checks)
  settle_claim now check (throw e, q) checks =
      (0, q, release_dispatch_claim check.id owner safe_reason checks)

  -- The body of the loop, behind the answer of `claimForDispatch`.
  unfoldable pub dispatch_claimed :
      ℕ
      → ScheduledCheckSummary
      → Queue
      → Bool × List ScheduledCheck
      → ℕ × Queue × List ScheduledCheck
  unfolding settle_claim ensure_queue_job
  dispatch_claimed now check q (false, checks) = (0, q, checks)
  dispatch_claimed now check q (true, checks) =
      settle_claim now check (ensure_queue_job check q) checks

  unfoldable pub dispatch_one :
      ℕ → ScheduledCheckSummary → Queue → List ScheduledCheck → ℕ × Queue × List ScheduledCheck
  unfolding dispatch_claimed
  dispatch_one now check q checks =
      dispatch_claimed now check q (claim_for_dispatch check.id owner now (now + lease_ms) checks)

  -- `dispatch`, behind the answer of `findDispatchCandidates`.
  unfoldable pub dispatch :
      ℕ → List ScheduledCheckSummary → Queue → List ScheduledCheck → ℕ × Queue × List ScheduledCheck
  unfolding dispatch_one
  dispatch now [] q checks = (0, q, checks)
  dispatch now (check ∷ candidates) q checks =
      let (dispatched, q, checks) = dispatch_one now check q checks in
      let (more, q, checks) = dispatch now candidates q checks in (dispatched + more, q, checks)

  -- `runOnce`: `find_candidates` is the answer of `findDispatchCandidates` on the rows it sees. It
  -- returns the counts of created and of dispatched checks.
  unfoldable pub run_once :
      ℕ
      → List DueMonitorRow
      → (List ScheduledCheck → List ScheduledCheckSummary)
      → Queue
      → Tables
      → Result Error (ℕ × ℕ × Queue × Tables)
  unfolding dispatch
  run_once now due find_candidates q t = do
    result ← create_due_checks now due t
    let u = result.1
    let (dispatched, r, checks) = dispatch now (find_candidates u.checks) q u.checks
    ok (length result.0, dispatched, r, record u { checks = checks })
