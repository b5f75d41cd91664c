-- ===== src/Scheduler/Store.antt =====
-- apps/scheduler/src/store.ts: the statements on the tables of monitors and scheduled checks. A
-- transaction that throws leaves the tables as they were.
use link_alive.Common.{
  ℕ, ◌+◌, Bool, false, not, ◌&&◌, ◌||◌, Option, none, some, List, [], ◌∷◌, Result, ok, throw, ◌>>=◌,
  any, take, leb, if◌then◌else◌, ◌++◌, ◌==◌, update_many, count,
}
use link_alive.Domain.Types.{ScheduledCheckStatus, Date, at, Error}
use link_alive.Domain.Scheduling.{calculate_next_check_at, coalesce_due_scheduled_at}
use link_alive.Database.Checks.{
  ScheduledCheck, is_open, is_pending, is_handed_over, is_null, has_expired,
}

-- What the scheduler reads of a monitor's row.
pub record MonitorRow : Type 0 where
  pub id : ℕ
  pub active : Bool
  pub deleted_at : Option ℕ
  pub next_check_at : Option ℕ
  pub interval_sec : ℕ
  pub config_version : ℕ

pub record Tables : Type 0 where
  pub monitors : List MonitorRow
  pub checks : List ScheduledCheck
  pub next_id : ℕ

pub record ScheduledCheckSummary : Type 0 where
  pub id : ℕ
  pub config_version : ℕ

abbrev pub is_reached : Option ℕ → ℕ → Bool
is_reached none now = false
is_reached (some t) now = leb t now

abbrev pub has_open_check : List ScheduledCheck → ℕ → Bool
has_open_check checks id = any (λ c. c.monitor_id == id && is_open c.status) checks

-- The WHERE of the SELECT in `createDueChecks`.
unfoldable pub is_due : List ScheduledCheck → ℕ → MonitorRow → Bool
is_due checks now m =
    m.active
    && is_null m.deleted_at
    && is_reached m.next_check_at now
    && not (has_open_check checks m.id)

-- A row of the answer of that SELECT.
pub record DueMonitorRow : Type 0 where
  pub id : ℕ
  pub next_check_at : ℕ
  pub interval_sec : ℕ
  pub config_version : ℕ

unfoldable pub new_check : ℕ → DueMonitorRow → ℕ → ScheduledCheck
new_check id m scheduled_at = record {
  id = id;
  monitor_id = m.id;
  scheduled_at = scheduled_at;
  config_version = m.config_version;
  status = ScheduledCheckStatus.pending;
  lease_owner = none;
  lease_until = none;
  queue_job_id = none;
  attempt_count = 0;
  failure_reason_safe = none;
  enqueued_at = none;
  started_at = none;
  completed_at = none;
  canceled_at = none;
  result = none;
}

abbrev pub set_next_check : ℕ → MonitorRow → MonitorRow
set_next_check next r = record r { next_check_at = some next }

-- The unique index on the monitor, the slot and the configuration. There is another on the monitor of
-- an open check, which has_open_check tests.
abbrev pub has_slot : DueMonitorRow → ℕ → ScheduledCheck → Bool
has_slot m scheduled_at c =
    c.monitor_id == m.id && c.scheduled_at == scheduled_at && c.config_version == m.config_version

-- The two writes for one due monitor. The database client refuses an invalid date, and the database
-- a second check for a slot and a second open one for a monitor.
unfoldable pub create_at :
    DueMonitorRow → Date → Date → Tables → Result Error (ScheduledCheckSummary × Tables)
unfolding new_check
create_at m (at scheduled_at) (at next) t =
    if any (has_slot m scheduled_at) t.checks || has_open_check t.checks m.id
    then throw Error.duplicate_check
    else ok (
      record { id = t.next_id; config_version = m.config_version },
      record {
        monitors = update_many (λ r. r.id == m.id) (set_next_check next) t.monitors;
        checks = new_check t.next_id m scheduled_at ∷ t.checks;
        next_id = t.next_id + 1;
      },
    )
create_at m _ _ t = throw Error.invalid_date

-- `if (!scheduledAt) continue;` and what follows it.
unfoldable pub create_slot :
    ℕ → DueMonitorRow → Option Date → Tables → Result Error (List ScheduledCheckSummary × Tables)
unfolding create_at
create_slot now m none t = ok ([], t)
create_slot now m (some scheduled_at) t = do
  next ← calculate_next_check_at scheduled_at m.interval_sec (at now)
  result ← create_at m scheduled_at next t
  ok (result.0 ∷ [], result.1)

-- The body of the loop.
unfoldable pub create_due_check :
    ℕ → DueMonitorRow → Tables → Result Error (List ScheduledCheckSummary × Tables)
unfolding create_slot
create_due_check now m t = do
  slot ← coalesce_due_scheduled_at (at m.next_check_at) m.interval_sec (at now)
  create_slot now m slot t

-- `createDueChecks` behind the answer of its SELECT.
unfoldable pub create_due_checks :
    ℕ → List DueMonitorRow → Tables → Result Error (List ScheduledCheckSummary × Tables)
unfolding create_due_check
create_due_checks now [] t = ok ([], t)
create_due_checks now (m ∷ due) t = do
  first ← create_due_check now m t
  later ← create_due_checks now due first.1
  ok (first.0 ++ later.0, later.1)

-- The WHERE of `findDispatchCandidates`, a row without lease or with one that has run out.
unfoldable pub is_dispatch_candidate : ℕ → ScheduledCheck → Bool
is_dispatch_candidate now c =
    is_pending c.status && (is_null c.lease_until || has_expired c.lease_until now)
    || is_handed_over c.status && has_expired c.lease_until now && is_null c.result

-- The WHERE of `claimForDispatch`, but for the id.
unfoldable pub is_claimable : ℕ → ScheduledCheck → Bool
is_claimable now c =
    is_null c.completed_at
    && (is_pending c.status && (is_null c.lease_until || has_expired c.lease_until now)
        || is_handed_over c.status && has_expired c.lease_until now)

abbrev pub claim_row : ℕ → ℕ → ScheduledCheck → ScheduledCheck
claim_row owner lease_until c = record c {
  status = ScheduledCheckStatus.pending;
  lease_owner = some owner;
  lease_until = some lease_until;
  attempt_count = c.attempt_count + 1;
  failure_reason_safe = none;
}

unfoldable pub claim_for_dispatch :
    (id owner now lease_until : ℕ) → List ScheduledCheck → Bool × List ScheduledCheck
unfolding is_claimable
claim_for_dispatch id owner now lease_until checks =
    let test : ScheduledCheck → Bool = λ c. c.id == id && is_claimable now c in
    (count test checks == 1, update_many test (claim_row owner lease_until) checks)

abbrev pub is_owner : Option ℕ → ℕ → Bool
is_owner none owner = false
is_owner (some o) owner = o == owner

-- The WHERE that `markEnqueued` and `releaseDispatchClaim` share, but for the id.
unfoldable pub is_claimed_by : ℕ → ScheduledCheck → Bool
is_claimed_by owner c =
    is_owner c.lease_owner owner && is_pending c.status && is_null c.completed_at

abbrev pub enqueue_row : ℕ → ℕ → ScheduledCheck → ScheduledCheck
enqueue_row now lease_until c = record c {
  status = ScheduledCheckStatus.enqueued;
  queue_job_id = some c.id;
  enqueued_at = some now;
  lease_until = some lease_until;
}

unfoldable pub mark_enqueued :
    (id owner now lease_until : ℕ) → List ScheduledCheck → List ScheduledCheck
unfolding is_claimed_by
mark_enqueued id owner now lease_until checks =
    update_many (λ c. c.id == id && is_claimed_by owner c) (enqueue_row now lease_until) checks

-- `safeReason.slice(0, 1_000)`
abbrev pub release_row : List ℕ → ScheduledCheck → ScheduledCheck
release_row safe_reason c = record c {
  status = ScheduledCheckStatus.pending;
  lease_owner = none;
  lease_until = none;
  failure_reason_safe = some (take 1000 safe_reason);
}

unfoldable pub release_dispatch_claim :
    (id owner : ℕ) → List ℕ → List ScheduledCheck → List ScheduledCheck
unfolding is_claimed_by
release_dispatch_claim id owner safe_reason checks =
    update_many (λ c. c.id == id && is_claimed_by owner c) (release_row safe_reason) checks
