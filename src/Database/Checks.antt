-- ===== src/Database/Checks.antt =====
-- packages/database/prisma/schema.prisma: the row of a scheduled check, the ledger entry that the
-- scheduler and the workers share. Ids, owners and times are numbers.
use link_alive.Common.{ℕ, Bool, true, false, Option, none, some, List, ltb}
use link_alive.Domain.Types.{ScheduledCheckStatus}
use link_alive.Monitoring.Types.{MonitorCheckResult}

pub record ScheduledCheck : Type 0 where
  pub id : ℕ
  pub monitor_id : ℕ
  pub scheduled_at : ℕ
  pub config_version : ℕ
  pub status : ScheduledCheckStatus
  pub lease_owner : Option ℕ
  pub lease_until : Option ℕ
  pub queue_job_id : Option ℕ
  pub attempt_count : ℕ
  pub failure_reason_safe : Option (List ℕ)
  pub enqueued_at : Option ℕ
  pub started_at : Option ℕ
  pub completed_at : Option ℕ
  pub canceled_at : Option ℕ
  pub result : Option MonitorCheckResult

-- `status IN ('PENDING', 'ENQUEUED', 'RUNNING')`
abbrev pub is_open : ScheduledCheckStatus → Bool
is_open ScheduledCheckStatus.pending = true
is_open ScheduledCheckStatus.enqueued = true
is_open ScheduledCheckStatus.running = true
is_open _ = false

abbrev pub is_pending : ScheduledCheckStatus → Bool
is_pending ScheduledCheckStatus.pending = true
is_pending _ = false

-- `status IN ('ENQUEUED', 'RUNNING')`
abbrev pub is_handed_over : ScheduledCheckStatus → Bool
is_handed_over ScheduledCheckStatus.enqueued = true
is_handed_over ScheduledCheckStatus.running = true
is_handed_over _ = false

abbrev pub is_null {ℓ} : {A : Type ℓ} → Option A → Bool
is_null none = true
is_null (some a) = false

-- `lease_until < now`, which no row without a lease passes.
abbrev pub has_expired : Option ℕ → ℕ → Bool
has_expired none now = false
has_expired (some t) now = ltb t now
