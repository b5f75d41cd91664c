-- ===== src/Database/Retention/Plan.antt =====
-- packages/database/src/retention-plan.ts: the rows that each statement selects, as tests on rows.
-- The tables hold the columns that the statements read; times are milliseconds. LIMIT, ORDER BY and
-- SKIP LOCKED choose among the rows that a WHERE clause admits: a batch is any list of such rows.
use link_alive.Common.{
  ℕ, Bool, true, false, not, ◌&&◌, Option, none, some, List, [], ◌∷◌, ltb, ◌==◌, any, if◌then◌else◌,
}
use link_alive.Domain.Types.{ScheduledCheckStatus, NotificationOutboxStatus, IncidentStatus}

pub record CheckResultRow : Type 0 where
  pub id : ℕ
  pub scheduled_check_id : Option ℕ
  pub finished_at : ℕ

pub record ScheduledCheckRow : Type 0 where
  pub id : ℕ
  pub status : ScheduledCheckStatus
  pub completed_at : Option ℕ
  pub canceled_at : Option ℕ
  pub updated_at : ℕ

pub record DeliveryRow : Type 0 where
  pub id : ℕ
  pub outbox_id : ℕ
  pub finished_at : Option ℕ
  pub created_at : ℕ

pub record OutboxRow : Type 0 where
  pub id : ℕ
  pub incident_id : Option ℕ
  pub status : NotificationOutboxStatus
  pub sent_at : Option ℕ
  pub failed_at : Option ℕ
  pub canceled_at : Option ℕ
  pub updated_at : ℕ

pub record IncidentRow : Type 0 where
  pub id : ℕ
  pub status : IncidentStatus
  pub resolved_at : Option ℕ
  pub canceled_at : Option ℕ

pub record AuditRow : Type 0 where
  pub id : ℕ
  pub created_at : ℕ

pub record Tables : Type 0 where
  pub check_results : List CheckResultRow
  pub scheduled_checks : List ScheduledCheckRow
  pub deliveries : List DeliveryRow
  pub outbox : List OutboxRow
  pub incidents : List IncidentRow
  pub audit_logs : List AuditRow

-- `COALESCE(o, d)`
abbrev pub coalesce : Option ℕ → ℕ → ℕ
coalesce none d = d
coalesce (some a) d = a

-- `a < cutoff` where `a` may be NULL: a comparison with NULL admits no row.
abbrev pub is_before : Option ℕ → ℕ → Bool
is_before none cutoff = false
is_before (some a) cutoff = ltb a cutoff

abbrev pub first_some : Option ℕ → Option ℕ → Option ℕ
first_some none b = b
first_some (some a) b = some a

-- `status IN ('COMPLETED', 'FAILED', 'CANCELED')`
abbrev pub check_has_ended : ScheduledCheckStatus → Bool
check_has_ended ScheduledCheckStatus.completed = true
check_has_ended ScheduledCheckStatus.failed = true
check_has_ended ScheduledCheckStatus.canceled = true
check_has_ended _ = false

-- `status IN ('SENT', 'FAILED', 'CANCELED')`
abbrev pub outbox_has_ended : NotificationOutboxStatus → Bool
outbox_has_ended NotificationOutboxStatus.sent = true
outbox_has_ended NotificationOutboxStatus.failed = true
outbox_has_ended NotificationOutboxStatus.canceled = true
outbox_has_ended _ = false

-- `status IN ('RESOLVED', 'CANCELED')`
abbrev pub incident_has_ended : IncidentStatus → Bool
incident_has_ended IncidentStatus.resolved = true
incident_has_ended IncidentStatus.canceled = true
incident_has_ended _ = false

abbrev pub is_id : ℕ → Option ℕ → Bool
is_id id none = false
is_id id (some k) = k == id

abbrev pub outbox_ended_at : OutboxRow → ℕ
outbox_ended_at o = coalesce o.sent_at (coalesce o.failed_at (coalesce o.canceled_at o.updated_at))

unfoldable pub selects_check_result : ℕ → CheckResultRow → Bool
selects_check_result cutoff r = ltb r.finished_at cutoff

unfoldable pub selects_scheduled_check : Tables → ℕ → ScheduledCheckRow → Bool
selects_scheduled_check t cutoff s =
    check_has_ended s.status
    && ltb (coalesce s.completed_at (coalesce s.canceled_at s.updated_at)) cutoff
    && not (any (λ r. is_id s.id r.scheduled_check_id) t.check_results)

-- The INNER JOIN: some outbox row of that id passes both tests.
unfoldable pub selects_delivery : Tables → ℕ → DeliveryRow → Bool
selects_delivery t cutoff d =
    ltb (coalesce d.finished_at d.created_at) cutoff
    && any (λ o. o.id == d.outbox_id && outbox_has_ended o.status && ltb (outbox_ended_at o) cutoff)
        t.outbox

unfoldable pub selects_outbox : Tables → ℕ → OutboxRow → Bool
selects_outbox t cutoff o =
    outbox_has_ended o.status
    && ltb (outbox_ended_at o) cutoff
    && not (any (λ d. d.outbox_id == o.id) t.deliveries)

unfoldable pub selects_incident : Tables → ℕ → IncidentRow → Bool
selects_incident t cutoff i =
    incident_has_ended i.status
    && is_before (first_some i.resolved_at i.canceled_at) cutoff
    && not (any (λ o. is_id i.id o.incident_id) t.outbox)

unfoldable pub selects_audit_log : ℕ → AuditRow → Bool
selects_audit_log cutoff a = ltb a.created_at cutoff

-- `DELETE FROM … WHERE id IN (?)`
abbrev pub id_in : ℕ → List ℕ → Bool
id_in id ids = any (λ k. k == id) ids

module _ {ℓ} {Row : Type ℓ} (id_of : Row → ℕ) where
  unfoldable pub delete_in : List ℕ → List Row → List Row
  delete_in ids [] = []
  delete_in ids (r ∷ rs) =
      let rest = delete_in ids rs in if id_in (id_of r) ids then rest else r ∷ rest

-- The steps of RETENTION_STEPS, in their order.
pub data RetentionStep : Type 0 where
  check_results scheduled_checks notification_deliveries : RetentionStep
  notification_outbox incidents audit_logs : RetentionStep

abbrev pub retention_steps : List RetentionStep
retention_steps =
    check_results ∷ scheduled_checks ∷ notification_deliveries ∷ notification_outbox ∷ incidents
    ∷ audit_logs ∷ []

-- Whether a step's cutoff is the one for check results, and not the one for history.
abbrev pub uses_check_result_cutoff : RetentionStep → Bool
uses_check_result_cutoff check_results = true
uses_check_result_cutoff scheduled_checks = true
uses_check_result_cutoff _ = false

-- The `mutateSql` of a step.
unfoldable pub delete_step : RetentionStep → List ℕ → Tables → Tables
unfolding delete_in
delete_step check_results ids t = record t {
  check_results = delete_in CheckResultRow.id ids t.check_results;
}
delete_step scheduled_checks ids t = record t {
  scheduled_checks = delete_in ScheduledCheckRow.id ids t.scheduled_checks;
}
delete_step notification_deliveries ids t = record t {
  deliveries = delete_in DeliveryRow.id ids t.deliveries;
}
delete_step notification_outbox ids t = record t { outbox = delete_in OutboxRow.id ids t.outbox }
delete_step incidents ids t = record t { incidents = delete_in IncidentRow.id ids t.incidents }
delete_step audit_logs ids t = record t { audit_logs = delete_in AuditRow.id ids t.audit_logs }
