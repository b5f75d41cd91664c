-- ===== src/Database/Retention/Tests.antt =====
-- Retention over small tables, and on a connection that counts the rows that are left.
use link_alive.Common.{
  trim, trim_start, ℕ, zero, suc, ◌-◌, min, ◌≤◌, ◌≡◌, refl, ◌⊎◌, ◌↔◌, Bool, true, false, none, some,
  List, [], ◌∷◌, Result, ok, throw, length, arith, ap, sym,
}
use link_alive.Domain.Types.{
  ScheduledCheckStatus, NotificationOutboxStatus, NotificationEventType, IncidentStatus,
}
use link_alive.Worker.Delivery.{should_retain_notification_secret}
use link_alive.Database.Retention.Plan.{Tables, notification_outbox, delete_step, selects_outbox}
use link_alive.Database.Retention.References.{HasReferences, IsBatch, delete_step-HasReferences}
use link_alive.Database.Retention.Redaction.{
  SecretTables, SecretOutboxRow, secret_state, selects_terminal_outbox, redacts_unretained,
  keeps_unknown_error,
}
use link_alive.Database.Retention.Runner.{
  RunnerError, RetentionConnection, RetentionConfig, RetentionRunResult, RetentionCompleted,
  completed, skipped, run_retention, mutate_candidates, mutate_locked_candidates, run_batches,
  run_step, run_steps, run_all, run_locked,
}
use link_alive.Database.Retention.Returns.{IsReliable, run_retention-returns}
use link_alive.Database.Retention.Config.{
  Environment, check_url, read_integer, read_retention_config, Accepts,
  read_retention_config-ok_iff,
}
use link_alive.Database.Retention.Complete.{IsComplete, run_retention-IsComplete}

-- An incident whose only notification failed long ago, and one whose notification has a delivery.
abbrev tables : Tables
tables = record {
  check_results =
      record { id = 1; scheduled_check_id = some 5; finished_at = 10 }
      ∷ record { id = 2; scheduled_check_id = none; finished_at = 10 }
      ∷ [];
  scheduled_checks =
      record {
        id = 5;
        status = ScheduledCheckStatus.completed;
        completed_at = some 9;
        canceled_at = none;
        updated_at = 9;
      }
      ∷ [];
  deliveries = record { id = 1; outbox_id = 21; finished_at = none; created_at = 90 } ∷ [];
  outbox =
      record {
        id = 20;
        incident_id = some 30;
        status = NotificationOutboxStatus.failed;
        sent_at = none;
        failed_at = some 8;
        canceled_at = none;
        updated_at = 8;
      }
      ∷ record {
        id = 21;
        incident_id = some 30;
        status = NotificationOutboxStatus.sent;
        sent_at = some 8;
        failed_at = none;
        canceled_at = none;
        updated_at = 8;
      }
      ∷ [];
  incidents =
      record { id = 30; status = IncidentStatus.resolved; resolved_at = some 8; canceled_at = none }
      ∷ [];
  audit_logs = [];
}

tables-HasReferences : HasReferences tables
tables-HasReferences = record {
  checks = (refl, (tt, tt));
  outboxes = (refl, tt);
  incidents = (refl, (refl, tt));
}

old_outbox : IsBatch notification_outbox tables 50 (20 ∷ [])
unfolding selects_outbox
old_outbox = (refl, tt)

delete_step-HasReferences_example : HasReferences (delete_step notification_outbox (20 ∷ []) tables)
delete_step-HasReferences_example =
    delete_step-HasReferences notification_outbox tables 50 (20 ∷ []) old_outbox
      tables-HasReferences

abbrev sent_down : SecretOutboxRow
sent_down = record {
  incident_id = some 30;
  monitor_id = some 1;
  channel_id = 2;
  event_type = NotificationEventType.down;
  status = NotificationOutboxStatus.sent;
  is_tombstone = false;
  allows_recovery = some true;
  down_not_delivered = some false;
}

abbrev secrets : SecretTables
secrets = record {
  channels = record { id = 2; enabled = true; deleted_at = none } ∷ [];
  bindings = record { monitor_id = 1; channel_id = 2; notify_on_recovery = true } ∷ [];
  incidents = tables.incidents;
  outbox = sent_down ∷ [];
}

redacts_unretained_example : selects_terminal_outbox secrets sent_down ≡ true
unfolding should_retain_notification_secret
redacts_unretained_example =
    redacts_unretained secrets sent_down (some IncidentStatus.resolved) (λ e. cc)
      ((λ e. refl), (λ e. refl)) refl refl refl

-- A recovery that was canceled without an error.
abbrev canceled_recovery : SecretOutboxRow
canceled_recovery = record sent_down {
  event_type = NotificationEventType.recovery;
  status = NotificationOutboxStatus.canceled;
  down_not_delivered = none;
}

kept_secret :
    (should_retain_notification_secret
        (secret_state canceled_recovery (some IncidentStatus.resolved))
      ≡ false)
    × (selects_terminal_outbox secrets canceled_recovery ≡ false)
kept_secret =
    keeps_unknown_error secrets canceled_recovery (some IncidentStatus.resolved) refl refl refl

-- A pile of rows that every step takes from, and whether a transaction is open.
abbrev Pile : Type 0
Pile = ℕ × Bool

abbrev ones : ℕ → List ℕ
ones zero = []
ones (suc n) = 1 ∷ ones n

length-ones : (n : ℕ) → length (ones n) ≡ n
length-ones zero = refl
length-ones (suc n) = ap suc (length-ones n)

abbrev rows_of : Result RunnerError (List ℕ) × Pile → ℕ
rows_of (ok ids, d) = length ids
rows_of (throw e, d) = 0

abbrev taken : ℕ → Pile → Result RunnerError (List ℕ) × Pile
taken limit c = (ok (ones (min c.0 limit)), c)

taken_limit :
    (limit : ℕ) (c : Pile) (ids : List ℕ) (d : Pile)
    → ◌≡◌ {A = Result RunnerError (List ℕ) × Pile} (taken limit c) (ok ids, d)
    → length ids ≤ limit
taken_limit limit c ids d h =
    let same : length (ones (min c.0 limit)) ≡ length ids = ap rows_of h in
    omega (arith, length-ones (min c.0 limit))

abbrev closed : Pile → Result RunnerError (Unit {0}) × Pile
closed c = (ok tt, (c.0, false))

closed_ends : (c : Pile) (u : Unit {0}) (d : Pile) → closed c ≡ (ok u, d) → d.1 ≡ false
closed_ends c u d h = sym (ap (λ x. x.1.1) h)

abbrev pile : RetentionConnection
pile = record {
  Conn = Pile;
  begin_transaction = λ c. (ok tt, (c.0, true));
  commit = closed;
  rollback = closed;
  select = λ s limit c. taken limit c;
  mutate = λ s ids c. (ok (length ids), (c.0 - length ids, c.1));
  get_lock = λ c. (ok true, c);
  release_lock = closed;
  set_lock_wait = λ c. (ok tt, c);
  boundaries = λ days history c. (ok (some (100, 50, 10)), c);
  in_transaction = λ c. c.1;
  select_limit = λ s limit c ids d h. taken_limit limit c ids d h;
  commit_ends = closed_ends;
  rollback_ends = closed_ends;
}

abbrev small : RetentionConfig
small = record {
  check_result_days = 30;
  history_days = 365;
  batch_size = 2;
  max_batches_per_step = 2;
}

abbrev five_redacted : RetentionCompleted
five_redacted = record {
  redactions =
      record { batches = 2; rows = 4; limit_reached = true }
      ∷ record { batches = 1; rows = 1; limit_reached = false }
      ∷ record { batches = 1; rows = 0; limit_reached = false }
      ∷ [];
  deletions =
      record { batches = 1; rows = 0; limit_reached = false }
      ∷ record { batches = 1; rows = 0; limit_reached = false }
      ∷ record { batches = 1; rows = 0; limit_reached = false }
      ∷ record { batches = 1; rows = 0; limit_reached = false }
      ∷ record { batches = 1; rows = 0; limit_reached = false }
      ∷ record { batches = 1; rows = 0; limit_reached = false }
      ∷ [];
  total_redacted = 5;
  total_deleted = 0;
}

five_rows :
    ◌≡◌ {A = Result RunnerError RetentionRunResult × Pile}
      (run_retention pile small (5, false))
      (ok (completed five_redacted), (0, false))
unfolding run_retention run_locked run_all run_steps run_step run_batches mutate_locked_candidates
    mutate_candidates
five_rows = refl

abbrev IsReported : RetentionRunResult → Type 0
IsReported r =
    ((r ≡ skipped) × (pile.get_lock (5, false) ≡ (ok false, (0, false))))
    ⊎ ((done : RetentionCompleted) × (r ≡ completed done)
        × IsComplete pile small done
        × ((e : Pile) × (pile.get_lock (5, false) ≡ (ok true, e)))
        × ((e : Pile) × (u : Unit {0}) × (closed e ≡ (ok u, (0, false)))))

run_retention-IsComplete_example : IsReported (completed five_redacted)
run_retention-IsComplete_example =
    run_retention-IsComplete pile small (5, false) (0, false) (completed five_redacted)
      (omega arith) five_rows

pile-IsReliable : IsReliable pile
pile-IsReliable = record {
  begins = λ c. (tt, (c.0, true), refl);
  commits = λ c. (tt, (c.0, false), refl);
  selects = λ s limit c. (ones (min c.0 limit), c, refl);
  mutates = λ s limit ids c d found. ((d.0 - length ids, d.1), refl);
  locks = λ c. (true, c, refl);
  unlocks = λ c. (tt, (c.0, false), refl);
  waits = λ c. (tt, c, refl);
  has_clock = λ days history c. ((100, 50, 10), c, refl);
}

run_retention-returns_example :
    (r : RetentionRunResult) × (d : Pile) × ◌≡◌ {A = Result RunnerError RetentionRunResult × Pile}
      (run_retention pile small (7, false))
      (ok r, d)
run_retention-returns_example = run_retention-returns pile pile-IsReliable small (7, false)

-- Only the size of a batch is set, to 25.
abbrev environment : Environment
environment = record {
  database_url = some (109 ∷ []);
  check_result_days = none;
  history_days = none;
  batch_size = some (50 ∷ 53 ∷ []);
  max_batches_per_step = none;
}

abbrev twenty_five : RetentionConfig
twenty_five = record {
  check_result_days = 30;
  history_days = 365;
  batch_size = 25;
  max_batches_per_step = 100;
}

read_retention_config-ok_iff_example :
    (read_retention_config (λ url. true) environment ≡ ok twenty_five) ↔ (
      (check_url (λ url. true) environment.database_url ≡ ok tt)
      × Accepts none 30 1 3650 30
      × Accepts none 365 1 36500 365
      × Accepts environment.batch_size 500 1 10000 25
      × Accepts none 100 1 1000 100)
read_retention_config-ok_iff_example =
    read_retention_config-ok_iff (λ url. true) environment twenty_five

reads : read_retention_config (λ url. true) environment ≡ ok twenty_five
unfolding read_retention_config check_url read_integer trim trim_start
reads = refl
