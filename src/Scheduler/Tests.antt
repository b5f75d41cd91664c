-- ===== src/Scheduler/Tests.antt =====
-- The scheduler on one monitor that was due a minute and a half ago.
use link_alive.Common.{
  Option, ◌≡◌, ◌≤◌, refl, ap, sym, Result, true, none, some, List, [], ◌∷◌, All, length, ok, arith,
}
use link_alive.Scheduler.Store.{
  is_claimed_by, MonitorRow, Tables, DueMonitorRow, ScheduledCheckSummary, is_due,
  create_due_checks, create_due_check, create_slot, create_at, new_check,
}
use link_alive.Domain.Scheduling.{coalesce_due_scheduled_at, calculate_next_check_at}
use link_alive.Scheduler.Dispatcher.{
  CheckQueue, JobState, failed, waiting_or_active, dispatch, ensure_queue_job, ensure_found,
  add_after,
}
use link_alive.Scheduler.Dispatcher.Claims.{IsUnclaimed, ids_of, dispatch-Leaves}
use link_alive.Scheduler.Due.{IsReady, IsScheduled, create_due_checks-IsScheduled}

abbrev monitor : MonitorRow
monitor = record {
  id = 7;
  active = true;
  deleted_at = none;
  next_check_at = some 10000;
  interval_sec = 60;
  config_version = 3;
}

abbrev tables : Tables
tables = record { monitors = monitor ∷ []; checks = []; next_id = 1 }

abbrev due : DueMonitorRow
due = record { id = 7; next_check_at = 10000; interval_sec = 60; config_version = 3 }

monitor-is_due : is_due tables.checks 100000 monitor ≡ true
unfolding is_due
monitor-is_due = refl

due-IsReady : IsReady 100000 due
due-IsReady = record {
  positive = omega arith;
  safe = omega arith;
  reached = omega arith;
  in_range = omega arith;
}

create_due_checks-IsScheduled_example :
    (summaries : List ScheduledCheckSummary) × (u : Tables) × (create_due_checks 100000
        (due ∷ [])
        tables
      ≡ ok (summaries, u))
    × (length summaries ≡ 1)
    × All (λ m. IsScheduled 100000 m u) (due ∷ [])
    × ((d : DueMonitorRow) → IsScheduled 100000 d tables → IsScheduled 100000 d u)
create_due_checks-IsScheduled_example =
    create_due_checks-IsScheduled 100000 (due ∷ []) tables (due-IsReady, tt, refl, tt, tt)

-- The most recent slot is that of 70 seconds, and the next one that of 130 seconds.
one_slot :
    create_due_checks 100000 (due ∷ []) tables
    ≡ ok (
      record { id = 1; config_version = 3 } ∷ [],
      record {
        monitors = record monitor { next_check_at = some 130000 } ∷ [];
        checks = new_check 1 due 70000 ∷ [];
        next_id = 2;
      },
    )
unfolding create_due_checks create_due_check create_slot create_at coalesce_due_scheduled_at
    calculate_next_check_at
one_slot = refl

-- A queue with room for one job.
abbrev added : Option JobState → Result (Unit {0}) (Unit {0}) × Option JobState
added q = (ok tt, some waiting_or_active)

abbrev slot : CheckQueue
slot = record {
  Queue = Option JobState;
  QueueError = Unit {0};
  get_job = λ id q. ok q;
  remove = λ id q. (ok tt, none);
  add = λ id config_version q. added q;
  add_waits = λ id config_version q u r h. sym (ap (λ x. ok x.1) h);
}

abbrev summary : ScheduledCheckSummary
summary = record { id = 1; config_version = 3 }

pending-IsUnclaimed : IsUnclaimed 4 (new_check 1 due 70000)
unfolding new_check is_claimed_by
pending-IsUnclaimed = refl

dispatch-Leaves_example :
    let (n, r, ds) =
      dispatch slot 4 30000 [] 100000 (summary ∷ []) (some failed) (new_check 1 due 70000 ∷ []) in
    All (IsUnclaimed 4) ds × (ids_of ds ≡ ids_of (new_check 1 due 70000 ∷ [])) × (n ≤ 1)
dispatch-Leaves_example =
    dispatch-Leaves slot 4 30000 [] 100000 (summary ∷ []) (some failed) (new_check 1 due 70000 ∷ [])
      (tt, tt) (pending-IsUnclaimed, tt)

replaced :
    ◌≡◌ {A = Result (Unit {0}) (Unit {0}) × Option JobState}
      (ensure_queue_job slot 4 30000 [] summary (some failed))
      (ok tt, some waiting_or_active)
unfolding ensure_queue_job ensure_found add_after
replaced = refl
