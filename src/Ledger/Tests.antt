-- ===== src/Ledger/Tests.antt =====
-- A check that is created, claimed by a scheduler, put in the queue, run and completed.
use link_alive.Common.{◌≡◌, refl, true, false, none, some, [], ◌∷◌, ok, arith}
use link_alive.Domain.Types.{CheckSource, CheckOutcome, at}
use link_alive.Domain.Scheduling.{coalesce_due_scheduled_at, calculate_next_check_at}
use link_alive.Monitoring.Types.{MonitorCheckResult}
use link_alive.Database.Checks.{ScheduledCheck}
use link_alive.Scheduler.Store.{
  Tables, DueMonitorRow, ScheduledCheckSummary, create_due_checks, create_due_check, create_slot,
  create_at, new_check, claim_for_dispatch, is_claimable,
}
use link_alive.Worker.CheckProcessor.Claims.{
  claim_for_run, cancel_row, cancel_stale, complete_check, complete_row,
}
use link_alive.Ledger.{created, started, canceled, completed, Reaches, no_step, next_step}
use link_alive.Ledger.Consistency.{IsConsistent, Reaches-IsConsistent}
use link_alive.Ledger.History.{GoesOn, Reaches-GoesOn}
use link_alive.Ledger.Exclusion.{claim_for_dispatch-exclusive}

abbrev due : DueMonitorRow
due = record { id = 7; next_check_at = 10000; interval_sec = 60; config_version = 3 }

abbrev empty : Tables
empty = record { monitors = []; checks = []; next_id = 1 }

abbrev one_check : Tables
one_check = record { monitors = []; checks = new_check 1 due 70000 ∷ []; next_id = 2 }

abbrev summary : ScheduledCheckSummary
summary = record { id = 1; config_version = 3 }

one_created : create_due_checks 100000 (due ∷ []) empty ≡ ok (summary ∷ [], one_check)
unfolding create_due_checks create_due_check create_slot create_at coalesce_due_scheduled_at
    calculate_next_check_at
one_created = refl

empty-IsConsistent : IsConsistent empty
empty-IsConsistent = record { sound = tt; fresh = tt; distinct = tt; one_open = λ id. omega arith }

creation : Reaches empty one_check
creation =
    next_step empty one_check no_step
      (created 100000 (due ∷ []) (summary ∷ []) one_check (refl, tt, tt) one_created)

Reaches-IsConsistent_example : IsConsistent one_check
Reaches-IsConsistent_example = Reaches-IsConsistent empty one_check creation empty-IsConsistent

abbrev success : MonitorCheckResult
success = record {
  source = CheckSource.scheduled;
  outcome = CheckOutcome.success;
  config_version = some 3;
  started_at = at 100500;
  finished_at = at 100900;
  status_code = some 200;
  ttfb_ms = some 100;
  total_ms = 400;
  error_type = none;
  error_message_safe = none;
  final_url_display = [];
  redirect_count = 0;
  inspected_body_bytes = 0;
}

-- Scheduler 1 claims the check until 130 seconds.
abbrev claimed_check : Tables
claimed_check = record one_check {
  checks = (claim_for_dispatch 1 1 100000 130000 one_check.checks).1;
}

one_claim : (claim_for_dispatch 1 1 100000 130000 one_check.checks).0 ≡ true
unfolding claim_for_dispatch is_claimable new_check
one_claim = refl

abbrev started_check : Tables
started_check = record claimed_check {
  checks = (claim_for_run 1 9 100500 160000 claimed_check.checks).1;
}

-- A worker starts it before the scheduler has marked it.
abbrev run_meanwhile : Reaches claimed_check started_check
run_meanwhile = next_step claimed_check started_check no_step (started 1 9 100500 160000)

claim_for_dispatch-exclusive_example :
    (claim_for_dispatch 1 2 110000 140000 started_check.checks).0 ≡ false
claim_for_dispatch-exclusive_example =
    claim_for_dispatch-exclusive 1 1 100000 130000 one_check started_check
      (Reaches-IsConsistent empty one_check creation empty-IsConsistent) one_claim run_meanwhile
      (tt, λ e. omega arith) 2 110000 140000 (omega arith)

abbrev completed_row : ScheduledCheck
completed_row = complete_row success 100900 (new_check 1 due 70000)

abbrev completed_check : Tables
completed_check = record one_check { checks = completed_row ∷ [] }

completion : Reaches empty completed_check
unfolding complete_check new_check
completion =
    next_step one_check completed_check creation
      (completed false success 1 100900 ((λ new was. absurd cc), tt))

canceled_after :
    Reaches completed_check
      (record completed_check { checks = cancel_stale [] 1 200000 completed_check.checks })
canceled_after = next_step completed_check _ no_step (canceled [] 1 200000)

Reaches-GoesOn_example : GoesOn 1 completed_row (cancel_stale [] 1 200000 completed_check.checks)
unfolding new_check
Reaches-GoesOn_example =
    Reaches-GoesOn completed_check
      (record completed_check { checks = cancel_stale [] 1 200000 completed_check.checks }) 1
      completed_row canceled_after
      (Reaches-IsConsistent empty completed_check completion empty-IsConsistent) refl

-- A commit that has read the check as open completes it after it was canceled.
abbrev canceled_row : ScheduledCheck
canceled_row = cancel_row [] 100800 (new_check 1 due 70000)

completed_late :
    complete_check false success 1 100900 (canceled_row ∷ [])
    ≡ record completed_row { canceled_at = some 100800 } ∷ []
unfolding complete_check new_check
completed_late = refl
