-- ===== src/Worker/CheckProcessor/Tests.antt =====
-- The second failure of a monitor opens an incident and tells one of its two channels.
use link_alive.Common.{
  ℕ, ◌≡◌, refl, ap, ap, Bool, true, false, Option, none, some, [], ◌∷◌, Result, ok, arith,
}
use link_alive.Domain.Types.{
  MonitorLifecycle, MonitorHealth, CheckSource, CheckOutcome, CheckErrorType, ScheduledCheckStatus,
  IncidentStatus, NotificationEventType, NotificationOutboxStatus, at,
}
use link_alive.Domain.Notifications.{notification_sequence}
use link_alive.Domain.StateMachine.{
  MonitorState, apply_check_result, assert_state, assert_transition_input, decide_result,
  by_outcome, on_failure, applied_result,
}
use link_alive.Monitoring.Types.{MonitorCheckResult}
use link_alive.Database.Checks.{ScheduledCheck}
use link_alive.Worker.CheckProcessor.World.{World, CommitError, create_outbox_row}
use link_alive.Worker.CheckProcessor.Commit.{
  ProcessStatus, completed, duplicate, persist, persist_check, persist_result, count_result,
  note_network, apply_result, apply_transition, apply_incident_effect, open_for, create_outbox,
  create_down, monitor_update,
}
use link_alive.Worker.CheckProcessor.Persist.{IsCoherent, Committed, persist-Outcome}

abbrev pub suspect : MonitorState
suspect = record {
  lifecycle_status = MonitorLifecycle.active;
  health_state = MonitorHealth.suspect;
  consecutive_failures = 1;
  consecutive_successes = 0;
  failure_streak_started_at = some (at 1000);
  failure_streak_first_error_type = some CheckErrorType.dns_error;
  config_version = 3;
}

abbrev pub running : ScheduledCheck
running = record {
  id = 1;
  monitor_id = 7;
  scheduled_at = 60000;
  config_version = 3;
  status = ScheduledCheckStatus.running;
  lease_owner = some 9;
  lease_until = some 99000;
  queue_job_id = some 1;
  attempt_count = 1;
  failure_reason_safe = none;
  enqueued_at = some 60100;
  started_at = some 60200;
  completed_at = none;
  canceled_at = none;
  result = none;
}

abbrev pub before : World
before = record {
  monitor = record {
    state = suspect;
    deleted_at = none;
    failure_threshold = 2;
    recovery_threshold = 1;
    network_unknown_since = none;
    last_checked_at = some (at 1000);
    last_status_code = none;
    last_ttfb_ms = none;
    last_total_ms = some 20;
    last_error_type = some CheckErrorType.dns_error;
    last_success_at = none;
    last_failure_at = some (at 1000);
  };
  check = some running;
  incidents = [];
  outbox = [];
  bindings =
      record { channel_id = 4; notify_on_down = true; notify_on_recovery = true; is_live = true }
      ∷ record { channel_id = 5; notify_on_down = false; notify_on_recovery = true; is_live = true }
      ∷ [];
  observations = [];
  outages = [];
  next_id = 10;
}

pub before-IsCoherent : IsCoherent before
before-IsCoherent = record {
  health = record {
    counts = (omega arith, omega arith);
    streak = omega arith;
    inactive_pending = λ e. absurd cc;
  };
  ledger = record { one_open = refl; ids = tt };
}

abbrev failure : MonitorCheckResult
failure = record {
  source = CheckSource.scheduled;
  outcome = CheckOutcome.target_failure;
  config_version = some 3;
  started_at = at 60200;
  finished_at = at 60900;
  status_code = none;
  ttfb_ms = none;
  total_ms = 700;
  error_type = some CheckErrorType.connect_timeout;
  error_message_safe = none;
  final_url_display = [];
  redirect_count = 0;
  inspected_body_bytes = 0;
}

abbrev after : World
after = record {
  monitor = record (before.monitor) {
    state = record suspect { health_state = MonitorHealth.down; consecutive_failures = 2 };
    last_checked_at = some (at 60900);
    last_total_ms = some 700;
    last_error_type = some CheckErrorType.connect_timeout;
    last_failure_at = some (at 60900);
  };
  check = some (record running {
    status = ScheduledCheckStatus.completed;
    lease_owner = none;
    lease_until = none;
    completed_at = some 60900;
    result = some failure;
  });
  incidents =
      record {
        id = 10;
        config_version = 3;
        status = IncidentStatus.opened;
        first_failure_at = at 1000;
        detected_at = at 60900;
        resolved_at = none;
        first_error_type = some CheckErrorType.dns_error;
        last_error_type = some CheckErrorType.connect_timeout;
        closure_reason = none;
      }
      ∷ [];
  outbox =
      record {
        id = 11;
        incident_id = 10;
        channel_id = 4;
        event_type = NotificationEventType.down;
        sequence = 1;
        status = NotificationOutboxStatus.pending;
        attempt_count = 0;
        down_not_delivered = false;
        notify_on_recovery = true;
        is_tombstone = false;
        canceled_at = none;
        lease_owner = none;
        lease_until = none;
      }
      ∷ [];
  bindings = before.bindings;
  observations = [];
  outages = [];
  next_id = 12;
}

opens :
    ◌≡◌ {A = Result CommitError (ProcessStatus × World)}
      (persist false failure none before)
      (ok (completed, after))
unfolding persist persist_check persist_result count_result note_network apply_result
    apply_transition apply_incident_effect open_for create_outbox create_down create_outbox_row
    monitor_update apply_check_result assert_state assert_transition_input decide_result by_outcome
    on_failure applied_result notification_sequence
opens = refl

persist-Outcome_example :
    IsCoherent after
    × Committed completed failure before after
    × ((g' : Bool) (r' : MonitorCheckResult) (o' : Option ℕ)
        → persist g' r' o' after ≡ ok (duplicate, after))
persist-Outcome_example =
    persist-Outcome false failure none before after completed opens before-IsCoherent
