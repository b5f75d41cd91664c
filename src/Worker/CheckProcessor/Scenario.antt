-- ===== src/Worker/CheckProcessor/Scenario.antt =====
-- A worker runs the job of a check whose target answers with an error, and gets it once more.
use link_alive.Common.{
  ℕ, ◌≡◌, refl, true, false, none, some, List, [], ◌∷◌, Result, ok, throw, length, text, trim,
}
use link_alive.Domain.Types.{ScheduledCheckStatus, MonitorHealth, at}
use link_alive.Domain.StateMachine.{
  apply_check_result, assert_state, assert_transition_input, decide_result,
}
use link_alive.Monitoring.UrlPolicy.Urls.{Url}
use link_alive.Monitoring.Checker.Config.{get}
use link_alive.Monitoring.Checker.Failures.{unknown, no_object}
use link_alive.Monitoring.Checker.Keyword.{ended}
use link_alive.Monitoring.Checker.Requests.{Calls}
use link_alive.Worker.CheckProcessor.World.{World, CommitError, create_outbox_row}
use link_alive.Worker.CheckProcessor.Commit.{ProcessStatus, create_outbox}
use link_alive.Worker.CheckProcessor.Process.{Worker, process}
use link_alive.Worker.CheckProcessor.Tests.{running, before}

abbrev address_of : List ℕ → Url
address_of s = record {
  protocol = text "https:";
  username = [];
  password = [];
  hostname = s;
  rest = text "/";
  search = [];
  hash = [];
}

abbrev broken_server : Calls
broken_server = record {
  api = record {
    parse = λ s. some (address_of s);
    join = λ s base. none;
    to_text = λ u. u.hostname;
    is_ip = λ s. 0;
  };
  resolve = λ hop host. ok (record { address = text "203.0.113.9"; family = 4 } ∷ []);
  limiter = none;
  request = λ hop destination request.
      ok (record { status_code = 500; headers = []; body = λ decompressor. ended });
  close = λ hop. ok tt;
  decoder = record {
    State = Unit;
    start = tt;
    decode = λ state bytes stream. (bytes, tt);
    flush = λ state. [];
  };
  cookie_of = λ cookies url. [];
  byte_length = λ s. length s;
  elapsed = λ hop. 20;
  answered = λ hop. 40;
  total_ms = 60;
  started_at = at 61000;
  finished_at = at 61060;
  aborted = false;
  abort_reason = unknown no_object;
}

abbrev worker : Worker
worker = record {
  instance_id = 9;
  lease_ms = 45000;
  columns = record {
    request_url_encrypted = text "shop.test";
    method = get;
    timeout_ms = 10000;
    expected_status_min = 200;
    expected_status_max = 299;
    expected_keyword = none;
    follow_redirects = true;
    max_redirects = 5;
  };
  decrypt = λ s. some s;
  calls = λ is_retry. broken_server;
  inspections = none;
  others = λ is_claimed w. w;
  now = 61000;
  failed_at = 61000;
  retry_at = 61060;
  message = [];
  reason = [];
}

abbrev waiting : World
waiting = record before {
  check = some (record running {
    status = ScheduledCheckStatus.enqueued;
    lease_owner = none;
    lease_until = none;
    started_at = none;
  });
}

abbrev world_of : Result CommitError (ProcessStatus × World) → World
world_of (ok (s, u)) = u
world_of (throw e) = waiting

abbrev after : World
after = world_of (process worker 3 waiting)

goes_down : after.monitor.state.health_state ≡ MonitorHealth.down
unfolding process trim apply_check_result assert_state assert_transition_input decide_result
    create_outbox create_outbox_row
goes_down = refl
