-- ===== src/Worker/CheckProcessor/Process.antt =====
-- apps/worker/src/check-processor.ts: `process`, from the read of a check to the commit of its result.
use link_alive.Common.{
  ℕ, ◌+◌, ◌-◌, Bool, true, false, not, ◌&&◌, ◌||◌, Option, none, some, List, [], ◌∷◌, Result, ok,
  text, ◌==◌, ltb, if◌then◌else◌,
}
use link_alive.Domain.Types.{
  CheckSource, CheckOutcome, CheckErrorType, ScheduledCheckStatus, new_date,
}
use link_alive.Domain.StateMachine.{is_active}
use link_alive.Monitoring.Types.{MonitorCheckResult}
use link_alive.Monitoring.Checker.Config.{Method, natural, MonitorCheckConfig}
use link_alive.Monitoring.Checker.Requests.{Calls}
use link_alive.Monitoring.Checker.Check.{check_url}
use link_alive.Database.Checks.{ScheduledCheck, is_null}
use link_alive.Worker.NetworkGuard.{Snapshot, NetworkAssessment, assess}
use link_alive.Worker.CheckProcessor.Claims.{claim_for_run, cancel_stale}
use link_alive.Worker.CheckProcessor.World.{World, MonitorRow, CommitError}
use link_alive.Worker.CheckProcessor.Commit.{ProcessStatus, duplicate, canceled, persist}

-- The columns of the monitor that the request is made from.
pub record RequestColumns : Type 0 where
  pub request_url_encrypted : List ℕ
  pub method : Method
  pub timeout_ms : ℕ
  pub expected_status_min : ℕ
  pub expected_status_max : ℕ
  pub expected_keyword : Option (List ℕ)
  pub follow_redirects : Bool
  pub max_redirects : ℕ

-- What a worker knows and what its calls come to. `decrypt` is decryptString with the key, and
-- `calls` has the calls of the check and of the retry; `inspections` are the answers of the network
-- guard, if there is one; and `others` is what other workers do to the rows up to the claim and
-- between the claim and the commit.
pub record Worker : Type 1 where
  pub instance_id : ℕ
  pub lease_ms : ℕ
  pub columns : RequestColumns
  pub decrypt : List ℕ → Option (List ℕ)
  pub calls : (is_retry : Bool) → Calls
  pub inspections : Option (Snapshot × Snapshot)
  pub others : (is_claimed : Bool) → World → World
  pub now : ℕ
  pub failed_at : ℕ
  pub retry_at : ℕ
  pub message : List ℕ
  pub reason : List ℕ

unfoldable pub platform_failure : (version started_at finished_at : ℕ) → MonitorCheckResult
platform_failure version started_at finished_at = record {
  source = CheckSource.scheduled;
  outcome = CheckOutcome.platform_error;
  config_version = some version;
  started_at = new_date started_at;
  finished_at = new_date finished_at;
  status_code = none;
  ttfb_ms = none;
  total_ms = finished_at - started_at;
  error_type = some CheckErrorType.platform_error;
  error_message_safe = some (text "검사 설정을 안전하게 읽지 못했습니다.");
  final_url_display = text "(URL 숨김)";
  redirect_count = 0;
  inspected_body_bytes = 0;
}

abbrev pub make_config : RequestColumns → ℕ → List ℕ → MonitorCheckConfig
make_config m version url = record {
  url = url;
  method = some (some m.method);
  timeout_ms = some (natural m.timeout_ms);
  expected_status_min = some (natural m.expected_status_min);
  expected_status_max = some (natural m.expected_status_max);
  expected_keyword = m.expected_keyword;
  follow_redirects = some m.follow_redirects;
  max_redirects = some (natural m.max_redirects);
  source = some CheckSource.scheduled;
  config_version = some version;
}

-- The row of the check as the list that its statements work on.
abbrev pub to_rows : Option ScheduledCheck → List ScheduledCheck
to_rows none = []
to_rows (some c) = c ∷ []

abbrev pub from_rows : List ScheduledCheck → Option ScheduledCheck
from_rows [] = none
from_rows (c ∷ cs) = some c

abbrev pub with_rows : List ScheduledCheck → World → World
with_rows rows w = record w { check = from_rows rows }

abbrev pub is_completed : ScheduledCheckStatus → Bool
is_completed ScheduledCheckStatus.completed = true
is_completed _ = false

abbrev pub is_current : ℕ → MonitorRow → Bool
is_current version m =
    m.state.config_version == version && is_active m.state.lifecycle_status && is_null m.deleted_at

module _ (worker : Worker) where
  open worker use {
    instance_id, lease_ms, columns, decrypt, calls, inspections, others, now, failed_at, retry_at,
    message, reason,
  }

  -- `runCheck`, which is checkUrl.
  abbrev pub run : (is_retry : Bool) → MonitorCheckConfig → MonitorCheckResult
  run is_retry config = (check_url (calls is_retry) config).0

  -- The retry, or the first result where the lease leaves no time for another check.
  unfoldable pub retry : MonitorCheckConfig → MonitorCheckResult → MonitorCheckResult
  unfolding check_url
  retry config first =
      if ltb (columns.timeout_ms + 10000) (now + lease_ms - retry_at)
      then run true config
      else first

  abbrev pub judged :
      Option (Snapshot × Snapshot) → MonitorCheckConfig → MonitorCheckResult → NetworkAssessment
  judged none config result = record { result = result; outage_id = none }
  judged (some (first, confirmed)) config result =
      assess message result first (retry config result) confirmed

  -- The check, and what the network guard makes of its result.
  unfoldable pub run_assessed : (version : ℕ) → Option (List ℕ) → NetworkAssessment
  unfolding check_url retry assess platform_failure
  run_assessed version none = record {
    result = platform_failure version now failed_at;
    outage_id = none;
  }
  run_assessed version (some url) =
      judged inspections (make_config columns version url)
        (run false (make_config columns version url))

  unfoldable pub commit : (version : ℕ) → World → Result CommitError (ProcessStatus × World)
  unfolding run_assessed persist
  commit version w =
      let assessed = run_assessed version (decrypt columns.request_url_encrypted) in
      persist (not (is_null inspections)) assessed.result assessed.outage_id (others true w)

  -- What follows on the claim.
  unfoldable pub after_claim :
      (version : ℕ)
      → Bool × List ScheduledCheck
      → World
      → Result CommitError (ProcessStatus × World)
  unfolding commit
  after_claim version (false, rows) w = ok (duplicate, w)
  after_claim version (true, rows) w = commit version (with_rows rows w)

  unfoldable pub start : (id version : ℕ) → World → Result CommitError (ProcessStatus × World)
  unfolding claim_for_run after_claim
  start id version w =
      after_claim version (claim_for_run id instance_id now (now + lease_ms) (to_rows w.check)) w

  unfoldable pub process_check :
      (version : ℕ) → ScheduledCheck → World → Result CommitError (ProcessStatus × World)
  unfolding cancel_stale start
  process_check version c w =
      if not (is_null c.result) || is_completed c.status || not (c.config_version == version)
      then ok (duplicate, w)
      else (if not (is_current version w.monitor)
          then (let u = others false w in
              ok (canceled, with_rows (cancel_stale reason c.id now (to_rows u.check)) u))
          else start c.id version (others false w))

  -- `version` is the configuration of the job, and the row of its check stands in `w`.
  unfoldable pub process_found :
      (version : ℕ) → Option ScheduledCheck → World → Result CommitError (ProcessStatus × World)
  unfolding process_check
  process_found version none w = ok (canceled, w)
  process_found version (some c) w = process_check version c w

  unfoldable pub process : (version : ℕ) → World → Result CommitError (ProcessStatus × World)
  unfolding process_found
  process version w = process_found version w.check w
