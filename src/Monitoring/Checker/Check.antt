-- ===== src/Monitoring/Checker/Check.antt =====
-- packages/monitoring/src/checker.ts: a check from its configuration to its result.
use link_alive.Common.{
  ℕ, Bool, true, false, ◌&&◌, none, some, List, [], Result, ok, throw, text, take, map, ◌==◌, ◌||◌,
  ltb, if◌then◌else◌,
}
use link_alive.Domain.Types.{CheckSource, CheckOutcome, CheckErrorType}
use link_alive.Monitoring.Types.{MonitorCheckResult}
use link_alive.Monitoring.Errors.{CheckFailure, FailureClass, url_policy, redirect_policy_error}
use link_alive.Monitoring.UrlPolicy.Urls.{display_url}
use link_alive.Monitoring.Checker.Config.{
  MonitorCheckConfig, NormalizedConfig, normalize_config, fallback_config,
}
use link_alive.Monitoring.Checker.Failures.{Thrown, failure, unknown, classify_unknown_error}
use link_alive.Monitoring.Checker.Session.{Session}
use link_alive.Monitoring.Checker.Requests.{Calls}
use link_alive.Monitoring.Checker.Hops.{requests, release_caught}

abbrev pub start_session : NormalizedConfig → Session
start_session config = record {
  current_url = config.url;
  status_code = none;
  ttfb_ms = none;
  redirects = 0;
  inspected_body_bytes = 0;
  has_response = false;
  has_lease = false;
  visited = [];
  cookies = [];
  acquired = 0;
  released = 0;
}

abbrev pub is_url_policy : FailureClass → Bool
is_url_policy url_policy = true
is_url_policy _ = false

-- A URL that is refused after a redirect is an error of the redirect.
unfoldable pub policy_error : Thrown → (redirects : ℕ) → Thrown
policy_error (unknown e) redirects = unknown e
policy_error (failure f) redirects =
    if is_url_policy f.class && ltb 0 redirects
    then failure (redirect_policy_error (text "리다이렉트 대상 URL을 검사할 수 없습니다."))
    else failure f

module _ (calls : Calls) (config : NormalizedConfig) where
  open calls use {api, started_at, finished_at, total_ms, aborted}

  unfoldable pub result_from_failure : CheckFailure → Session → MonitorCheckResult
  unfolding display_url
  result_from_failure f s = record {
    source = config.source;
    outcome = f.outcome;
    config_version = config.config_version;
    started_at = started_at;
    finished_at = finished_at;
    status_code = s.status_code;
    ttfb_ms = s.ttfb_ms;
    total_ms = total_ms;
    error_type = some f.error_type;
    error_message_safe = some f.safe_message;
    final_url_display = display_url api s.current_url;
    redirect_count = s.redirects;
    inspected_body_bytes = s.inspected_body_bytes;
  }

  unfoldable pub success_result : Session → MonitorCheckResult
  unfolding display_url
  success_result s = record {
    source = config.source;
    outcome = CheckOutcome.success;
    config_version = config.config_version;
    started_at = started_at;
    finished_at = finished_at;
    status_code = s.status_code;
    ttfb_ms = s.ttfb_ms;
    total_ms = total_ms;
    error_type = none;
    error_message_safe = none;
    final_url_display = display_url api s.current_url;
    redirect_count = s.redirects;
    inspected_body_bytes = s.inspected_body_bytes;
  }

  unfoldable pub caught : Thrown × Session → MonitorCheckResult × Session
  unfolding policy_error classify_unknown_error result_from_failure
  caught (e, s) =
      (result_from_failure (classify_unknown_error (policy_error e s.redirects) aborted) s, s)

  unfoldable pub conclude : Result Thrown (Unit {0}) × Session → MonitorCheckResult × Session
  unfolding success_result caught release_caught
  conclude (ok done, s) = (success_result s, s)
  conclude (throw e, s) = caught (release_caught calls config e s)

  -- `checkUrl` for a configuration that has been normalized.
  unfoldable pub run_check : MonitorCheckResult × Session
  unfolding conclude requests
  run_check = conclude (requests calls config config.max_redirects (start_session config))

abbrev pub check_normalized :
    Calls → MonitorCheckConfig → Result CheckFailure NormalizedConfig → MonitorCheckResult × Session
check_normalized calls input (ok config) = run_check calls config
check_normalized calls input (throw f) =
    let config = fallback_config input in
    (
      result_from_failure calls config (classify_unknown_error (failure f) false)
          (start_session config),
      start_session config,
    )

-- `checkUrl`: the result, and the variables at its end.
unfoldable pub check_url : Calls → MonitorCheckConfig → MonitorCheckResult × Session
unfolding normalize_config fallback_config run_check
check_url calls input = check_normalized calls input (normalize_config calls.byte_length input)

-- `isStateBearingResult`
abbrev pub is_scheduled : CheckSource → Bool
is_scheduled CheckSource.scheduled = true
is_scheduled _ = false

abbrev pub is_conclusive : CheckOutcome → Bool
is_conclusive CheckOutcome.success = true
is_conclusive CheckOutcome.target_failure = true
is_conclusive CheckOutcome.platform_error = false
is_conclusive CheckOutcome.inconclusive = false

unfoldable pub is_state_bearing_result : MonitorCheckResult → Bool
is_state_bearing_result result = is_scheduled result.source && is_conclusive result.outcome

-- The characters that would break a line, or a column, of a log.
abbrev pub one_line : ℕ → ℕ
one_line c = if c == 13 || c == 10 || c == 9 then 32 else c

pub record SafeFailure : Type 0 where
  pub outcome : CheckOutcome
  pub error_type : CheckErrorType
  pub error_message_safe : List ℕ

unfoldable pub safe_failure : CheckOutcome → CheckErrorType → List ℕ → SafeFailure
safe_failure outcome error_type message = record {
  outcome = outcome;
  error_type = error_type;
  error_message_safe = take 500 (map one_line message);
}
