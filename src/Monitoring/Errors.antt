-- ===== src/Monitoring/Errors.antt =====
-- packages/monitoring/src/errors.ts: the failures of a check.
use link_alive.Common.{ℕ, Option, none, some, List, text}
use link_alive.Domain.Types.{CheckOutcome, CheckErrorType}

-- The class of the error object, which `instanceof` tells apart.
pub data FailureClass : Type 0 where
  check_failure url_policy redirect_policy destination_limiter : FailureClass

pub record CheckFailure : Type 0 where
  pub class : FailureClass
  pub outcome : CheckOutcome
  pub error_type : CheckErrorType
  pub safe_message : List ℕ

unfoldable pub url_policy_error : List ℕ → CheckFailure
url_policy_error safe_message = record {
  class = url_policy;
  outcome = CheckOutcome.inconclusive;
  error_type = CheckErrorType.dns_error;
  safe_message = safe_message;
}

unfoldable pub redirect_policy_error : List ℕ → CheckFailure
redirect_policy_error safe_message = record {
  class = redirect_policy;
  outcome = CheckOutcome.target_failure;
  error_type = CheckErrorType.redirect_error;
  safe_message = safe_message;
}

unfoldable pub destination_limiter_error : List ℕ → CheckFailure
destination_limiter_error safe_message = record {
  class = destination_limiter;
  outcome = CheckOutcome.platform_error;
  error_type = CheckErrorType.platform_error;
  safe_message = safe_message;
}

-- `new CheckFailure('TARGET_FAILURE', error_type, safe_message)`
abbrev pub target_failure : CheckErrorType → List ℕ → CheckFailure
target_failure error_type safe_message = record {
  class = check_failure;
  outcome = CheckOutcome.target_failure;
  error_type = error_type;
  safe_message = safe_message;
}

-- `abortError`, whose reason has a default.
unfoldable pub abort_error : Option (List ℕ) → CheckFailure
abort_error none = target_failure CheckErrorType.request_timeout (text "요청 제한 시간이 초과되었습니다.")
abort_error (some reason) = target_failure CheckErrorType.request_timeout reason
