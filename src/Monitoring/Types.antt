-- ===== src/Monitoring/Types.antt =====
-- packages/monitoring/src/types.ts: the result of a check. Its enumerations have the words of the
-- domain's.
use link_alive.Common.{ℕ, List, Option}
use link_alive.Domain.Types.{CheckSource, CheckOutcome, CheckErrorType, Date}

pub record MonitorCheckResult : Type 0 where
  pub source : CheckSource
  pub outcome : CheckOutcome
  pub config_version : Option ℕ
  pub started_at : Date
  pub finished_at : Date
  pub status_code : Option ℕ
  pub ttfb_ms : Option ℕ
  pub total_ms : ℕ
  pub error_type : Option CheckErrorType
  pub error_message_safe : Option (List ℕ)
  pub final_url_display : List ℕ
  pub redirect_count : ℕ
  pub inspected_body_bytes : ℕ
