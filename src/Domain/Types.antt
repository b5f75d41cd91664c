-- ===== src/Domain/Types.antt =====
-- packages/domain/src/types.ts: the constants as data types, and the values of JavaScript that the
-- domain computes with. Numbers are the natural numbers, and a `Date` is a time in milliseconds
-- from 1970 on or the invalid date.
use link_alive.Common.{ℕ, leb, Bool, true, false, ◌&&◌, if◌then◌else◌}

pub data MonitorLifecycle : Type 0 where
  active paused deleted : MonitorLifecycle

pub data MonitorHealth : Type 0 where
  pending up suspect down recovering : MonitorHealth

pub data CheckSource : Type 0 where
  scheduled manual test : CheckSource

pub data CheckOutcome : Type 0 where
  success target_failure platform_error inconclusive : CheckOutcome

pub data CheckErrorType : Type 0 where
  dns_error connect_timeout connection_refused tls_error ttfb_timeout : CheckErrorType
  request_timeout redirect_error http_status_mismatch content_mismatch : CheckErrorType
  response_limit_exceeded network_error platform_error : CheckErrorType

pub data ScheduledCheckStatus : Type 0 where
  pending enqueued running completed failed canceled : ScheduledCheckStatus

pub data IncidentStatus : Type 0 where
  opened resolved canceled : IncidentStatus

pub data IncidentClosureReason : Type 0 where
  recovered paused deleted config_changed : IncidentClosureReason

pub data NotificationEventType : Type 0 where
  network_recovery down recovery resolved_summary test : NotificationEventType

pub data NotificationOutboxStatus : Type 0 where
  pending enqueued processing retry sent failed canceled : NotificationOutboxStatus

pub data NotificationDeliveryStatus : Type 0 where
  attempting succeeded failed unknown : NotificationDeliveryStatus

abbrev pub min_monitor_interval_seconds : ℕ
min_monitor_interval_seconds = 5

abbrev pub max_monitor_interval_seconds : ℕ
max_monitor_interval_seconds = 86400

-- `Number.MAX_SAFE_INTEGER`
abbrev pub max_safe_integer : ℕ
max_safe_integer = 9007199254740991

abbrev pub is_safe_integer : ℕ → Bool
is_safe_integer n = leb n max_safe_integer

-- A natural number is not negative, so this is all of `Number.isSafeInteger(n) && n >= 1`.
abbrev pub is_positive_safe : ℕ → Bool
is_positive_safe n = is_safe_integer n && leb 1 n

pub data Date : Type 0 where
  at : ℕ → Date
  invalid : Date

-- The last time that a `Date` can hold.
abbrev pub max_time : ℕ
max_time = 8640000000000000

-- `new Date(ms)`
abbrev pub new_date : ℕ → Date
new_date ms = if leb ms max_time then at ms else invalid

-- `Number.isNaN(date.getTime())`
abbrev pub is_invalid : Date → Bool
is_invalid (at ms) = false
is_invalid invalid = true

-- The errors that the domain throws, and the refusal of a check by a unique index.
pub data Error : Type 0 where
  config_version_range counters_range failure_threshold_range : Error
  recovery_threshold_range result_config_version_range invalid_date : Error
  deleted_is_final next_config_version_range : Error
  interval_range empty_monitor_id jitter_ratio_range : Error
  empty_identifier malformed_uri attempt_count_range duplicate_check : Error
