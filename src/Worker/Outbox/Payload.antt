-- ===== src/Worker/Outbox/Payload.antt =====
-- apps/worker/src/notification-payload.ts: what a notification says, as JSON and back.
use link_alive.Common.{
  ℕ, ◌-◌, Bool, false, Option, none, some, List, ◌++◌, text, take, if◌then◌else◌, is_empty,
}
use link_alive.Common.Json.{
  Json, null, boolean, number, string, object, Members, no_members, member, get_member,
}
use link_alive.Domain.Types.{CheckErrorType, NotificationEventType}
use link_alive.Worker.Delivery.{is_down}

-- `CheckErrorType` and `NotificationEventType` are texts in the source.
abbrev pub error_name : CheckErrorType → List ℕ
error_name CheckErrorType.dns_error = text "DNS_ERROR"
error_name CheckErrorType.connect_timeout = text "CONNECT_TIMEOUT"
error_name CheckErrorType.connection_refused = text "CONNECTION_REFUSED"
error_name CheckErrorType.tls_error = text "TLS_ERROR"
error_name CheckErrorType.ttfb_timeout = text "TTFB_TIMEOUT"
error_name CheckErrorType.request_timeout = text "REQUEST_TIMEOUT"
error_name CheckErrorType.redirect_error = text "REDIRECT_ERROR"
error_name CheckErrorType.http_status_mismatch = text "HTTP_STATUS_MISMATCH"
error_name CheckErrorType.content_mismatch = text "CONTENT_MISMATCH"
error_name CheckErrorType.response_limit_exceeded = text "RESPONSE_LIMIT_EXCEEDED"
error_name CheckErrorType.network_error = text "NETWORK_ERROR"
error_name CheckErrorType.platform_error = text "PLATFORM_ERROR"

abbrev pub event_text : NotificationEventType → List ℕ
event_text NotificationEventType.network_recovery = text "NETWORK_RECOVERY"
event_text NotificationEventType.down = text "DOWN"
event_text NotificationEventType.recovery = text "RECOVERY"
event_text NotificationEventType.resolved_summary = text "RESOLVED_SUMMARY"
event_text NotificationEventType.test = text "TEST"

-- The operator of JavaScript that takes the second value where the first is null.
infixr 6 ◌otherwise◌
abbrev pub ◌otherwise◌ {ℓ} : {A : Type ℓ} → Option A → Option A → Option A
none otherwise b = b
some a otherwise b = some a

abbrev pub or_null : Option (List ℕ) → Json
or_null none = null
or_null (some s) = string s

abbrev pub number_or_null : Option ℕ → Json
number_or_null none = null
number_or_null (some n) = number n

abbrev pub named : Option CheckErrorType → Option (List ℕ)
named none = none
named (some e) = some (error_name e)

pub record PayloadMonitor : Type 0 where
  pub id : List ℕ
  pub name : List ℕ
  pub display_url : List ℕ

pub record PayloadIncident : Type 0 where
  pub detected_at : ℕ
  pub resolved_at : Option ℕ
  pub first_failure_at : ℕ
  pub first_error_type : Option CheckErrorType
  pub last_error_type : Option CheckErrorType

-- What is read of the result of the check, where there is one.
pub record PayloadResult : Type 0 where
  pub finished_at : ℕ
  pub error_type : Option CheckErrorType
  pub error_message_safe : Option (List ℕ)
  pub status_code : Option ℕ
  pub ttfb_ms : Option ℕ

pub record PayloadOptions : Type 0 where
  pub event_type : NotificationEventType
  pub monitor : PayloadMonitor
  pub incident : PayloadIncident
  pub result : Option PayloadResult
  pub app_base_url : Option (List ℕ)
  pub notify_on_recovery : Bool

pub record SafeNotificationPayload : Type 0 where
  pub event_type : NotificationEventType
  pub monitor_name : List ℕ
  pub display_url : List ℕ
  pub occurred_at : List ℕ
  pub error_type : Option (List ℕ)
  pub error_message_safe : Option (List ℕ)
  pub status_code : Option ℕ
  pub ttfb_ms : Option ℕ
  pub duration_ms : Option ℕ
  pub dashboard_url : Option (List ℕ)
  pub network_started_at : Option (List ℕ)

-- `result?.field`
abbrev pub of_result {ℓ} :
    {A : Type ℓ} → Option PayloadResult → (PayloadResult → Option A) → Option A
of_result none field = none
of_result (some r) field = field r

abbrev pub or_else {ℓ} : {A : Type ℓ} → Option A → A → A
or_else none a = a
or_else (some b) a = b

-- `now` is `new Date()`.
unfoldable pub occurred_at : PayloadOptions → ℕ → ℕ
occurred_at o now =
    if is_down o.event_type
    then o.incident.detected_at
    else or_else (o.incident.resolved_at otherwise of_result o.result (λ r. some r.finished_at)) now

abbrev pub error_of : PayloadOptions → Option CheckErrorType
error_of o =
    of_result o.result (λ r. r.error_type)
    otherwise (o.incident.last_error_type otherwise o.incident.first_error_type)

-- The two optional members.
abbrev pub with_duration : PayloadOptions → Members → Members
with_duration o ms = elim o.incident.resolved_at [
  | none ↦ ms
  | some t ↦
      if is_down o.event_type
      then ms
      else member (text "durationMs") (number (t - o.incident.first_failure_at)) ms
]

abbrev pub members_of : Json → Members
members_of (object ms) = ms
members_of _ = no_members

abbrev pub nullable_string : Option Json → Option (List ℕ)
nullable_string (some (string s)) = some s
nullable_string _ = none

abbrev pub nullable_number : Option Json → Option ℕ
nullable_number (some (number n)) = some n
nullable_number _ = none

module _ (encode_uri_component : List ℕ → List ℕ) (to_iso_string : ℕ → List ℕ) where
  abbrev pub dashboard_url : List ℕ → List ℕ → List ℕ
  dashboard_url base id = base ++ (text "/monitors/" ++ encode_uri_component id)

  abbrev pub with_dashboard : PayloadOptions → Members → Members
  with_dashboard o ms = elim o.app_base_url [
    | none ↦ ms
    | some base ↦
        if is_empty base
        then ms
        else member (text "dashboardUrl") (string (dashboard_url base o.monitor.id)) ms
  ]

  unfoldable pub make_notification_payload : ℕ → PayloadOptions → Json
  unfolding occurred_at
  make_notification_payload now o = object (
      member (text "eventType") (string (event_text o.event_type)) (
        member (text "monitorName") (string (take 160 o.monitor.name)) (
          member (text "displayUrl") (string o.monitor.display_url) (
            member (text "occurredAt") (string (to_iso_string (occurred_at o now))) (
              member (text "errorType") (or_null (named (error_of o))) (
                member (text "errorMessageSafe")
                  (or_null (of_result o.result (λ r. r.error_message_safe)))
                  (member (text "statusCode")
                    (number_or_null (of_result o.result (λ r. r.status_code)))
                    (member (text "ttfbMs") (number_or_null (of_result o.result (λ r. r.ttfb_ms))) (
                      member (text "notifyOnRecovery") (boolean o.notify_on_recovery)
                        (with_duration o (with_dashboard o no_members)))))))))))

  unfoldable pub parse_notification_payload :
      ℕ → Json → NotificationEventType → SafeNotificationPayload
  parse_notification_payload now value event_type =
      let ms = members_of value in
      record {
        event_type = event_type;
        monitor_name =
            or_else (nullable_string (get_member (text "monitorName") ms)) (text "이름 없는 모니터");
        display_url =
            or_else (nullable_string (get_member (text "displayUrl") ms)) (text "(URL 숨김)");
        occurred_at =
            or_else (nullable_string (get_member (text "occurredAt") ms)) (to_iso_string now);
        error_type = nullable_string (get_member (text "errorType") ms);
        error_message_safe = nullable_string (get_member (text "errorMessageSafe") ms);
        status_code = nullable_number (get_member (text "statusCode") ms);
        ttfb_ms = nullable_number (get_member (text "ttfbMs") ms);
        duration_ms = nullable_number (get_member (text "durationMs") ms);
        dashboard_url = nullable_string (get_member (text "dashboardUrl") ms);
        network_started_at = nullable_string (get_member (text "networkStartedAt") ms);
      }

abbrev pub is_yes : Option Json → Bool
is_yes (some (boolean b)) = b
is_yes _ = false

unfoldable pub payload_allows_recovery : Json → Bool
payload_allows_recovery (object ms) = is_yes (get_member (text "notifyOnRecovery") ms)
payload_allows_recovery _ = false
