-- ===== src/Worker/Outbox/RoundTrip.antt =====
-- A payload is read back as it was made.
use link_alive.Common.{ℕ, ◌-◌, ◌≡◌, Option, none, some, List, take, if◌then◌else◌, is_empty, arith}
use link_alive.Domain.Types.{NotificationEventType}
use link_alive.Worker.Delivery.{is_down}
use link_alive.Worker.Outbox.Payload.{
  PayloadOptions, SafeNotificationPayload, of_result, error_of, named, occurred_at, dashboard_url,
  make_notification_payload, parse_notification_payload, payload_allows_recovery,
}

module _ (encode_uri_component : List ℕ → List ℕ) (to_iso_string : ℕ → List ℕ) where
  -- What the reader of a payload gets of the options it was made from.
  abbrev pub duration_of : PayloadOptions → Option ℕ
  duration_of o = elim o.incident.resolved_at [
    | none ↦ none
    | some t ↦ if is_down o.event_type then none else some (t - o.incident.first_failure_at)
  ]

  abbrev pub dashboard_of : PayloadOptions → Option (List ℕ)
  dashboard_of o = elim o.app_base_url [
    | none ↦ none
    | some base ↦
        if is_empty base
        then none
        else some (dashboard_url encode_uri_component to_iso_string base o.monitor.id)
  ]

  abbrev pub content_of : ℕ → PayloadOptions → NotificationEventType → SafeNotificationPayload
  content_of now o event_type = record {
    event_type = event_type;
    monitor_name = take 160 o.monitor.name;
    display_url = o.monitor.display_url;
    occurred_at = to_iso_string (occurred_at o now);
    error_type = named (error_of o);
    error_message_safe = of_result o.result (λ r. r.error_message_safe);
    status_code = of_result o.result (λ r. r.status_code);
    ttfb_ms = of_result o.result (λ r. r.ttfb_ms);
    duration_ms = duration_of o;
    dashboard_url = dashboard_of o;
    network_started_at = none;
  }

  -- A payload that makeNotificationPayload made is read back by parseNotificationPayload with the
  -- name cut to 160 units, the times, the error, the response, the duration of a recovery with a
  -- resolved incident and the link, whatever of them there is, and with the wish for a recovery.
  pub parse-make_notification_payload :
      (made read : ℕ) (o : PayloadOptions) (event_type : NotificationEventType)
      → (parse_notification_payload encode_uri_component to_iso_string read
            (make_notification_payload encode_uri_component to_iso_string made o)
            event_type
          ≡ content_of made o event_type)
        × (payload_allows_recovery
              (make_notification_payload encode_uri_component to_iso_string made o)
            ≡ o.notify_on_recovery)
  unfolding parse_notification_payload make_notification_payload payload_allows_recovery
  parse-make_notification_payload made read o event_type = ground arith
