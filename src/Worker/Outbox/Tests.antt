-- ===== src/Worker/Outbox/Tests.antt =====
-- A DOWN event and its recovery go through the outbox, and runs of single functions.
use link_alive.Common.{
  ℕ, ◌≤◌, ◌<◌, ◌≡◌, ◌⊎◌, refl, true, false, Option, none, some, List, [], ◌∷◌, Result, ok, throw,
  arith, count, text,
}
use link_alive.Common.Json.{boolean, object, no_members, member, string}
use link_alive.Domain.Types.{CheckErrorType, NotificationEventType, NotificationOutboxStatus}
use link_alive.Worker.Delivery.{should_retain_notification_secret}
use link_alive.Worker.Outbox.Rows.{NotificationOutbox, NotificationDelivery, Outbox, Surroundings}
use link_alive.Worker.Outbox.Claims.{ClaimError, ClaimedNotification, is_attempt_of, claim}
use link_alive.Worker.Outbox.Payload.{
  PayloadOptions, make_notification_payload, parse_notification_payload, payload_allows_recovery,
}
use link_alive.Worker.Outbox.RoundTrip.{content_of, parse-make_notification_payload}
use link_alive.Worker.Outbox.Dispatch.{NotificationQueue}
use link_alive.Worker.Outbox.Scan.{dispatch}
use link_alive.Worker.Outbox.Failure.{NotificationProviderError, mark_failed}
use link_alive.Worker.Outbox.Success.{mark_sent}
use link_alive.Worker.Outbox.Process.{Provider}
use link_alive.Worker.Outbox.Steps.{
  System, Among, first, further, remember, attempted, answered, Reaches, no_step, next_step,
}
use link_alive.Worker.Outbox.Evolution.{HasSentDown, Carried}
use link_alive.Worker.Outbox.Invariant.{has_outbox_id}
use link_alive.Worker.Outbox.Reached.{
  IsConsistent, Reaches-Carried, Reaches-follows_down, Reaches-attempts,
}
use link_alive.Worker.Outbox.Bounded.{EndsWithin, dispatch-EndsWithin}
use link_alive.Worker.Outbox.Retries.{IsRetried, IsOver, Becomes, mark_failed-current}

abbrev row : (id : ℕ) → NotificationEventType → NotificationOutbox
row id event_type = record {
  id = id;
  monitor_id = some 7;
  incident_id = some 5;
  channel_id = 4;
  event_type = event_type;
  sequence = 1;
  payload_safe = object (member (text "notifyOnRecovery") (boolean true) no_members);
  message_id = id ∷ [];
  encrypted_config_snapshot = 1 ∷ 2 ∷ [];
  is_telegram = true;
  status = NotificationOutboxStatus.pending;
  available_at = 100;
  created_at = 100;
  attempt_count = 0;
  max_attempts = 3;
  lease_owner = none;
  lease_until = none;
  queue_job_id = none;
  last_error_safe = none;
  enqueued_at = none;
  processing_at = none;
  sent_at = none;
  failed_at = none;
  canceled_at = none;
}

abbrev surroundings : Surroundings
surroundings = record {
  is_live = λ c. true;
  notifies_recovery = λ m c. true;
  incident = λ i. none;
  monitor = λ m. none;
}

abbrev new_id : (incident_id channel_id : ℕ) → List ℕ → List ℕ
new_id incident_id channel_id s = s

abbrev same_text : List ℕ → List ℕ
same_text s = s

abbrev iso : ℕ → List ℕ
iso t = t ∷ []

abbrev start : System
start = record {
  outbox = record {
    rows = row 1 NotificationEventType.down ∷ row 2 NotificationEventType.recovery ∷ [];
    deliveries = [];
    next_id = 3;
  };
  running = [];
}

start-IsConsistent : IsConsistent start
start-IsConsistent = record {
  carried = λ o among. elim among [ ];
  unique = omega arith;
  fresh = omega arith;
  sound = (
    record { started = λ active. ground arith; bounded = omega arith },
    (record { started = λ active. ground arith; bounded = omega arith }, tt),
  );
  ordered = (
    λ recovers i has positive. absurd (omega arith),
    (λ recovers i has positive. absurd (omega arith), tt),
  );
  under_way = tt;
  counted = (refl, (refl, tt));
  single = λ id. omega arith;
  delivered = tt;
}

abbrev outbox_of : Outbox → Result ClaimError (Option ClaimedNotification × Outbox) → Outbox
outbox_of s (throw e) = s
outbox_of s (ok (c, t)) = t

abbrev claim_of :
    Result ClaimError (Option ClaimedNotification × Outbox) → Option ClaimedNotification
claim_of (throw e) = none
claim_of (ok (c, t)) = c

-- Processor 9 claims the notification of the id at the time, for 1000 ms.
abbrev claiming : (now id : ℕ) → System → System
claiming now id s =
    let r = claim 9 1000 surroundings now id s.outbox in
    record { outbox = outbox_of s.outbox r; running = remember (claim_of r) s.running }

abbrev down_claimed : System
down_claimed = claiming 200 1 start

abbrev claimed_down : ClaimedNotification
claimed_down = record {
  outbox = record (row 1 NotificationEventType.down) {
    status = NotificationOutboxStatus.processing;
    attempt_count = 1;
    processing_at = some 200;
    lease_owner = some 9;
    lease_until = some 1200;
  };
  delivery_id = 3;
  delivery_attempt = 1;
}

abbrev down_sent : System
down_sent = record down_claimed {
  outbox = mark_sent new_id same_text iso surroundings 300 claimed_down none down_claimed.outbox;
}

abbrev recovery_claimed : System
recovery_claimed = claiming 400 2 down_sent

down_path : Reaches new_id same_text iso start down_sent
unfolding claim
down_path =
    next_step down_claimed down_sent
      (next_step start down_claimed no_step (attempted surroundings 9 1000 200 1 _ _ refl))
      (answered surroundings 300 claimed_down none first)

-- Before the DOWN event is sent, its recovery cannot be claimed.
recovery_waits : claim_of (claim 9 1000 surroundings 200 2 start.outbox) ≡ none
unfolding claim
recovery_waits = refl

recovery_path : Reaches new_id same_text iso start recovery_claimed
unfolding claim mark_sent should_retain_notification_secret payload_allows_recovery
recovery_path =
    next_step down_sent recovery_claimed down_path (attempted surroundings 9 1000 400 2 _ _ refl)

-- The recovery that has been claimed.
abbrev claimed_recovery : NotificationOutbox
claimed_recovery = record (row 2 NotificationEventType.recovery) {
  status = NotificationOutboxStatus.processing;
  attempt_count = 1;
  processing_at = some 400;
  lease_owner = some 9;
  lease_until = some 1400;
}

claimed_recovery-Among : Among claimed_recovery recovery_claimed.outbox.rows
unfolding claim mark_sent should_retain_notification_secret payload_allows_recovery
claimed_recovery-Among = further first

Reaches-follows_down_example : HasSentDown 5 4 recovery_claimed.outbox.rows
Reaches-follows_down_example =
    Reaches-follows_down new_id same_text iso start recovery_claimed claimed_recovery 5
      recovery_path start-IsConsistent claimed_recovery-Among refl refl refl

Reaches-Carried_example : Carried start.outbox.rows recovery_claimed.outbox.rows
Reaches-Carried_example =
    Reaches-Carried new_id same_text iso start recovery_claimed recovery_path start-IsConsistent

Reaches-attempts_example :
    (count (has_outbox_id 2) recovery_claimed.outbox.deliveries ≡ 1)
    × (1 ≤ 3)
    × (count (is_attempt_of 2) recovery_claimed.outbox.deliveries ≤ 1)
    × ((d : NotificationDelivery)
        → Among d recovery_claimed.outbox.deliveries
        → 2 ≡ d.outbox_id
        → d.message_id ≡ claimed_recovery.message_id)
    × ((db : Surroundings) (instance_id lease_ms now id : ℕ)
        → (r : Option ClaimedNotification × Outbox) × (claim instance_id lease_ms db now id
              recovery_claimed.outbox
            ≡ ok r))
Reaches-attempts_example =
    Reaches-attempts new_id same_text iso start recovery_claimed claimed_recovery recovery_path
      start-IsConsistent claimed_recovery-Among

-- A queue that takes every job.
abbrev open_queue : NotificationQueue
open_queue = record {
  Queue = Unit {0};
  QueueError = Unit {0};
  get_job = λ id q. ok none;
  remove = λ id q. (ok tt, q);
  add = λ id q. (ok tt, q);
}

dispatch-EndsWithin_example :
    EndsWithin open_queue 8 1000
      (λ c. true)
      5
      start.outbox.rows
      (dispatch open_queue 8 1000 (λ c. true) 200 5 tt start.outbox.rows)
dispatch-EndsWithin_example =
    dispatch-EndsWithin open_queue 8 1000 (λ c. true) 200 5 tt start.outbox.rows

abbrev timeout : NotificationProviderError
timeout = record {
  retryable = true;
  delivery_uncertain = true;
  safe_message = text "timeout";
  retry_after_ms = some 5000;
}

mark_failed-current_example :
    (timeout.retryable ≡ true
      → 1 < 3
      → Becomes claimed_down.outbox
          (mark_failed 300 0 claimed_down timeout down_claimed.outbox).rows
          (IsRetried 300 timeout))
    × ((timeout.retryable ≡ false) ⊎ (3 ≤ 1)
        → Becomes claimed_down.outbox
            (mark_failed 300 0 claimed_down timeout down_claimed.outbox).rows
            IsOver)
unfolding claim
mark_failed-current_example =
    mark_failed-current 300 0 claimed_down timeout down_claimed.outbox claimed_down.outbox
      (omega arith) refl first

-- A provider that takes every message.
abbrev open_provider : Provider
open_provider = record {
  decrypt_json = λ secret. ok (
      object (
        member (text "botToken") (string (text "t"))
          (member (text "chatId") (string (text "c")) no_members)));
  send = λ payload destination message_id. ok (some message_id);
}

abbrev options : PayloadOptions
options = record {
  event_type = NotificationEventType.down;
  monitor = record { id = text "m"; name = text "Shop"; display_url = text "https://shop.test/" };
  incident = record {
    detected_at = 90;
    resolved_at = none;
    first_failure_at = 60;
    first_error_type = some CheckErrorType.dns_error;
    last_error_type = some CheckErrorType.tls_error;
  };
  result = none;
  app_base_url = some (text "https://app.test");
  notify_on_recovery = true;
}

parse-make_notification_payload_example :
    (parse_notification_payload same_text iso 5
        (make_notification_payload same_text iso 4 options)
        NotificationEventType.down
      ≡ content_of same_text iso 4 options NotificationEventType.down)
    × (payload_allows_recovery (make_notification_payload same_text iso 4 options) ≡ true)
parse-make_notification_payload_example =
    parse-make_notification_payload same_text iso 4 5 options NotificationEventType.down
