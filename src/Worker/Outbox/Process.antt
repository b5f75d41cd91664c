-- ===== src/Worker/Outbox/Process.antt =====
-- apps/worker/src/notification-processor.ts: `process`, over the calls of the provider.
use link_alive.Common.{
  ℕ, Bool, true, false, Option, none, some, List, Result, ok, throw, text, ◌>>=◌,
}
use link_alive.Common.Json.{Json, object, get_member}
use link_alive.Worker.Outbox.Rows.{NotificationOutbox, Outbox, Surroundings}
use link_alive.Worker.Outbox.Claims.{ClaimError, ClaimedNotification, claim}
use link_alive.Worker.Outbox.Payload.{
  SafeNotificationPayload, parse_notification_payload, nullable_string,
}
use link_alive.Worker.Outbox.Failure.{NotificationProviderError, mark_failed, will_retry}
use link_alive.Worker.Outbox.Success.{mark_sent}

pub record TelegramDestination : Type 0 where
  pub bot_token : List ℕ
  pub chat_id : List ℕ

-- What the calls throw: the error of a provider, or another one.
pub data SendError : Type 0 where
  provider_error : NotificationProviderError → SendError
  other_error : SendError

-- Decryption of a destination, and the provider's `send`, which answers with the provider's id of
-- the message.
pub record Provider : Type 0 where
  pub decrypt_json : List ℕ → Result SendError Json
  pub send :
      SafeNotificationPayload
      → TelegramDestination
      → (message_id : List ℕ) → Result SendError (Option (List ℕ))

abbrev pub final_error : List ℕ → NotificationProviderError
final_error message = record {
  retryable = false;
  delivery_uncertain = false;
  safe_message = message;
  retry_after_ms = none;
}

abbrev pub config_error : List ℕ → SendError
config_error message = provider_error (final_error message)

abbrev pub destination_of : Option (List ℕ) → Option (List ℕ) → Result SendError TelegramDestination
destination_of (some bot_token) (some chat_id) =
    ok (record { bot_token = bot_token; chat_id = chat_id })
destination_of _ _ = throw (config_error (text "Telegram bot 또는 채팅 대상이 설정되어 있지 않습니다."))

unfoldable pub telegram_destination : Json → Result SendError TelegramDestination
telegram_destination (object ms) =
    destination_of (nullable_string (get_member (text "botToken") ms))
      (nullable_string (get_member (text "chatId") ms))
telegram_destination _ = throw (config_error (text "Telegram 채널 설정을 읽을 수 없습니다."))

-- The `try` block around the provider's call.
unfoldable pub deliver :
    Provider → SafeNotificationPayload → NotificationOutbox → Result SendError (Option (List ℕ))
unfolding telegram_destination
deliver provider payload o = do
  channel_config ← provider.decrypt_json o.encrypted_config_snapshot
  destination ← (elim o.is_telegram [
    | true ↦ telegram_destination channel_config
    | false ↦ throw (config_error (text "지원하지 않는 알림 채널입니다."))
  ])
  provider.send payload destination o.message_id

-- The error that `markFailed` is given.
abbrev pub provider_error_of : SendError → NotificationProviderError
provider_error_of (provider_error e) = e
provider_error_of other_error = final_error (text "알림을 안전하게 처리하지 못했습니다.")

-- `not_persisted` is the NotificationPersistenceError.
pub data ProcessResult : Type 0 where
  sent retry failed ignored not_persisted : ProcessResult

module _ (instance_id lease_ms : ℕ) (message_id : (incident_id channel_id : ℕ) → List ℕ → List ℕ)
    (encode_uri_component : List ℕ → List ℕ) (to_iso_string : ℕ → List ℕ) where
  -- What follows the answer of the provider. `commits` says whether the transaction of `markSent`
  -- goes through; where not, the outbox stays as the claim left it.
  unfoldable pub finish :
      Surroundings
      → (now random : ℕ) → (commits : Bool) → ClaimedNotification
      → Result SendError (Option (List ℕ))
      → Outbox
      → ProcessResult × Outbox
  finish db now random commits c (throw e) s =
      let error = provider_error_of e in
      (
        elim (will_retry c error) [ true ↦ retry | false ↦ failed ],
        mark_failed now random c error s,
      )
  finish db now random true c (ok provider_message_id) s =
      (sent, mark_sent message_id encode_uri_component to_iso_string db now c provider_message_id s)
  finish db now random false c (ok provider_message_id) s = (not_persisted, s)

  unfoldable pub process_claimed :
      Provider
      → Surroundings
      → (now random : ℕ) → (commits : Bool) → Option ClaimedNotification × Outbox
      → ProcessResult × Outbox
  unfolding finish
  process_claimed provider db now random commits (none, s) = (ignored, s)
  process_claimed provider db now random commits (some c, s) =
      finish db now random commits c
        (deliver provider
          (parse_notification_payload encode_uri_component to_iso_string now c.outbox.payload_safe
            c.outbox.event_type)
          c.outbox)
        s

  -- The claim is made at `now`, and its answer is written at `later`.
  unfoldable pub process :
      Provider
      → Surroundings
      → (id now later random : ℕ) → (commits : Bool) → Outbox
      → Result ClaimError (ProcessResult × Outbox)
  unfolding process_claimed
  process provider db id now later random commits s = do
    claimed ← claim instance_id lease_ms db now id s
    ok (process_claimed provider db later random commits claimed)
