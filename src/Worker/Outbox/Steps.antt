-- ===== src/Worker/Outbox/Steps.antt =====
-- The statements on the outbox as steps, which dispatchers and processors take in any order.
use link_alive.Common.{ℕ, ◌+◌, ◌≡◌, Bool, Option, none, some, List, ◌∷◌, ok}
use link_alive.Domain.Types.{NotificationOutboxStatus}
use link_alive.Worker.Outbox.Rows.{NotificationOutbox, Outbox, Surroundings, SafeError}
use link_alive.Worker.Outbox.Statements.{
  defer_recovery, cancel, claim_available, mark_enqueued, release,
}
use link_alive.Worker.Outbox.Claims.{ClaimedNotification, claim}
use link_alive.Worker.Outbox.Failure.{NotificationProviderError, mark_failed}
use link_alive.Worker.Outbox.Success.{add_row, mark_sent}

-- The statements of the dispatchers.
pub data DispatchStep (rows : List NotificationOutbox) : List NotificationOutbox → Type 0 where
  deferred : (id now : ℕ) → DispatchStep rows (defer_recovery id now rows)
  canceled :
      (id now : ℕ) (reason : SafeError) (retain : Bool)
      → DispatchStep rows (cancel id now reason retain rows)
  claimed :
      (id owner now lease_until : ℕ)
      → DispatchStep rows (claim_available id owner now lease_until rows)
  enqueued :
      (id owner now lease_until : ℕ)
      → DispatchStep rows (mark_enqueued id owner now lease_until rows)
  released : (id owner now : ℕ) → DispatchStep rows (release id owner now rows)

-- Any number of them.
pub data Dispatches (rows : List NotificationOutbox) : List NotificationOutbox → Type 0 where
  no_dispatch : Dispatches rows rows
  next_dispatch :
      (before after : List NotificationOutbox)
      → Dispatches rows before
      → DispatchStep before after
      → Dispatches rows after

-- The outbox, and the notifications that have been claimed so far: a processor that has stopped, or
-- whose lease has run out, may still come back with the answer of its provider.
pub record System : Type 0 where
  pub outbox : Outbox
  pub running : List ClaimedNotification

-- An element of a list.
pub data Among {ℓ} {A : Type ℓ} (a : A) : List A → Type ℓ where
  first : {later : List A} → Among a (a ∷ later)
  further : {b : A} {later : List A} → Among a later → Among a (b ∷ later)

-- The row that a commit puts into the outbox.
pub record IsNew (o : NotificationOutbox) (s : Outbox) : Type 0 where
  pub id : o.id ≡ s.next_id
  pub no_attempts : o.attempt_count ≡ 0
  pub pending : o.status ≡ NotificationOutboxStatus.pending

abbrev pub remember :
    Option ClaimedNotification → List ClaimedNotification → List ClaimedNotification
remember none cs = cs
remember (some c) cs = c ∷ cs

module _ (message_id : (incident_id channel_id : ℕ) → List ℕ → List ℕ)
    (encode_uri_component : List ℕ → List ℕ) (to_iso_string : ℕ → List ℕ) where
  pub data Step (s : System) : System → Type 0 where
    created :
        (o : NotificationOutbox)
        → IsNew o s.outbox
        → Step s (record s {
          outbox = record s.outbox {
            rows = add_row s.outbox.rows o;
            next_id = s.outbox.next_id + 1;
          };
        })
    dispatched :
        (rows : List NotificationOutbox)
        → DispatchStep s.outbox.rows rows
        → Step s (record s { outbox = record s.outbox { rows = rows } })
    attempted :
        (db : Surroundings) (instance_id lease_ms now id : ℕ) (c : Option ClaimedNotification)
        (outbox : Outbox)
        → claim instance_id lease_ms db now id s.outbox ≡ ok (c, outbox)
        → Step s (record { outbox = outbox; running = remember c s.running })
    answered :
        (db : Surroundings) (now : ℕ) (c : ClaimedNotification)
        (provider_message_id : Option (List ℕ))
        → Among c s.running
        → Step s (record s {
          outbox =
              mark_sent message_id encode_uri_component to_iso_string db now c provider_message_id
                s.outbox;
        })
    failed :
        (now random : ℕ) (c : ClaimedNotification) (error : NotificationProviderError)
        → Among c s.running
        → Step s (record s { outbox = mark_failed now random c error s.outbox })

  pub data Reaches (s : System) : System → Type 0 where
    no_step : Reaches s s
    next_step : (t u : System) → Reaches s t → Step t u → Reaches s u
