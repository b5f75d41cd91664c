-- ===== src/Worker/Outbox/Dispatch.antt =====
-- apps/worker/src/outbox-dispatcher.ts: the scan of available notifications.
use link_alive.Common.{
  ℕ, ◌+◌, Bool, true, false, not, ◌&&◌, ◌||◌, Option, none, some, List, [], ◌∷◌, Result, ok, throw,
  take, ◌==◌, leb, ltb, if◌then◌else◌,
}
use link_alive.Domain.Types.{NotificationOutboxStatus}
use link_alive.Worker.Delivery.{
  PriorDownStatus, ready, wait, cancel, recovery_prerequisite_status, is_recovery,
}
use link_alive.Worker.Outbox.Rows.{
  NotificationOutbox, channel_disabled, down_not_delivered, find_row,
}
use link_alive.Worker.Outbox.Statements
use link_alive.Worker.Outbox.Statements.{
  available_for_dispatch, matches, is_down_of, defer_recovery, claim_available, mark_enqueued,
  release,
}

pub data JobState : Type 0 where
  completed failed waiting_or_active : JobState

-- The calls of BullMQ's queue; `get_job` is `getJob` with `getState`.
pub record NotificationQueue : Type 1 where
  pub Queue : Type 0
  pub QueueError : Type 0
  pub get_job : (id : ℕ) → Queue → Result QueueError (Option JobState)
  pub remove : (id : ℕ) → Queue → Result QueueError (Unit {0}) × Queue
  pub add : (id : ℕ) → Queue → Result QueueError (Unit {0}) × Queue

-- `orderBy: [{ availableAt: 'asc' }, { createdAt: 'asc' }, { id: 'asc' }]`
unfoldable pub comes_before : NotificationOutbox → NotificationOutbox → Bool
comes_before a b =
    ltb a.available_at b.available_at
    || a.available_at == b.available_at
      && (ltb a.created_at b.created_at || a.created_at == b.created_at && leb a.id b.id)

abbrev pub insert_row : NotificationOutbox → List NotificationOutbox → List NotificationOutbox
insert_row a [] = a ∷ []
insert_row a (b ∷ bs) = if comes_before a b then a ∷ b ∷ bs else b ∷ insert_row a bs

-- The available rows in this order.
abbrev pub sort_available : ℕ → List NotificationOutbox → List NotificationOutbox
sort_available now [] = []
sort_available now (o ∷ os) =
    let rest = sort_available now os in
    if available_for_dispatch now o then insert_row o rest else rest

unfoldable pub find_candidates : (now n : ℕ) → List NotificationOutbox → List NotificationOutbox
unfolding available_for_dispatch comes_before
find_candidates now n rows = take n (sort_available now rows)

abbrev pub status_of : Option NotificationOutbox → Option NotificationOutboxStatus
status_of none = none
status_of (some o) = some o.status

abbrev pub has_failed : Option NotificationOutboxStatus → Bool
has_failed (some NotificationOutboxStatus.failed) = true
has_failed _ = false

-- The DOWN event that a recovery of an incident follows; `none` for any other event.
unfoldable pub find_down :
    Bool → Option ℕ → ℕ → List NotificationOutbox → Option (Option NotificationOutboxStatus)
find_down true (some incident_id) channel_id rows =
    some (status_of (find_row (is_down_of incident_id channel_id) rows))
find_down _ _ channel_id rows = none

module _ (queue : NotificationQueue) (owner lease_ms : ℕ) (is_live : ℕ → Bool) where
  open queue use {Queue, QueueError, get_job, remove, add}

  -- What a part of a dispatch comes to: how many it put in the queue, and whether it has changed a
  -- row.
  pub record Pass : Type 0 where
    pub dispatched : ℕ
    pub made_progress : Bool
    pub queue_after : Queue
    pub rows : List NotificationOutbox

  -- The rest behind `await existing.remove()`.
  unfoldable pub add_after :
      ℕ → Result QueueError (Unit {0}) × Queue → Result QueueError (Unit {0}) × Queue
  add_after id (throw e, q) = (throw e, q)
  add_after id (ok u, q) = add id q

  unfoldable pub ensure_found :
      ℕ → Result QueueError (Option JobState) → Queue → Result QueueError (Unit {0}) × Queue
  unfolding add_after
  ensure_found id (throw e) q = (throw e, q)
  ensure_found id (ok none) q = add id q
  ensure_found id (ok (some waiting_or_active)) q = (ok tt, q)
  ensure_found id (ok (some ended)) q = add_after id (remove id q)

  unfoldable pub ensure_notification_job : ℕ → Queue → Result QueueError (Unit {0}) × Queue
  unfolding ensure_found
  ensure_notification_job id q = ensure_found id (get_job id q) q

  -- What follows the queue's answer for a claimed row.
  unfoldable pub settle_claim :
      (now id : ℕ) → Result QueueError (Unit {0}) × Queue → List NotificationOutbox → Pass
  settle_claim now id (ok u, q) rows = record {
    dispatched = 1;
    made_progress = true;
    queue_after = q;
    rows = mark_enqueued id owner now (now + lease_ms) rows;
  }
  settle_claim now id (throw e, q) rows = record {
    dispatched = 0;
    made_progress = true;
    queue_after = q;
    rows = release id owner now rows;
  }

  -- `claimed` says whether the claim counted one row; `rows` are those it left.
  unfoldable pub hand_over : (now id : ℕ) → Bool → Queue → List NotificationOutbox → Pass
  unfolding settle_claim ensure_notification_job
  hand_over now id false q rows = record {
    dispatched = 0;
    made_progress = false;
    queue_after = q;
    rows = rows;
  }
  hand_over now id true q rows = settle_claim now id (ensure_notification_job id q) rows

  unfoldable pub claim_and_enqueue : (now id : ℕ) → Queue → List NotificationOutbox → Pass
  unfolding hand_over
  claim_and_enqueue now id q rows =
      hand_over now id (matches id now rows) q (claim_available id owner now (now + lease_ms) rows)

  abbrev pub canceled_pass :
      (now id : ℕ) → Queue → List NotificationOutbox → List NotificationOutbox → Pass
  canceled_pass now id q before after = record {
    dispatched = 0;
    made_progress = matches id now before;
    queue_after = q;
    rows = after;
  }

  -- The branches on `recoveryPrerequisiteStatus`, for the status of the DOWN event.
  unfoldable pub by_prerequisite :
      (now id : ℕ)
      → PriorDownStatus
      → Option NotificationOutboxStatus
      → Queue
      → List NotificationOutbox
      → Pass
  unfolding claim_and_enqueue
  by_prerequisite now id ready down q rows = claim_and_enqueue now id q rows
  by_prerequisite now id wait down q rows = canceled_pass now id q rows (defer_recovery id now rows)
  by_prerequisite now id cancel down q rows =
      canceled_pass now id q rows
        (Statements.cancel id now down_not_delivered (has_failed down) rows)

  unfoldable pub follow_down :
      (now id : ℕ)
      → Option (Option NotificationOutboxStatus)
      → Queue
      → List NotificationOutbox
      → Pass
  unfolding by_prerequisite
  follow_down now id none q rows = claim_and_enqueue now id q rows
  follow_down now id (some down) q rows =
      by_prerequisite now id (recovery_prerequisite_status down) down q rows

  -- The body of the loop over the candidates.
  unfoldable pub dispatch_candidate :
      ℕ → NotificationOutbox → Queue → List NotificationOutbox → Pass
  unfolding follow_down find_down
  dispatch_candidate now c q rows =
      if not (is_live c.channel_id)
      then canceled_pass now c.id q rows (Statements.cancel c.id now channel_disabled false rows)
      else follow_down now c.id
          (find_down (is_recovery c.event_type) c.incident_id c.channel_id rows) q rows

  abbrev pub joined : Pass → Pass → Pass
  joined first rest = record rest {
    dispatched = first.dispatched + rest.dispatched;
    made_progress = first.made_progress || rest.made_progress;
  }

  unfoldable pub dispatch_page :
      ℕ → List NotificationOutbox → Queue → List NotificationOutbox → Pass
  unfolding dispatch_candidate
  dispatch_page now [] q rows = record {
    dispatched = 0;
    made_progress = false;
    queue_after = q;
    rows = rows;
  }
  dispatch_page now (c ∷ candidates) q rows =
      let first = dispatch_candidate now c q rows in
      joined first (dispatch_page now candidates first.queue_after first.rows)
