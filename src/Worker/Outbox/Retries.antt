-- ===== src/Worker/Outbox/Retries.antt =====
-- A failed attempt is tried again after a bounded delay, or ends; and `process` takes the steps of
-- a processor.
use link_alive.Common.{
  ℕ, ◌+◌, ◌*◌, ◌^◌, ◌-◌, max, min, ◌≤◌, ◌<◌, ◌≡◌, refl, ◌⊎◌, Bool, true, false, Option, none, some,
  List, [], ◌∷◌, arith, ◌==◌, count, change, update_many, if-holds,
}
use native.Mathlib.Nat.{one-le-pow}
use link_alive.Domain.Types.{NotificationOutboxStatus}
use link_alive.Worker.Delivery.{is_down}
use link_alive.Worker.Outbox.Rows.{NotificationOutbox, Outbox}
use link_alive.Worker.Outbox.Statements.{secret_tombstone_bytes}
use link_alive.Worker.Outbox.Claims.{
  ClaimedNotification, cancel_queued, cancel_recoveries, is_queued_recovery, cancel_recovery_row,
  fail_row,
}
use link_alive.Worker.Outbox.Payload.{or_else}
use link_alive.Worker.Outbox.Failure.{
  NotificationProviderError, retry_delay_ms, retry_at, will_retry, is_current, retry_row, safe_text,
  fail_outbox, mark_failed,
}
use link_alive.Worker.Outbox.Steps.{Among, first, further}

scaled : (a b x : ℕ) → a ≤ b → a * x ≤ b * x
scaled a b x h = grind arith

-- The delay lies between 1.5 and 75 seconds.
pub retry_delay_ms_bounds :
    (attempt random : ℕ)
    → random < 2 ^ 53
    → (1500 ≤ retry_delay_ms attempt random) × (retry_delay_ms attempt random ≤ 75000)
unfolding retry_delay_ms
retry_delay_ms_bounds attempt random h =
    let k = max 1 (min 10 attempt) - 1 in
    let base : ℕ = min 60000 (2000 * 2 ^ k) in
    let one = one-le-pow k 2 (omega arith) in
    let low : 2000 ≤ base = omega arith in
    let high : base ≤ 60000 = omega arith in
    let from_low = scaled 2000 base (3 * 2 ^ 52 + random) low in
    let to_high = scaled base 60000 (3 * 2 ^ 52 + random) high in omega arith

Among-update_many :
    (test : NotificationOutbox → Bool) (set : NotificationOutbox → NotificationOutbox)
    (rows : List NotificationOutbox) (o : NotificationOutbox)
    → Among o rows
    → Among (change test set o) (update_many test set rows)
Among-update_many test set (o ∷ os) _ first = first
Among-update_many test set (o ∷ os) p (further later) =
    further (Among-update_many test set os p later)
Among-update_many test set [] p among = elim among [ ]

-- The row after a failure that is tried again: not before 1.5 seconds and what the provider asked
-- for, and not later than the longer of that and 75 seconds.
pub record IsRetried (now : ℕ) (error : NotificationProviderError) (p : NotificationOutbox)
    : Type 0 where
  status : p.status ≡ NotificationOutboxStatus.retry
  free : p.lease_owner ≡ none
  not_before : now + 1500 ≤ p.available_at
  not_before_asked : now + or_else error.retry_after_ms 0 ≤ p.available_at
  not_after : p.available_at ≤ now + max (or_else error.retry_after_ms 0) 75000

-- The row after one that is not: it has failed, and its destination is gone.
pub record IsOver (p : NotificationOutbox) : Type 0 where
  status : p.status ≡ NotificationOutboxStatus.failed
  free : p.lease_owner ≡ none
  retired : p.encrypted_config_snapshot ≡ secret_tombstone_bytes

-- One of the rows is that of `o` and satisfies `P`.
abbrev pub Becomes :
    NotificationOutbox → List NotificationOutbox → (NotificationOutbox → Type 0) → Type 0
Becomes o rows P =
    (p : NotificationOutbox) × Among p rows
    × (p.id ≡ o.id)
    × (p.attempt_count ≡ o.attempt_count)
    × P p

retry_row-IsRetried :
    (now random : ℕ) (c : ClaimedNotification) (error : NotificationProviderError)
    (o : NotificationOutbox)
    → random < 2 ^ 53
    → IsRetried now error (retry_row (retry_at now random c error) (safe_text error) o)
unfolding retry_at
retry_row-IsRetried now random c error o h =
    let (low, high) = retry_delay_ms_bounds c.delivery_attempt random h in
    record {
      status = refl;
      free = refl;
      not_before = omega arith;
      not_before_asked = omega arith;
      not_after = omega arith;
    }

-- A row that fails the test stays, and one that passes it is set.
Among-kept :
    (test : NotificationOutbox → Bool) (set : NotificationOutbox → NotificationOutbox)
    (rows : List NotificationOutbox) (o : NotificationOutbox)
    → test o ≡ false
    → Among o rows
    → Among o (update_many test set rows)
Among-kept test set rows o fails among =
    let e : change test set o ≡ o = rw fails refl in
    simp e at (Among-update_many test set rows o among)

Among-set :
    (test : NotificationOutbox → Bool) (set : NotificationOutbox → NotificationOutbox)
    (rows : List NotificationOutbox) (o : NotificationOutbox)
    → test o ≡ true
    → Among o rows
    → Among (set o) (update_many test set rows)
Among-set test set rows o passes among =
    let e : change test set o ≡ set o = rw passes refl in
    simp e at (Among-update_many test set rows o among)

cancel_queued-over :
    (now channel_id : ℕ) (fails : Bool) (incident : Option ℕ) (p : NotificationOutbox)
    (rows : List NotificationOutbox)
    → p.status ≡ NotificationOutboxStatus.failed
    → Among p rows
    → Among p (cancel_queued now channel_id fails incident rows)
unfolding cancel_queued
cancel_queued-over now channel_id true (some i) p rows over among =
    Among-kept (is_queued_recovery i channel_id) (cancel_recovery_row now) rows p (ground arith)
      among
cancel_queued-over now channel_id true none p rows over among = among
cancel_queued-over now channel_id false incident p rows over among = among

fail_outbox-over :
    (now random : ℕ) (c : ClaimedNotification) (error : NotificationProviderError)
    (rows : List NotificationOutbox) (o : NotificationOutbox)
    → is_current c o ≡ true
    → Among o rows
    → Among (fail_row now (safe_text error) o) (fail_outbox false now random c error rows)
unfolding fail_outbox cancel_recoveries
fail_outbox-over now random c error rows o current among =
    let over = Among-set (is_current c) (fail_row now (safe_text error)) rows o current among in
    if-holds (Among (fail_row now (safe_text error) o)) (count (is_current c) rows == 1)
      (cancel_queued-over now c.outbox.channel_id (is_down c.outbox.event_type) c.outbox.incident_id
        _ _ refl over)
      over

-- Where the row of a claim is still at that attempt, `markFailed` makes it wait for a retry if the
-- error is one to retry and the attempt was not the last, until a time that is at least 1.5 seconds
-- ahead and what the provider asked for, and at most the longer of that and 75 seconds; and
-- otherwise it has failed and its destination is gone. The row keeps its attempts and has no owner.
pub mark_failed-current :
    (now random : ℕ) (c : ClaimedNotification) (error : NotificationProviderError) (s : Outbox)
    (o : NotificationOutbox)
    → random < 2 ^ 53
    → is_current c o ≡ true
    → Among o s.rows
    → (error.retryable ≡ true
        → c.delivery_attempt < c.outbox.max_attempts
        → Becomes o (mark_failed now random c error s).rows (IsRetried now error))
      × ((error.retryable ≡ false) ⊎ (c.outbox.max_attempts ≤ c.delivery_attempt)
          → Becomes o (mark_failed now random c error s).rows IsOver)
unfolding mark_failed
mark_failed-current now random c error s o h current among = (
  (λ retryable left.
      let will : will_retry c error ≡ true = unfold will_retry in ground arith in
      (
        retry_row (retry_at now random c error) (safe_text error) o,
        rw will (unfold fail_outbox in Among-set (is_current c) _ s.rows o current among),
        refl,
        refl,
        retry_row-IsRetried now random c error o h,
      )),
  (λ final.
      let will : will_retry c error ≡ false = unfold will_retry in ground arith in
      (
        fail_row now (safe_text error) o,
        rw will (fail_outbox-over now random c error s.rows o current among),
        refl,
        refl,
        record { status = refl; free = refl; retired = refl },
      )),
)
