-- ===== src/Worker/CheckProcessor/Returns.antt =====
-- Queueing the notices of a resolved incident does not fail.
use link_alive.Common.{
  ℕ, suc, ◌≡◌, ◌≢◌, refl, ◌∙◌, Bool, true, false, not, ◌&&◌, Option, none, some, List, [], ◌∷◌, All,
  All-zip, Result, ok, any, count, arith, ◌==◌, if◌then◌else◌, update_many, Bool-cases, if-holds,
  inl, inr, ◌>>=◌,
}
use link_alive.Domain.Types.{is_safe_integer, NotificationEventType, NotificationOutboxStatus}
use link_alive.Domain.Notifications.{
  notification_sequence, RecoveryNotificationPlan, create_recovery, replace_with_resolved_summary,
  skip, is_waiting, is_undelivered, is_sent, plan_recovery_notification,
}
use link_alive.Worker.CheckProcessor.World.{
  World, IncidentRow, OutboxRow, CommitError, lift, has_key, append, find_outbox, new_row, with_row,
  create_outbox_row, retire_secret,
}
use link_alive.Worker.CheckProcessor.Recovery.{
  Settled, replan, is_replaceable, cancel_replaced, replaced, settle, queue_planned, queue_recovery,
  recover_planned, recover_one, recover_all, retains, retire_unless,
}
use link_alive.Worker.CheckProcessor.Outbox.{IsFree, create_outbox_row-free, with_row-IsFree}

abbrev has_safe_attempts : Option OutboxRow → Bool
has_safe_attempts none = false
has_safe_attempts (some o) = is_safe_integer o.attempt_count

-- The row of this id is there, and its number of attempts is a safe integer.
abbrev pub IsReady : ℕ → List OutboxRow → Type 0
IsReady id os = has_safe_attempts (find_outbox id os) ≡ true

-- A change of the outbox that queues a second event, if any, for this incident and channel alone,
-- and removes no row.
pub record Spares (incident channel : ℕ) (w u : World) : Type 0 where
  pub free :
      (other : ℕ)
      → channel ≢ other
      → IsFree incident other 2 w.outbox
      → IsFree incident other 2 u.outbox
  pub ready : (id : ℕ) → IsReady id w.outbox → IsReady id u.outbox

Spares-refl : (incident channel : ℕ) (w : World) → Spares incident channel w w
Spares-refl incident channel w = record { free = λ other away f. f; ready = λ id r. r }

Spares-trans :
    (incident channel : ℕ) (w u v : World)
    → Spares incident channel w u
    → Spares incident channel u v
    → Spares incident channel w v
Spares-trans incident channel w u v h k = record {
  free = λ other away f. k.free other away (h.free other away f);
  ready = λ id r. k.ready id (h.ready id r);
}

-- An update that changes no key, no id and no number of attempts.
module _ (test : OutboxRow → Bool) (set : OutboxRow → OutboxRow)
    (same_key : (i c q : ℕ) (o : OutboxRow) → has_key i c q (set o) ≡ has_key i c q o)
    (same_id : (o : OutboxRow) → (set o).id ≡ o.id)
    (same_attempts : (o : OutboxRow) → (set o).attempt_count ≡ o.attempt_count) where
  any-update_many :
      (i c q : ℕ) (os : List OutboxRow)
      → any (has_key i c q) (update_many test set os) ≡ any (has_key i c q) os
  any-update_many i c q [] = refl
  any-update_many i c q (o ∷ os) =
      let rest = any-update_many i c q os in
      elim (Bool-cases (test o)) [
        | inl passes ↦ rw (passes, same_key i c q o, rest) refl
        | inr fails ↦ rw (fails, rest) refl
      ]

  find-update_many :
      (id : ℕ) (os : List OutboxRow)
      → has_safe_attempts (find_outbox id (update_many test set os))
        ≡ has_safe_attempts (find_outbox id os)
  find-update_many id [] = refl
  find-update_many id (o ∷ os) =
      let rest = find-update_many id os in
      elim (Bool-cases (test o)) [
        | inl passes ↦ elim (Bool-cases (o.id == id)) [
          | inl mine ↦ rw (passes, same_id o, mine, same_attempts o) refl
          | inr other ↦ rw (passes, same_id o, other) rest
        ]
        | inr fails ↦ elim (Bool-cases (o.id == id)) [
          | inl mine ↦ rw (fails, mine) refl
          | inr other ↦ rw (fails, other) rest
        ]
      ]

  update_many-Spares :
      (incident channel : ℕ) (w : World)
      → Spares incident channel w (record w { outbox = update_many test set w.outbox })
  update_many-Spares incident channel w = record {
    free = λ other away f. any-update_many incident other 2 w.outbox ∙ f;
    ready = λ id r. find-update_many id w.outbox ∙ r;
  }

find-append :
    (id : ℕ) (os : List OutboxRow) (n : OutboxRow) → IsReady id os → IsReady id (append os n)
find-append id [] n r = absurd cc
find-append id (o ∷ os) n r = elim (Bool-cases (o.id == id)) [
  | inl mine ↦ rw mine (rw mine at r)
  | inr other ↦ rw other (find-append id os n (rw other at r))
]

with_row-Spares :
    (incident channel : ℕ) (e : NotificationEventType) (r s : Bool) (w : World)
    → Spares incident channel w (with_row (new_row w.next_id incident channel e r s) w)
with_row-Spares incident channel e r s w = record {
  free = λ other away f. with_row-IsFree incident channel other 2 e r s w away f;
  ready = λ id k. find-append id w.outbox (new_row w.next_id incident channel e r s) k;
}

retire_unless-Spares :
    (incident channel : ℕ) (kept : Bool) (id : ℕ) (w : World)
    → Spares incident channel w (retire_unless kept id w)
unfolding retire_secret
retire_unless-Spares incident channel true id w = record {
  free = λ other away f. f;
  ready = λ k r. r;
}
retire_unless-Spares incident channel false id w =
    update_many-Spares (λ o. o.id == id) (λ o. record o { is_tombstone = true }) (λ i c q o. refl)
      (λ o. refl) (λ o. refl) incident channel w

plan-returns :
    (s : NotificationOutboxStatus) (attempts : ℕ)
    → is_safe_integer attempts ≡ true
    → (p : RecoveryNotificationPlan) × (lift (plan_recovery_notification s attempts) ≡ ok p)
unfolding plan_recovery_notification
plan-returns s attempts safe = (
  (if attempts == 0 && is_waiting s
      then replace_with_resolved_summary
      else (if is_undelivered s then skip else create_recovery (not (is_sent s)))),
  rw safe refl,
)

abbrev Returns : (Result CommitError World) → (World → Type 0) → Type 0
Returns r P = (u : World) × (r ≡ ok u) × P u

replan-returns :
    (o : Option OutboxRow) (w : World)
    → has_safe_attempts o ≡ true
    → (s : Settled) × (replan o w ≡ ok s) × (s.world ≡ w)
unfolding replan
replan-returns none w safe = absurd cc
replan-returns (some o) w safe =
    let (p, planned) = plan-returns o.status o.attempt_count safe in
    (
      record { plan = p; status = o.status; undelivered = o.down_not_delivered; world = w },
      rw planned refl,
      refl,
    )

settle-returns :
    (plan : RecoveryNotificationPlan) (i : IncidentRow) (down : OutboxRow) (w : World)
    → IsReady down.id w.outbox
    → (s : Settled) × (settle plan i down w ≡ ok s)
      × ((channel : ℕ) → Spares i.id channel w s.world)
unfolding settle
settle-returns replace_with_resolved_summary i down w ready =
    elim (Bool-cases (count (is_replaceable down.id) w.outbox == 1)) [
      | inl one ↦ (
        replaced i down w,
        rw one refl,
        λ channel.
            update_many-Spares (is_replaceable down.id) (cancel_replaced i) (λ i' c q o. refl)
              (λ o. refl) (λ o. refl) i.id channel w,
      )
      | inr other ↦
          let (s, again, same) = replan-returns (find_outbox down.id w.outbox) w ready in
          (s, rw other again, λ channel. rw same (Spares-refl i.id channel w))
    ]
settle-returns skip i down w ready = (_, refl, λ channel. Spares-refl i.id channel w)
settle-returns (create_recovery waits) i down w ready =
    (_, refl, λ channel. Spares-refl i.id channel w)

queued-returns :
    (incident channel id : ℕ) (e : NotificationEventType) (s kept : Bool) (w : World)
    → notification_sequence e ≡ 2
    → IsFree incident channel 2 w.outbox
    → Returns
        (create_outbox_row incident channel e true s w >>= λ v. ok (retire_unless kept id v))
        (Spares incident channel w)
queued-returns incident channel id e s kept w second free =
    let made = create_outbox_row-free incident channel e true s w (rw second free) in
    let v = with_row (new_row w.next_id incident channel e true s) w in
    (
      retire_unless kept id v,
      rw made refl,
      Spares-trans incident channel w v (retire_unless kept id v)
          (with_row-Spares incident channel e true s w)
          (retire_unless-Spares incident channel kept id v),
    )

queue_planned-returns :
    (plan : RecoveryNotificationPlan) (i : IncidentRow) (down : OutboxRow) (kept : Bool) (w : World)
    → IsFree i.id down.channel_id 2 w.outbox
    → Returns (queue_planned plan i down kept w) (Spares i.id down.channel_id w)
unfolding queue_planned notification_sequence
queue_planned-returns skip i down kept w free =
    (retire_unless kept down.id w, refl, retire_unless-Spares i.id down.channel_id kept down.id w)
queue_planned-returns replace_with_resolved_summary i down kept w free =
    queued-returns i.id down.channel_id down.id NotificationEventType.resolved_summary
      down.is_tombstone kept w refl free
queue_planned-returns (create_recovery waits) i down kept w free =
    queued-returns i.id down.channel_id down.id NotificationEventType.recovery down.is_tombstone
      kept w refl free

recover_planned-returns :
    (i : IncidentRow) (down : OutboxRow) (w : World)
    → is_safe_integer down.attempt_count ≡ true
    → IsReady down.id w.outbox
    → IsFree i.id down.channel_id 2 w.outbox
    → Returns (recover_planned i down w) (Spares i.id down.channel_id w)
unfolding recover_planned queue_recovery
recover_planned-returns i down w safe ready free =
    let (plan, planned) = plan-returns down.status down.attempt_count safe in
    let (s, settled, spares) = settle-returns plan i down w ready in
    let still =
      (spares (suc down.channel_id)).free down.channel_id (λ e. absurd (omega arith)) free in
    let (u, queued, rest) =
      queue_planned-returns s.plan i down (retains i down s.status s.undelivered) s.world still in
    (
      u,
      rw (planned, settled) queued,
      Spares-trans i.id down.channel_id w s.world u (spares down.channel_id) rest,
    )

recover_one-returns :
    (i : IncidentRow) (down : OutboxRow) (w : World)
    → is_safe_integer down.attempt_count ≡ true
    → IsReady down.id w.outbox
    → IsFree i.id down.channel_id 2 w.outbox
    → Returns (recover_one i down w) (Spares i.id down.channel_id w)
unfolding recover_one
recover_one-returns i down w safe ready free =
    let kept = retains i down down.status down.down_not_delivered in
    if-holds (λ r. Returns r (Spares i.id down.channel_id w)) (not down.notify_on_recovery)
      (retire_unless kept down.id w, refl, retire_unless-Spares i.id down.channel_id kept down.id w)
      (recover_planned-returns i down w safe ready free)

-- What the loop needs of a DOWN event that it has not reached.
pub record IsRecoverable (incident : ℕ) (w : World) (down : OutboxRow) : Type 0 where
  pub safe : is_safe_integer down.attempt_count ≡ true
  pub ready : IsReady down.id w.outbox
  pub free : IsFree incident down.channel_id 2 w.outbox

abbrev pub DistinctChannels : List OutboxRow → Type 0
DistinctChannels [] = Unit {0}
DistinctChannels (o ∷ os) = All (λ k. o.channel_id ≢ k.channel_id) os × DistinctChannels os

pub recover_all-returns :
    (i : IncidentRow) (downs : List OutboxRow) (w : World)
    → DistinctChannels downs
    → All (IsRecoverable i.id w) downs
    → (u : World) × (recover_all i downs w ≡ ok u)
unfolding recover_all
recover_all-returns i [] w apart h = (w, refl)
recover_all-returns i (down ∷ downs) w (away, apart) (here, h) =
    let (v, first, spares) = recover_one-returns i down w here.safe here.ready here.free in
    let still : All (IsRecoverable i.id v) downs =
      All-zip
        (λ k (far : down.channel_id ≢ k.channel_id) (r : IsRecoverable i.id w k). record {
          safe = r.safe;
          ready = spares.ready k.id r.ready;
          free = spares.free k.channel_id far r.free;
        })
        downs away h in
    let (u, rest) = recover_all-returns i downs v apart still in (u, rw first rest)
