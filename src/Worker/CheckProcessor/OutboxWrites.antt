-- ===== src/Worker/CheckProcessor/OutboxWrites.antt =====
-- What the commit of a result writes to the outbox leaves the other rows alone.
use link_alive.Common.{
  ℕ, ◌≤◌, ◌≡◌, refl, ◌∙◌, Bool, true, false, not, ◌&&◌, Option, none, some, List, [], ◌∷◌, Result,
  ok, >>=-eq-ok, ◌>>=◌, count, arith, ◌==◌, Bool-cases, if-eq, inl, inr,
}
use link_alive.Domain.Types.{NotificationEventType}
use link_alive.Domain.Notifications.{
  RecoveryNotificationPlan, create_recovery, replace_with_resolved_summary, skip,
  plan_recovery_notification,
}
use link_alive.Worker.CheckProcessor.World.{
  World, IncidentRow, OutboxRow, Binding, CommitError, find_outbox, lift, create_outbox_row,
  retire_secret,
}
use link_alive.Worker.CheckProcessor.Recovery.{
  Settled, replan, settle, queue_planned, queue_recovery, recover_planned, recover_one, recover_all,
  create_recovery_outbox, retains, retire_unless, is_replaceable, is_down_event, filter,
}
use link_alive.Worker.CheckProcessor.Commit.{create_down, create_outbox}

-- A write to the outbox leaves the monitor, its check and its incidents alone, and frees no id.
pub record IsOutboxWrite (w u : World) : Type 0 where
  pub monitor : u.monitor ≡ w.monitor
  pub check : u.check ≡ w.check
  pub incidents : u.incidents ≡ w.incidents
  pub ids : w.next_id ≤ u.next_id

pub IsOutboxWrite-refl : (w : World) → IsOutboxWrite w w
IsOutboxWrite-refl w = record { monitor = refl; check = refl; incidents = refl; ids = omega arith }

pub IsOutboxWrite-trans :
    (w u v : World) → IsOutboxWrite w u → IsOutboxWrite u v → IsOutboxWrite w v
IsOutboxWrite-trans w u v h k = record {
  monitor = k.monitor ∙ h.monitor;
  check = k.check ∙ h.check;
  incidents = k.incidents ∙ h.incidents;
  ids = let a = h.ids in let b = k.ids in omega arith;
}

create_outbox_row-IsOutboxWrite :
    (incident channel : ℕ) (e : NotificationEventType) (r s : Bool) (w u : World)
    → create_outbox_row incident channel e r s w ≡ ok u
    → IsOutboxWrite w u
unfolding create_outbox_row
create_outbox_row-IsOutboxWrite incident channel e r s w u h = ground arith

IsOutboxWrite-ok :
    (w u : World) → ◌≡◌ {A = Result CommitError World} (ok w) (ok u) → IsOutboxWrite w u
IsOutboxWrite-ok w u h = ground arith

create_down-IsOutboxWrite :
    (incident : ℕ) (b : Binding) (w u : World) → create_down incident b w ≡ ok u → IsOutboxWrite w u
unfolding create_down
create_down-IsOutboxWrite incident b w u h =
    elim (if-eq (b.notify_on_down && b.is_live)
      (create_outbox_row incident b.channel_id NotificationEventType.down b.notify_on_recovery false
        w)
      (ok w) (ok u) h) [
        | inl (asked, made) ↦
            create_outbox_row-IsOutboxWrite incident b.channel_id NotificationEventType.down
              b.notify_on_recovery false w u made
        | inr (silent, same) ↦ IsOutboxWrite-ok w u same
      ]

pub create_outbox-IsOutboxWrite :
    (incident : ℕ) (bs : List Binding) (w u : World)
    → create_outbox incident bs w ≡ ok u
    → IsOutboxWrite w u
unfolding create_outbox
create_outbox-IsOutboxWrite incident [] w u h = IsOutboxWrite-ok w u h
create_outbox-IsOutboxWrite incident (b ∷ bs) w u h =
    let (v, first, later) = >>=-eq-ok (create_down incident b w) _ h in
    IsOutboxWrite-trans w v u (create_down-IsOutboxWrite incident b w v first)
      (create_outbox-IsOutboxWrite incident bs v u later)

retire_unless-IsOutboxWrite :
    (kept : Bool) (id : ℕ) (w : World) → IsOutboxWrite w (retire_unless kept id w)
unfolding retire_secret
retire_unless-IsOutboxWrite kept id w = ground arith

replan-IsOutboxWrite :
    (o : Option OutboxRow) (w : World) (s : Settled) → replan o w ≡ ok s → IsOutboxWrite w s.world
unfolding replan
replan-IsOutboxWrite none w s h = absurd cc
replan-IsOutboxWrite (some o) w s h =
    let (plan, made, same) =
      >>=-eq-ok (lift (plan_recovery_notification o.status o.attempt_count)) _ h in
    ground arith

settle-IsOutboxWrite :
    (plan : RecoveryNotificationPlan) (i : IncidentRow) (down : OutboxRow) (w : World) (s : Settled)
    → settle plan i down w ≡ ok s
    → IsOutboxWrite w s.world
unfolding settle
settle-IsOutboxWrite replace_with_resolved_summary i down w s h =
    elim (Bool-cases (count (is_replaceable down.id) w.outbox == 1)) [
      | inl one ↦ let same = rw one at h in ground arith
      | inr other ↦ replan-IsOutboxWrite (find_outbox down.id w.outbox) w s (rw other at h)
    ]
settle-IsOutboxWrite _ i down w s h = ground arith

queued-IsOutboxWrite :
    (incident channel id : ℕ) (e : NotificationEventType) (r s kept : Bool) (w u : World)
    → (create_outbox_row incident channel e r s w >>= λ v. ok (retire_unless kept id v)) ≡ ok u
    → IsOutboxWrite w u
queued-IsOutboxWrite incident channel id e r s kept w u h =
    let (v, made, same) = >>=-eq-ok (create_outbox_row incident channel e r s w) _ h in
    IsOutboxWrite-trans w v u (create_outbox_row-IsOutboxWrite incident channel e r s w v made) (
      IsOutboxWrite-trans v (retire_unless kept id v) u (retire_unless-IsOutboxWrite kept id v)
        (IsOutboxWrite-ok (retire_unless kept id v) u same))

queue_planned-IsOutboxWrite :
    (plan : RecoveryNotificationPlan) (i : IncidentRow) (down : OutboxRow) (kept : Bool)
    (w u : World)
    → queue_planned plan i down kept w ≡ ok u
    → IsOutboxWrite w u
unfolding queue_planned
queue_planned-IsOutboxWrite skip i down kept w u h =
    IsOutboxWrite-trans w (retire_unless kept down.id w) u
      (retire_unless-IsOutboxWrite kept down.id w)
      (IsOutboxWrite-ok (retire_unless kept down.id w) u h)
queue_planned-IsOutboxWrite replace_with_resolved_summary i down kept w u h =
    queued-IsOutboxWrite i.id down.channel_id down.id NotificationEventType.resolved_summary true
      down.is_tombstone kept w u h
queue_planned-IsOutboxWrite (create_recovery waits) i down kept w u h =
    queued-IsOutboxWrite i.id down.channel_id down.id NotificationEventType.recovery true
      down.is_tombstone kept w u h

recover_planned-IsOutboxWrite :
    (i : IncidentRow) (down : OutboxRow) (w u : World)
    → recover_planned i down w ≡ ok u
    → IsOutboxWrite w u
unfolding recover_planned queue_recovery
recover_planned-IsOutboxWrite i down w u h =
    let (plan, planned, h1) =
      >>=-eq-ok (lift (plan_recovery_notification down.status down.attempt_count)) _ h in
    let (s, settled, h2) = >>=-eq-ok (settle plan i down w) _ h1 in
    IsOutboxWrite-trans w s.world u (settle-IsOutboxWrite plan i down w s settled) (
      queue_planned-IsOutboxWrite s.plan i down (retains i down s.status s.undelivered) s.world u
        h2)

recover_one-IsOutboxWrite :
    (i : IncidentRow) (down : OutboxRow) (w u : World)
    → recover_one i down w ≡ ok u
    → IsOutboxWrite w u
unfolding recover_one
recover_one-IsOutboxWrite i down w u h =
    let kept = retains i down down.status down.down_not_delivered in
    elim (if-eq (not down.notify_on_recovery) (ok (retire_unless kept down.id w))
      (recover_planned i down w) (ok u) h) [
        | inr (allowed, planned) ↦ recover_planned-IsOutboxWrite i down w u planned
        | inl (silent, same) ↦
            IsOutboxWrite-trans w (retire_unless kept down.id w) u
              (retire_unless-IsOutboxWrite kept down.id w)
              (IsOutboxWrite-ok (retire_unless kept down.id w) u same)
      ]

recover_all-IsOutboxWrite :
    (i : IncidentRow) (downs : List OutboxRow) (w u : World)
    → recover_all i downs w ≡ ok u
    → IsOutboxWrite w u
unfolding recover_all
recover_all-IsOutboxWrite i [] w u h = IsOutboxWrite-ok w u h
recover_all-IsOutboxWrite i (down ∷ downs) w u h =
    let (v, first, later) = >>=-eq-ok (recover_one i down w) _ h in
    IsOutboxWrite-trans w v u (recover_one-IsOutboxWrite i down w v first)
      (recover_all-IsOutboxWrite i downs v u later)

pub create_recovery_outbox-IsOutboxWrite :
    (i : IncidentRow) (w u : World) → create_recovery_outbox i w ≡ ok u → IsOutboxWrite w u
unfolding create_recovery_outbox
create_recovery_outbox-IsOutboxWrite i w u h =
    recover_all-IsOutboxWrite i (filter (is_down_event w.bindings i.id) w.outbox) w u h
