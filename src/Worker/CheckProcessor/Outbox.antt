-- ===== src/Worker/CheckProcessor/Outbox.antt =====
-- The outbox of a monitor before a commit, and why no key is queued twice.
use link_alive.Common.{
  ℕ, ◌≡◌, ◌≢◌, refl, Bool, false, ◌&&◌, List, [], ◌∷◌, All, All-zip, ok, any, arith, Bool-cases,
  inl, inr,
}
use link_alive.Domain.Types.{NotificationEventType}
use link_alive.Domain.Notifications.{notification_sequence}
use link_alive.Worker.CheckProcessor.World.{
  World, OutboxRow, Binding, has_key, append, new_row, with_row, create_outbox_row,
}
use link_alive.Worker.CheckProcessor.Commit.{create_down, create_outbox}

-- No row has this incident, channel and sequence.
abbrev pub IsFree : (incident channel sequence : ℕ) → List OutboxRow → Type 0
IsFree incident channel sequence os = any (has_key incident channel sequence) os ≡ false

any-append :
    (p : OutboxRow → Bool) (os : List OutboxRow) (n : OutboxRow)
    → any p os ≡ false
    → p n ≡ false
    → any p (append os n) ≡ false
any-append p [] n h k = rw k refl
any-append p (o ∷ os) n h k = let rest = any-append p os n (ground arith) k in ground arith

-- A new row takes only its own key.
pub create_outbox_row-free :
    (incident channel : ℕ) (e : NotificationEventType) (r s : Bool) (w : World)
    → IsFree incident channel (notification_sequence e) w.outbox
    → create_outbox_row incident channel e r s w
      ≡ ok (with_row (new_row w.next_id incident channel e r s) w)
unfolding create_outbox_row
create_outbox_row-free incident channel e r s w free = rw free refl

pub with_row-IsFree :
    (incident channel other sequence : ℕ) (e : NotificationEventType) (r s : Bool) (w : World)
    → channel ≢ other
    → IsFree incident other sequence w.outbox
    → IsFree incident other sequence (with_row (new_row w.next_id incident channel e r s) w).outbox
with_row-IsFree incident channel other sequence e r s w away still =
    any-append (has_key incident other sequence) w.outbox (new_row w.next_id incident channel e r s)
      still (ground arith)

abbrev pub IsAway : ℕ → List Binding → Type 0
IsAway channel bs = All (λ b. channel ≢ b.channel_id) bs

abbrev pub DistinctChannels : List Binding → Type 0
DistinctChannels [] = Unit {0}
DistinctChannels (b ∷ bs) = IsAway b.channel_id bs × DistinctChannels bs

-- `createOutbox` for a new incident does not fail.
pub create_outbox-returns :
    (incident : ℕ) (bs : List Binding) (w : World)
    → DistinctChannels bs
    → All
        (λ b.
          IsFree incident b.channel_id (notification_sequence NotificationEventType.down) w.outbox)
        bs
    → (u : World) × (create_outbox incident bs w ≡ ok u)
unfolding create_outbox create_down
create_outbox-returns incident [] w distinct free = (w, refl)
create_outbox-returns incident (b ∷ bs) w (away, distinct) (here, free) =
    elim (Bool-cases (b.notify_on_down && b.is_live)) [
      | inr silent ↦
          let (u, rest) = create_outbox-returns incident bs w distinct free in (u, rw silent rest)
      | inl asked ↦
          let made =
            create_outbox_row-free incident b.channel_id NotificationEventType.down
              b.notify_on_recovery false w here in
          let v =
            with_row
              (new_row w.next_id incident b.channel_id NotificationEventType.down
                b.notify_on_recovery false)
              w in
          let still : All
              (λ k.
                IsFree incident k.channel_id (notification_sequence NotificationEventType.down)
                  v.outbox)
              bs =
            All-zip
              (λ k (apart : b.channel_id ≢ k.channel_id) f.
                with_row-IsFree incident b.channel_id k.channel_id
                  (notification_sequence NotificationEventType.down) NotificationEventType.down
                  b.notify_on_recovery false w apart f)
              bs away free in
          let (u, rest) = create_outbox-returns incident bs v distinct still in
          (u, rw (asked, made) rest)
    ]
