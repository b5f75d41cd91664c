-- ===== src/Worker/Outbox/Arrivals.antt =====
-- A new notification keeps the invariant, and so does what `markSent` does.
use link_alive.Common.{
  ℕ, ◌+◌, ◌<◌, ◌≡◌, refl, Bool, ◌&&◌, Option, none, some, List, [], ◌∷◌, All, All-map, arith, ◌==◌,
  count, if-holds, if-holds_cases, update_many, Each-refl, Each-update_many,
}
use link_alive.Domain.Types.{IncidentStatus, NotificationEventType}
use link_alive.Domain.Notifications.{notification_sequence}
use link_alive.Worker.Delivery.{is_down, should_retain_notification_secret}
use link_alive.Worker.Outbox.Rows.{
  NotificationOutbox, NotificationDelivery, Outbox, Surroundings, IncidentRow, find_row,
}
use link_alive.Worker.Outbox.Claims.{ClaimedNotification}
use link_alive.Worker.Outbox.Failure.{has_delivery_id}
use link_alive.Worker.Outbox.Payload.{payload_allows_recovery}
use link_alive.Worker.Outbox.Success.{
  add_row, sent_row, may_be_sent, succeed_attempt, was_canceled_for_down, revived, has_sequence,
  restore_recovery, recover_resolved, recover_if_found, ensure_recovery, retire_if_done, mark_sent,
}
use link_alive.Worker.Outbox.Steps.{IsNew, Among, first, further}
use link_alive.Worker.Outbox.Evolution.{EachEvolves, Ends, Ends-refl, HasSentDown}
use link_alive.Worker.Outbox.Invariant.{
  Inv, HasDistinctIds, IsUnderWay, has_outbox_id, IsDelivery, Inv-Evolves,
}
use link_alive.Worker.Outbox.Quiet.{
  found-IsOnly, update-Evolves, update_found-Evolves, retire-Evolves,
}

All-add_row {κ} :
    (P : NotificationOutbox → Type κ) (rows : List NotificationOutbox) (n : NotificationOutbox)
    → All P rows
    → P n
    → All P (add_row rows n)
All-add_row P [] n h p = (p, tt)
All-add_row P (o ∷ os) n (q, h) p = (q, All-add_row P os n h p)

HasDistinctIds-add_row :
    (rows : List NotificationOutbox) (n : NotificationOutbox)
    → All (λ o. o.id < n.id) rows
    → HasDistinctIds rows
    → HasDistinctIds (add_row rows n)
HasDistinctIds-add_row [] n h w = (tt, tt)
HasDistinctIds-add_row (o ∷ os) n (lt, h) (away, w) =
    (All-add_row _ os n away (λ same. omega arith), HasDistinctIds-add_row os n h w)

HasSentDown-add_row :
    (i c : ℕ) (rows : List NotificationOutbox) (n : NotificationOutbox)
    → HasSentDown i c rows
    → HasSentDown i c (add_row rows n)
HasSentDown-add_row i c [] n h = absurd cc
HasSentDown-add_row i c (o ∷ os) n h = let rest = HasSentDown-add_row i c os n in ground arith

count_fresh :
    (next_id : ℕ) (rows : List NotificationOutbox) (ds : List NotificationDelivery)
    → All (IsDelivery rows next_id) ds
    → count (has_outbox_id next_id) ds ≡ 0
count_fresh next_id rows [] h = refl
count_fresh next_id rows (d ∷ ds) ((lt, of), h) =
    let rest = count_fresh next_id rows ds h in ground arith

Among-add_row :
    (rows : List NotificationOutbox) (n o : NotificationOutbox)
    → Among o rows
    → Among o (add_row rows n)
Among-add_row (o ∷ os) n _ first = first
Among-add_row (o ∷ os) n p (further later) = further (Among-add_row os n p later)
Among-add_row [] n p among = elim among [ ]

-- `created` of the steps, and the recovery that a late DOWN event creates.
pub Inv-add_row :
    (base : List NotificationOutbox) (s : Outbox) (running : List ClaimedNotification)
    (n : NotificationOutbox)
    → IsNew n s
    → Inv base s.rows s.deliveries s.next_id running
    → Inv base (add_row s.rows n) s.deliveries (s.next_id + 1) running
Inv-add_row base s running n new w =
    let id = new.id in
    let zero_attempts = new.no_attempts in
    let pending = new.pending in
    record {
      carried = λ o among.
          let (p, among_p, lives) = w.carried o among in
          (p, Among-add_row s.rows n p among_p, lives);
      unique =
          HasDistinctIds-add_row s.rows n (All-map (λ o lt. omega (arith, id)) s.rows w.fresh)
            w.unique;
      fresh =
          All-add_row _ s.rows n (All-map (λ o lt. omega arith) s.rows w.fresh) (omega (arith, id));
      sound =
          All-add_row _ s.rows n w.sound
            (record { started = λ active. ground arith; bounded = omega arith });
      ordered =
          All-add_row _ s.rows n
            (All-map
              (λ o ordered recovers i has positive.
                HasSentDown-add_row i o.channel_id s.rows n (ordered recovers i has positive))
              s.rows w.ordered)
            (λ recovers i has positive. absurd (omega arith));
      under_way =
          All-map
            (λ c under. (
              omega (arith, under.0),
              All-add_row _ s.rows n under.1 (λ same. absurd (omega (arith, under.0))),
            ))
            running w.under_way;
      counted = All-add_row _ s.rows n w.counted (
          let none_yet = count_fresh s.next_id s.rows s.deliveries w.delivered in
          rw id (omega arith));
      single = w.single;
      delivered =
          All-map
            (λ d of. (
              omega (arith, of.0),
              All-add_row _ s.rows n of.1 (λ same. absurd (omega (arith, of.0))),
            ))
            s.deliveries w.delivered;
    }

module _ (base : List NotificationOutbox) (running : List ClaimedNotification) where
  abbrev Good : Outbox → Type 0
  Good s = Inv base s.rows s.deliveries s.next_id running

  evolve :
      (s : Outbox) (after : List NotificationOutbox)
      → EachEvolves s.rows after
      → Good s
      → Good (record s { rows = after })
  evolve s after h w =
      Inv-Evolves base s.rows after s.deliveries s.deliveries s.next_id running h
        (Each-refl Ends Ends-refl s.deliveries) w

  module _ (message_id : (incident_id channel_id : ℕ) → List ℕ → List ℕ)
      (encode_uri_component : List ℕ → List ℕ) (to_iso_string : ℕ → List ℕ) where
    restore_recovery-Good :
        (db : Surroundings) (now monitor_id incident_id : ℕ) (down : NotificationOutbox)
        (incident : IncidentRow) (resolved_at : ℕ) (s : Outbox) (test : NotificationOutbox → Bool)
        (found : Option NotificationOutbox)
        → find_row test s.rows ≡ found
        → Good s
        → Good (
            restore_recovery message_id encode_uri_component to_iso_string db now monitor_id
              incident_id down incident resolved_at found s)
    unfolding restore_recovery was_canceled_for_down
    restore_recovery-Good db now monitor_id incident_id down incident resolved_at s test (some o)
          found w =
        if-holds_cases Good (was_canceled_for_down o)
          (λ canceled.
            evolve s _
              (update_found-Evolves o (revived now down.encrypted_config_snapshot) (ground arith)
                s.rows (found-IsOnly test o s.rows w.unique found))
              w)
          (λ other. w)
    restore_recovery-Good db now monitor_id incident_id down incident resolved_at s test none found
          w =
        Inv-add_row base s running _ (record { id = refl; no_attempts = refl; pending = refl }) w

    recover_resolved-Good :
        (db : Surroundings) (now incident_id : ℕ) (down : NotificationOutbox)
        (incident : IncidentRow) (status : IncidentStatus) (resolved_at monitor_id : Option ℕ)
        (s : Outbox)
        → Good s
        → Good (
            recover_resolved message_id encode_uri_component to_iso_string db now incident_id down
              incident status resolved_at monitor_id s)
    unfolding recover_resolved
    recover_resolved-Good db now incident_id down incident IncidentStatus.resolved (some r) (some m)
          s w =
        if-holds Good (db.is_live down.channel_id && db.notifies_recovery m down.channel_id)
          (restore_recovery-Good db now m incident_id down incident r s
            (has_sequence incident_id down.channel_id
              (notification_sequence NotificationEventType.recovery))
            _ refl w)
          w
    recover_resolved-Good db now incident_id down incident IncidentStatus.resolved none m s w = w
    recover_resolved-Good db now incident_id down incident IncidentStatus.resolved (some r) none s
          w =
        w
    recover_resolved-Good db now incident_id down incident IncidentStatus.opened r m s w = w
    recover_resolved-Good db now incident_id down incident IncidentStatus.canceled r m s w = w

    recover_if_found-Good :
        (db : Surroundings) (now incident_id : ℕ) (down : NotificationOutbox)
        (incident : Option IncidentRow) (s : Outbox)
        → Good s
        → Good (
            recover_if_found message_id encode_uri_component to_iso_string db now incident_id down
              incident s)
    unfolding recover_if_found
    recover_if_found-Good db now incident_id down none s w = w
    recover_if_found-Good db now incident_id down (some i) s w =
        recover_resolved-Good db now incident_id down i i.status i.resolved_at down.monitor_id s w

    ensure_recovery-Good :
        (db : Surroundings) (now : ℕ) (down : NotificationOutbox) (incident_id : Option ℕ)
        (s : Outbox)
        → Good s
        → Good
            (ensure_recovery message_id encode_uri_component to_iso_string db now down incident_id
              s).1
    unfolding ensure_recovery
    ensure_recovery-Good db now down none s w = w
    ensure_recovery-Good db now down (some i) s w =
        if-holds (λ (r : Option IncidentStatus × Outbox). Good r.1)
          (is_down down.event_type && payload_allows_recovery down.payload_safe)
          (recover_if_found-Good db now i down (db.incident i) s w) w

    retire_if_done-Good :
        (o : NotificationOutbox) (status : Option IncidentStatus) (s : Outbox)
        → Good s
        → Good (retire_if_done message_id encode_uri_component to_iso_string o (status, s))
    unfolding retire_if_done
    retire_if_done-Good o status s w =
        if-holds Good (should_retain_notification_secret _) w
          (evolve s _ (retire-Evolves o.id s.rows) w)

    -- `markSent` of a claim that is under way keeps the invariant.
    pub mark_sent-Inv :
        (db : Surroundings) (now : ℕ) (c : ClaimedNotification)
        (provider_message_id : Option (List ℕ)) (s : Outbox)
        → IsUnderWay s.rows s.next_id c
        → Good s
        → Good
            (mark_sent message_id encode_uri_component to_iso_string db now c provider_message_id s)
    unfolding mark_sent
    mark_sent-Inv db now c provider_message_id s (lt, under) w =
        let sent =
          Inv-Evolves base s.rows (update_many (may_be_sent c.outbox.id) (sent_row now) s.rows)
            s.deliveries
            (update_many (has_delivery_id c.delivery_id) (succeed_attempt now provider_message_id)
              s.deliveries)
            s.next_id running
            (update-Evolves (may_be_sent c.outbox.id) (sent_row now)
              (λ o positive passes. ground arith) s.rows under)
            (Each-update_many Ends (has_delivery_id c.delivery_id)
              (succeed_attempt now provider_message_id) Ends-refl (λ d p passes. ground arith)
              s.deliveries w.delivered)
            w in
        if-holds Good (count (may_be_sent c.outbox.id) s.rows == 1)
          (retire_if_done-Good c.outbox _ _
            (ensure_recovery-Good db now c.outbox c.outbox.incident_id _ sent))
          sent
