-- ===== src/Worker/Outbox/Reached.antt =====
-- What holds however dispatchers and processors interleave.
use link_alive.Common.{
  ℕ, ◌≤◌, ◌≡◌, refl, true, ◌||◌, Option, some, List, [], All, Result, ok, throw, arith, count,
  Each-refl, Each-update_many,
}
use link_alive.Worker.Delivery.{is_sent, is_recovery}
use link_alive.Worker.Outbox.Rows.{
  NotificationOutbox, NotificationDelivery, Outbox, Surroundings, is_processing,
}
use link_alive.Worker.Outbox.Claims.{ClaimError, ClaimedNotification, is_attempt_of, claim}
use link_alive.Worker.Outbox.Failure.{
  NotificationProviderError, will_retry, has_delivery_id, mark_failed,
}
use link_alive.Worker.Outbox.Steps.{
  System, Among, first, further, remember, Step, created, dispatched, attempted, answered, failed,
  Reaches, no_step, next_step,
}
use link_alive.Worker.Outbox.Evolution.{Carried, Lives-refl, Ends, Ends-refl, HasSentDown, IsSound}
use link_alive.Worker.Outbox.Invariant.{Inv, IsUnderWay, IsDelivery, has_outbox_id, Inv-Evolves}
use link_alive.Worker.Outbox.Quiet.{DispatchStep-Evolves, fail_outbox-Evolves}
use link_alive.Worker.Outbox.Arrivals.{Inv-add_row, mark_sent-Inv}
use link_alive.Worker.Outbox.Claiming.{Keeps, claim-Keeps}

-- `base` are rows that are still there.
abbrev IsGood : List NotificationOutbox → System → Type 0
IsGood base s = Inv base s.outbox.rows s.outbox.deliveries s.outbox.next_id s.running

abbrev pub IsConsistent : System → Type 0
IsConsistent = IsGood []

IsConsistent-IsGood : (s : System) → IsConsistent s → IsGood s.outbox.rows s
IsConsistent-IsGood s w = record {
  carried = λ o among. (o, among, Lives-refl o);
  unique = w.unique;
  fresh = w.fresh;
  sound = w.sound;
  ordered = w.ordered;
  under_way = w.under_way;
  counted = w.counted;
  single = w.single;
  delivered = w.delivered;
}

among-All {κ} :
    {A : Type 0} (P : A → Type κ) (a : A) (list : List A) → Among a list → All P list → P a
among-All P a _ first (p, h) = p
among-All P a _ (further later) (p, h) = among-All P a _ later h

mark_failed-Inv :
    (base : List NotificationOutbox) (now random : ℕ) (c : ClaimedNotification)
    (error : NotificationProviderError) (s : Outbox) (running : List ClaimedNotification)
    → Inv base s.rows s.deliveries s.next_id running
    → let t = mark_failed now random c error s in Inv base t.rows t.deliveries t.next_id running
unfolding mark_failed
mark_failed-Inv base now random c error s running w =
    Inv-Evolves base s.rows _ s.deliveries _ s.next_id running
      (fail_outbox-Evolves (will_retry c error) now random c error s.rows)
      (Each-update_many Ends (has_delivery_id c.delivery_id) _ Ends-refl
        (λ d p passes. ground arith) s.deliveries w.delivered)
      w

claimed-Inv :
    (base : List NotificationOutbox) (running : List ClaimedNotification)
    (r : Result ClaimError (Option ClaimedNotification × Outbox)) (c : Option ClaimedNotification)
    (t : Outbox)
    → r ≡ ok (c, t)
    → Keeps base running r
    → Inv base t.rows t.deliveries t.next_id (remember c running)
claimed-Inv base running (throw e) c t same k = absurd k
claimed-Inv base running (ok (d, u)) c t same k =
    let left : d ≡ c = cc in let right : u ≡ t = cc in simp (← left, ← right) k

returned :
    (base : List NotificationOutbox) (running : List ClaimedNotification)
    (r : Result ClaimError (Option ClaimedNotification × Outbox))
    → Keeps base running r
    → (v : Option ClaimedNotification × Outbox) × (r ≡ ok v)
returned base running (throw e) k = absurd k
returned base running (ok v) k = (v, refl)

module _ (message_id : (incident_id channel_id : ℕ) → List ℕ → List ℕ)
    (encode_uri_component : List ℕ → List ℕ) (to_iso_string : ℕ → List ℕ) where
  Step-IsGood :
      (base : List NotificationOutbox) (s t : System)
      → Step message_id encode_uri_component to_iso_string s t
      → IsGood base s
      → IsGood base t
  Step-IsGood base s _ (created o new) w = Inv-add_row base s.outbox s.running o new w
  Step-IsGood base s _ (dispatched rows step) w =
      Inv-Evolves base s.outbox.rows rows s.outbox.deliveries s.outbox.deliveries s.outbox.next_id
        s.running (DispatchStep-Evolves s.outbox.rows rows step)
        (Each-refl Ends Ends-refl s.outbox.deliveries) w
  Step-IsGood base s _ (attempted db instance_id lease_ms now id c outbox made) w =
      claimed-Inv base s.running _ c outbox made
        (claim-Keeps base s.running instance_id lease_ms now db id s.outbox w)
  Step-IsGood base s _ (answered db now c provider_message_id running) w =
      mark_sent-Inv base s.running message_id encode_uri_component to_iso_string db now c
        provider_message_id s.outbox
        (among-All (IsUnderWay s.outbox.rows s.outbox.next_id) c s.running running w.under_way) w
  Step-IsGood base s _ (failed now random c error running) w =
      mark_failed-Inv base now random c error s.outbox s.running w

  Reaches-IsGood :
      (base : List NotificationOutbox) (s t : System)
      → Reaches message_id encode_uri_component to_iso_string s t
      → IsGood base s
      → IsGood base t
  Reaches-IsGood base s _ no_step w = w
  Reaches-IsGood base s _ (next_step t u earlier step) w =
      Step-IsGood base t u step (Reaches-IsGood base s t earlier w)

  -- However dispatchers and processors interleave, from a consistent outbox on every notification
  -- stays, of its event, incident, channel and message id, its attempts are never fewer, and once it
  -- has been sent it stays sent and has no further attempt.
  pub Reaches-Carried :
      (s t : System)
      → Reaches message_id encode_uri_component to_iso_string s t
      → IsConsistent s
      → Carried s.outbox.rows t.outbox.rows
  Reaches-Carried s t path w =
      (Reaches-IsGood s.outbox.rows s t path (IsConsistent-IsGood s w)).carried

  -- However dispatchers and processors interleave, from a consistent outbox on a recovery of an
  -- incident that is being sent or was sent has a DOWN event of the same incident and channel that
  -- was sent.
  pub Reaches-follows_down :
      (s t : System) (o : NotificationOutbox) (incident_id : ℕ)
      → Reaches message_id encode_uri_component to_iso_string s t
      → IsConsistent s
      → Among o t.outbox.rows
      → is_recovery o.event_type ≡ true
      → o.incident_id ≡ some incident_id
      → (is_sent o.status || is_processing o.status) ≡ true
      → HasSentDown incident_id o.channel_id t.outbox.rows
  Reaches-follows_down s t o incident_id path w among recovers has active =
      let v = Reaches-IsGood [] s t path w in
      let sound = among-All IsSound o t.outbox.rows among v.sound in
      among-All _ o t.outbox.rows among v.ordered recovers incident_id has (sound.started active)

  -- However dispatchers and processors interleave, from a consistent outbox on each notification has
  -- as many deliveries as attempts and no more than its maximum, one of them at most is under way,
  -- each delivery has the message id of its notification, and every claim returns.
  pub Reaches-attempts :
      (s t : System) (o : NotificationOutbox)
      → Reaches message_id encode_uri_component to_iso_string s t
      → IsConsistent s
      → Among o t.outbox.rows
      → (count (has_outbox_id o.id) t.outbox.deliveries ≡ o.attempt_count)
        × (o.attempt_count ≤ o.max_attempts)
        × (count (is_attempt_of o.id) t.outbox.deliveries ≤ 1)
        × ((d : NotificationDelivery)
            → Among d t.outbox.deliveries
            → o.id ≡ d.outbox_id
            → d.message_id ≡ o.message_id)
        × ((db : Surroundings) (instance_id lease_ms now id : ℕ)
            → (r : Option ClaimedNotification × Outbox) × (claim instance_id lease_ms db now id
                  t.outbox
                ≡ ok r))
  Reaches-attempts s t o path w among =
      let v = Reaches-IsGood [] s t path w in
      (
        among-All (λ p. count (has_outbox_id p.id) t.outbox.deliveries ≡ p.attempt_count) o
            t.outbox.rows among v.counted,
        (among-All IsSound o t.outbox.rows among v.sound).bounded,
        v.single o.id,
        (λ d of same.
            (among-All _ o t.outbox.rows among
              (among-All (IsDelivery t.outbox.rows t.outbox.next_id) d t.outbox.deliveries of
                v.delivered).1
              same).1),
        (λ db instance_id lease_ms now id.
            returned [] t.running _
              (claim-Keeps [] t.running instance_id lease_ms now db id t.outbox v)),
      )
