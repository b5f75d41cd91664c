-- ===== src/Worker/Outbox/Invariant.antt =====
-- What holds of the outbox, its deliveries and the claims that are under way, and that a change of
-- rows that starts no attempt keeps it.
use link_alive.Common.{
  ℕ, ◌≤◌, ◌<◌, ◌≡◌, ◌≢◌, refl, ◌∙◌, Bool, true, some, List, [], ◌∷◌, All, All-map, arith, ◌==◌,
  count, All-Each,
}
use link_alive.Worker.Delivery.{is_recovery}
use link_alive.Worker.Outbox.Rows.{NotificationOutbox, NotificationDelivery}
use link_alive.Worker.Outbox.Claims.{ClaimedNotification, is_attempt_of}
use link_alive.Worker.Outbox.Evolution.{
  Lives, Evolves, IsSound, EachEvolves, EachLives, EachLives-of_Evolves, Ends, EachEnds,
  HasSentDown, HasSentDown-Lives, Carried, Carried-Lives,
}

-- No row of these has the id.
abbrev pub IsAbsent : ℕ → List NotificationOutbox → Type 0
IsAbsent id = All (λ o. o.id ≢ id)

abbrev pub HasDistinctIds : List NotificationOutbox → Type 0
HasDistinctIds [] = Unit
HasDistinctIds (o ∷ os) = IsAbsent o.id os × HasDistinctIds os

-- A recovery of an incident that has been attempted has a DOWN event that has been sent.
abbrev pub IsOrdered : List NotificationOutbox → NotificationOutbox → Type 0
IsOrdered rows o =
    is_recovery o.event_type ≡ true
    → (incident_id : ℕ) → o.incident_id ≡ some incident_id
    → 0 < o.attempt_count
    → HasSentDown incident_id o.channel_id rows

-- A claim is of a row that has had an attempt.
abbrev pub IsUnderWay : List NotificationOutbox → ℕ → ClaimedNotification → Type 0
IsUnderWay rows next_id c =
    (c.outbox.id < next_id) × All (λ p. p.id ≡ c.outbox.id → 0 < p.attempt_count) rows

abbrev pub has_outbox_id : ℕ → NotificationDelivery → Bool
has_outbox_id id d = d.outbox_id == id

-- A delivery is of an attempt that its notification has had, under its message id.
abbrev pub IsOfAttempt : NotificationDelivery → NotificationOutbox → Type 0
IsOfAttempt d p = p.id ≡ d.outbox_id → (d.attempt ≤ p.attempt_count) × (d.message_id ≡ p.message_id)

abbrev pub IsDelivery : List NotificationOutbox → ℕ → NotificationDelivery → Type 0
IsDelivery rows next_id d = (d.outbox_id < next_id) × All (IsOfAttempt d) rows

pub record Inv (base rows : List NotificationOutbox) (deliveries : List NotificationDelivery)
    (next_id : ℕ) (running : List ClaimedNotification) : Type 0 where
  pub carried : Carried base rows
  pub unique : HasDistinctIds rows
  pub fresh : All (λ o. o.id < next_id) rows
  pub sound : All IsSound rows
  pub ordered : All (IsOrdered rows) rows
  pub under_way : All (IsUnderWay rows next_id) running
  pub counted : All (λ o. count (has_outbox_id o.id) deliveries ≡ o.attempt_count) rows
  pub single : (id : ℕ) → count (is_attempt_of id) deliveries ≤ 1
  pub delivered : All (IsDelivery rows next_id) deliveries

IsAbsent-Lives :
    (id : ℕ) (rows after : List NotificationOutbox)
    → EachLives rows after
    → IsAbsent id rows
    → IsAbsent id after
IsAbsent-Lives id rows after h away =
    All-Each Lives (λ o p l n same. n (ground (arith, l.same_id))) rows after h away

pub HasDistinctIds-Lives :
    (rows after : List NotificationOutbox)
    → EachLives rows after
    → HasDistinctIds rows
    → HasDistinctIds after
HasDistinctIds-Lives [] [] h w = tt
HasDistinctIds-Lives (o ∷ os) (p ∷ ps) (l, h) (away, w) = (
  IsAbsent-Lives p.id os ps h (let same = l.same_id in rw same away),
  HasDistinctIds-Lives os ps h w,
)
HasDistinctIds-Lives _ _ h w = absurd h

count-Ends :
    (id : ℕ) (ds after : List NotificationDelivery)
    → EachEnds ds after
    → count (has_outbox_id id) after ≡ count (has_outbox_id id) ds
count-Ends id [] [] h = refl
count-Ends id (d ∷ ds) (e ∷ es) (s, h) =
    let rest = count-Ends id ds es h in let same = s.same_outbox in ground arith
count-Ends id _ _ h = absurd h

count-attempts-Ends :
    (id : ℕ) (ds after : List NotificationDelivery)
    → EachEnds ds after
    → count (is_attempt_of id) after ≤ count (is_attempt_of id) ds
count-attempts-Ends id [] [] h = omega arith
count-attempts-Ends id (d ∷ ds) (e ∷ es) (s, h) =
    let rest = count-attempts-Ends id ds es h in
    let same = s.same_outbox in let still = s.attempting in ground arith
count-attempts-Ends id _ _ h = absurd h

IsOrdered-Evolves :
    (rows after : List NotificationOutbox)
    → EachLives rows after
    → (o p : NotificationOutbox) → Evolves o p
    → IsOrdered rows o
    → IsOrdered after p
IsOrdered-Evolves rows after h o p e ordered recovers incident_id has_incident positive =
    let l = e.lives in
    let channel = l.same_channel in
    rw channel (
      HasSentDown-Lives incident_id o.channel_id rows after h (
        ordered (rw (← l.same_type) recovers) incident_id (rw (← l.same_incident) has_incident)
          (rw (← e.same_count) positive)))

IsUnderWay-Evolves :
    (rows after : List NotificationOutbox) (next_id : ℕ)
    → EachEvolves rows after
    → (c : ClaimedNotification) → IsUnderWay rows next_id c
    → IsUnderWay after next_id c
IsUnderWay-Evolves rows after next_id h c (lt, w) = (
  lt,
  All-Each Evolves
      (λ o p e positive same. rw e.same_count (positive (ground (arith, e.lives.same_id)))) rows
      after h w,
)

IsDelivery-Evolves :
    (rows after : List NotificationOutbox) (next_id : ℕ)
    → EachEvolves rows after
    → (d e : NotificationDelivery) → Ends d e
    → IsDelivery rows next_id d
    → IsDelivery after next_id e
IsDelivery-Evolves rows after next_id h d e s (lt, w) = (
  rw s.same_outbox lt,
  All-Each Evolves
      (λ o p v of same.
        let (few, message) = of (ground (arith, v.lives.same_id, s.same_outbox)) in
        ground (arith, v.lives.same_message, v.same_count, s.same_attempt, s.same_message))
      rows after h w,
)

-- A change of rows and deliveries that starts no attempt keeps the invariant.
pub Inv-Evolves :
    (base rows after : List NotificationOutbox) (deliveries ended : List NotificationDelivery)
    (next_id : ℕ) (running : List ClaimedNotification)
    → EachEvolves rows after
    → EachEnds deliveries ended
    → Inv base rows deliveries next_id running
    → Inv base after ended next_id running
Inv-Evolves base rows after deliveries ended next_id running h k w =
    let lives = EachLives-of_Evolves rows after h in
    record {
      carried = Carried-Lives base rows after lives w.carried;
      unique = HasDistinctIds-Lives rows after lives w.unique;
      fresh = All-Each Evolves (λ o p e lt. rw e.lives.same_id lt) rows after h w.fresh;
      sound = All-Each Evolves (λ o p e s. e.keeps s) rows after h w.sound;
      ordered = All-Each Evolves (IsOrdered-Evolves rows after lives) rows after h w.ordered;
      under_way = All-map (IsUnderWay-Evolves rows after next_id h) running w.under_way;
      counted =
          All-Each Evolves
            (λ o p e same.
              rw e.lives.same_id (count-Ends o.id deliveries ended k ∙ (same ∙ (sym_count o p e))))
            rows after h w.counted;
      single = λ id. omega (arith, count-attempts-Ends id deliveries ended k, w.single id);
      delivered =
          All-Each Ends (IsDelivery-Evolves rows after next_id h) deliveries ended k w.delivered;
    }
  where
    sym_count : (o p : NotificationOutbox) → Evolves o p → o.attempt_count ≡ p.attempt_count
    sym_count o p e = let same = e.same_count in omega arith
