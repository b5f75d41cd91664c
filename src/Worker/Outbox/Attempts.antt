-- ===== src/Worker/Outbox/Attempts.antt =====
-- The start of an attempt keeps the invariant, and `claim` never violates the unique index.
use link_alive.Common.{
  ℕ, ◌+◌, ◌≤◌, ◌<◌, ◌≡◌, ◌≢◌, refl, sym, Bool, true, false, Option, none, some, List, [], ◌∷◌, All,
  All-map, arith, ◌==◌, count, All-Each, Each, Bool-cases, ◌⊎◌, inl, inr,
}
use link_alive.Worker.Delivery.{is_sent, is_recovery}
use link_alive.Worker.Outbox.Rows.{NotificationOutbox, NotificationDelivery, Outbox, find_row}
use link_alive.Worker.Outbox.Statements.{is_down_of}
use link_alive.Worker.Outbox.Claims.{
  ClaimedNotification, update_row, is_attempt_of, interrupt_attempts, sent_row, lacks_down,
  is_held_back, start_row, new_delivery,
}
use link_alive.Worker.Outbox.Evolution.{
  Lives, Lives-refl, EachLives, IsSound, EachEnds, HasSentDown, HasSentDown-Lives, Carried-Lives,
}
use link_alive.Worker.Outbox.Invariant.{
  Inv, HasDistinctIds-Lives, IsOrdered, has_outbox_id, IsOfAttempt,
}
use link_alive.Worker.Outbox.Quiet.{IsOnly}

found-HasSentDown :
    (i c : ℕ) (rows : List NotificationOutbox)
    → sent_row (find_row (is_down_of i c) rows) ≡ true
    → HasSentDown i c rows
found-HasSentDown i c [] h = cc
found-HasSentDown i c (o ∷ os) h = elim (Bool-cases (is_down_of i c o)) [
  | inl passes ↦ let sent : is_sent o.status ≡ true = rw passes at h in ground arith
  | inr fails ↦ let rest = found-HasSentDown i c os (rw fails at h) in ground arith
]

-- A notification that is not held back may have an attempt.
lacks_down-HasSentDown :
    (recovers : Bool) (incident : Option ℕ) (c i : ℕ) (rows : List NotificationOutbox)
    → lacks_down recovers incident c rows ≡ false
    → recovers ≡ true
    → incident ≡ some i
    → HasSentDown i c rows
unfolding lacks_down
lacks_down-HasSentDown false incident c i rows h recovers has = absurd cc
lacks_down-HasSentDown true none c i rows h recovers has = absurd cc
lacks_down-HasSentDown true (some j) c i rows h recovers has =
    let same : j ≡ i = cc in rw (← same) (found-HasSentDown j c rows (ground arith))

pub count-interrupt :
    (id now : ℕ) (ds : List NotificationDelivery)
    → count (is_attempt_of id) (interrupt_attempts id now ds) ≡ 0
unfolding interrupt_attempts
count-interrupt id now [] = refl
count-interrupt id now (d ∷ ds) = let rest = count-interrupt id now ds in ground arith

pub interrupt-Ends :
    (id now : ℕ) (ds : List NotificationDelivery) → EachEnds ds (interrupt_attempts id now ds)
unfolding interrupt_attempts
interrupt-Ends id now [] = tt
interrupt-Ends id now (d ∷ ds) = (ground arith, interrupt-Ends id now ds)

moved : (P : NotificationOutbox → Type 0) (p q : NotificationOutbox) → q ≡ p → P p → P q
moved P p q same h = rw same h

module _ (instance_id lease_ms now : ℕ) (o : NotificationOutbox) where
  abbrev attempt : ℕ
  attempt = o.attempt_count + 1

  abbrev start : NotificationOutbox → NotificationOutbox
  start = start_row instance_id lease_ms now attempt

  -- Of the rows, only `o` has changed.
  abbrev Starts : NotificationOutbox → NotificationOutbox → Type 0
  Starts p q = ((p.id ≢ o.id) × (q ≡ p)) ⊎ ((p ≡ o) × (q ≡ start o))

  Each-Starts :
      (rows : List NotificationOutbox)
      → All (IsOnly o) rows
      → Each Starts rows (update_row o.id start rows)
  Each-Starts [] h = tt
  Each-Starts (p ∷ ps) (only, h) =
      let rest = Each-Starts ps h in
      elim (Bool-cases (p.id == o.id)) [
        | inl mine ↦
            let same : p ≡ o = only (ground arith) in rw mine (inr (same, rw same refl), rest)
        | inr other ↦ rw other (inl (ground arith, refl), rest)
      ]

  Starts-Lives : (p q : NotificationOutbox) → is_sent o.status ≡ false → Starts p q → Lives p q
  Starts-Lives p q unsent (inl (n, same)) = rw same (Lives-refl p)
  Starts-Lives p q unsent (inr (same, started)) = rw (same, started) (ground arith)

  EachLives-Starts :
      (rows after : List NotificationOutbox)
      → is_sent o.status ≡ false
      → Each Starts rows after
      → EachLives rows after
  EachLives-Starts [] [] unsent h = tt
  EachLives-Starts (p ∷ ps) (q ∷ qs) unsent (s, h) =
      (Starts-Lives p q unsent s, EachLives-Starts ps qs unsent h)
  EachLives-Starts _ _ unsent h = absurd h

  abbrev delivery : ℕ → NotificationDelivery
  delivery next_id = new_delivery instance_id lease_ms now next_id attempt o

  Starts-IsSound :
      (p q : NotificationOutbox)
      → o.attempt_count < o.max_attempts
      → Starts p q
      → IsSound p
      → IsSound q
  Starts-IsSound p q lt (inl (n, same)) w = rw same w
  Starts-IsSound p q lt (inr (same, started)) w =
      rw started (record { started = λ active. omega arith; bounded = omega arith })

  Starts-IsOrdered :
      (rows after : List NotificationOutbox)
      → EachLives rows after
      → is_held_back o rows ≡ false
      → (p q : NotificationOutbox) → Starts p q
      → IsOrdered rows p
      → IsOrdered after q
  unfolding is_held_back
  Starts-IsOrdered rows after h free p q (inl (n, same)) ordered =
      rw same (λ recovers i has positive.
        HasSentDown-Lives i p.channel_id rows after h (ordered recovers i has positive))
  Starts-IsOrdered rows after h free p q (inr (same, started)) ordered =
      rw started (λ recovers i has positive. HasSentDown-Lives i o.channel_id rows after h (
        lacks_down-HasSentDown (is_recovery o.event_type) o.incident_id o.channel_id i rows free
          recovers has))

  Starts-positive :
      (id : ℕ) (p q : NotificationOutbox)
      → Starts p q
      → (p.id ≡ id → 0 < p.attempt_count)
      → q.id ≡ id
      → 0 < q.attempt_count
  Starts-positive id p q (inl (n, same)) positive e = rw same (positive (rw same at e))
  Starts-positive id p q (inr (same, started)) positive e = rw started (omega arith)

  Starts-positive_own : (p q : NotificationOutbox) → Starts p q → q.id ≡ o.id → 0 < q.attempt_count
  Starts-positive_own p q (inl (n, same)) e = absurd (n (rw same at e))
  Starts-positive_own p q (inr (same, started)) e = rw started (omega arith)

  Starts-counted :
      (ds : List NotificationDelivery) (next_id : ℕ) (p q : NotificationOutbox)
      → Starts p q
      → count (has_outbox_id p.id) ds ≡ p.attempt_count
      → count (has_outbox_id q.id) (delivery next_id ∷ ds) ≡ q.attempt_count
  Starts-counted ds next_id p q (inl (n, same)) counted =
      let kept : count (has_outbox_id p.id) (delivery next_id ∷ ds) ≡ p.attempt_count =
        ground arith in
      moved
        (λ (r : NotificationOutbox).
          count (has_outbox_id r.id) (delivery next_id ∷ ds) ≡ r.attempt_count)
        p q same kept
  Starts-counted ds next_id p q (inr (same, started)) counted =
      let c : count (has_outbox_id o.id) ds ≡ o.attempt_count =
        moved (λ (r : NotificationOutbox). count (has_outbox_id r.id) ds ≡ r.attempt_count) p o
          (sym same) counted in
      let one_more : count (has_outbox_id o.id) (delivery next_id ∷ ds) ≡ attempt = ground arith in
      moved
        (λ (r : NotificationOutbox).
          count (has_outbox_id r.id) (delivery next_id ∷ ds) ≡ r.attempt_count)
        (start o) q started one_more

  Starts-IsOfAttempt :
      (d : NotificationDelivery) (p q : NotificationOutbox)
      → Starts p q
      → IsOfAttempt d p
      → IsOfAttempt d q
  Starts-IsOfAttempt d p q (inl (n, same)) of e = rw same (of (rw same at e))
  Starts-IsOfAttempt d p q (inr (same, started)) of e =
      let of_o : IsOfAttempt d o = simp (← same) of in
      let (few, message) = of_o (rw started at e) in rw started (omega arith, message)

  Starts-IsOfAttempt_own :
      (next_id : ℕ) (p q : NotificationOutbox) → Starts p q → IsOfAttempt (delivery next_id) q
  Starts-IsOfAttempt_own next_id p q (inl (n, same)) e = absurd (n (rw same at e))
  Starts-IsOfAttempt_own next_id p q (inr (same, started)) e = rw started (omega arith, refl)

  single_after :
      (id : ℕ) (ds : List NotificationDelivery) (next_id : ℕ)
      → count (is_attempt_of o.id) ds ≡ 0
      → count (is_attempt_of id) ds ≤ 1
      → count (is_attempt_of id) (delivery next_id ∷ ds) ≤ 1
  single_after id ds next_id none_open few = elim (Bool-cases (o.id == id)) [
    | inl mine ↦
        let same : o.id ≡ id = ground arith in
        let zero_open : count (is_attempt_of id) ds ≡ 0 = rw (← same) none_open in ground arith
    | inr other ↦ ground arith
  ]

  -- A claim that is due, of the one row of its id, starts an attempt and keeps the invariant.
  pub started-Inv :
      (base : List NotificationOutbox) (s : Outbox) (running : List ClaimedNotification)
      (c : ClaimedNotification)
      → c.outbox ≡ start o
      → All (IsOnly o) s.rows
      → o.id < s.next_id
      → is_sent o.status ≡ false
      → o.attempt_count < o.max_attempts
      → is_held_back o s.rows ≡ false
      → count (is_attempt_of o.id) s.deliveries ≡ 0
      → Inv base s.rows s.deliveries s.next_id running
      → Inv base
          (update_row o.id start s.rows)
          (delivery s.next_id ∷ s.deliveries)
          (s.next_id + 1)
          (c ∷ running)
  started-Inv base s running c claims only lt unsent room free none_open w =
      let starts = Each-Starts s.rows only in
      let after : List NotificationOutbox = update_row o.id start s.rows in
      let lives = EachLives-Starts s.rows after unsent starts in
      record {
        carried = Carried-Lives base s.rows after lives w.carried;
        unique = HasDistinctIds-Lives s.rows after lives w.unique;
        fresh = All-Each Lives (λ p q l h. rw l.same_id (omega arith)) s.rows after lives w.fresh;
        sound = All-Each Starts (λ p q h. Starts-IsSound p q room h) s.rows after starts w.sound;
        ordered =
            All-Each Starts (Starts-IsOrdered s.rows after lives free) s.rows after starts
              w.ordered;
        under_way = (
          (
            rw claims (omega arith),
            rw claims (
                All-Each Starts (λ p q h u. Starts-positive_own p q h) s.rows after starts w.sound),
          ),
          All-map
              (λ k under. (
                omega (arith, under.0),
                All-Each Starts (Starts-positive k.outbox.id) s.rows after starts under.1,
              ))
              running w.under_way,
        );
        counted =
            All-Each Starts (Starts-counted s.deliveries s.next_id) s.rows after starts w.counted;
        single =
            λ id. let few = w.single id in single_after id s.deliveries s.next_id none_open few;
        delivered = (
          (
            omega arith,
            All-Each Starts (λ p q h u. Starts-IsOfAttempt_own s.next_id p q h) s.rows after starts
                w.sound,
          ),
          All-map
              (λ d of. (
                omega (arith, of.0),
                All-Each Starts (Starts-IsOfAttempt d) s.rows after starts of.1,
              ))
              s.deliveries w.delivered,
        );
      }
