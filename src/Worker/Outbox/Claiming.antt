-- ===== src/Worker/Outbox/Claiming.antt =====
-- `claim` keeps the invariant, and never violates the unique index on the attempts.
use link_alive.Common.{
  ℕ, ◌+◌, ◌≤◌, ◌<◌, ◌≡◌, refl, Bool, false, not, Option, none, some, List, [], ◌∷◌, All, All-map,
  Result, ok, throw, arith, leb, any, count, if-holds_cases, Each-refl, Bool-cases, inl, inr,
}
use link_alive.Worker.Delivery.{is_sent}
use link_alive.Worker.Outbox.Rows.{
  NotificationOutbox, NotificationDelivery, Outbox, Surroundings, is_at_id, find_row,
}
use link_alive.Worker.Outbox.Claims.{
  ClaimError, ClaimedNotification, is_attempt_of, is_attempt, interrupt_attempts, is_held_back,
  is_claimable, start_attempt, claim_due, claim_found, claim_if_found, claim,
}
use link_alive.Worker.Outbox.Steps.{remember}
use link_alive.Worker.Outbox.Evolution.{Evolves, Evolves-refl, EachEvolves, Ends, Ends-refl}
use link_alive.Worker.Outbox.Invariant.{Inv, IsOfAttempt, Inv-Evolves}
use link_alive.Worker.Outbox.Quiet.{IsOnly, found-IsOnly, close_channel-Evolves, exhaust-Evolves}
use link_alive.Worker.Outbox.Attempts.{count-interrupt, interrupt-Ends, started-Inv}

module _ (base : List NotificationOutbox) (running : List ClaimedNotification) where
  abbrev Good : Outbox → Type 0
  Good s = Inv base s.rows s.deliveries s.next_id running

  -- The claim returned, and what it leaves satisfies the invariant.
  abbrev pub Keeps : Result ClaimError (Option ClaimedNotification × Outbox) → Type 0
  Keeps (throw e) = ⊥
  Keeps (ok (c, s)) = Inv base s.rows s.deliveries s.next_id (remember c running)

  evolve :
      (s : Outbox) (after : List NotificationOutbox)
      → EachEvolves s.rows after
      → Good s
      → Good (record s { rows = after })
  evolve s after h w =
      Inv-Evolves base s.rows after s.deliveries s.deliveries s.next_id running h
        (Each-refl Ends Ends-refl s.deliveries) w

  found-All {κ} :
      (P : NotificationOutbox → Type κ) (test : NotificationOutbox → Bool) (o : NotificationOutbox)
      (rows : List NotificationOutbox)
      → find_row test rows ≡ some o
      → All P rows
      → P o
  found-All P test o [] found h = absurd cc
  found-All P test o (p ∷ ps) found (q, h) = elim (Bool-cases (test p)) [
    | inl passes ↦
        let e : some p ≡ some o = rw passes at found in let same : p ≡ o = cc in rw (← same) q
    | inr fails ↦ found-All P test o ps (rw fails at found) h
  ]

  -- No delivery is of an attempt that is still to come.
  attempt_free :
      (o : NotificationOutbox) (ds : List NotificationDelivery)
      → All (λ d. o.id ≡ d.outbox_id → d.attempt ≤ o.attempt_count) ds
      → any (is_attempt o.id (o.attempt_count + 1)) ds ≡ false
  attempt_free o [] h = refl
  attempt_free o (d ∷ ds) (few, h) = let rest = attempt_free o ds h in ground arith

  module _ (instance_id lease_ms now : ℕ) where
    start_attempt-Keeps :
        (o : NotificationOutbox) (s : Outbox)
        → All (IsOnly o) s.rows
        → o.id < s.next_id
        → is_sent o.status ≡ false
        → o.attempt_count < o.max_attempts
        → is_held_back o s.rows ≡ false
        → count (is_attempt_of o.id) s.deliveries ≡ 0
        → All (λ d. o.id ≡ d.outbox_id → d.attempt ≤ o.attempt_count) s.deliveries
        → Good s
        → Keeps (start_attempt instance_id lease_ms now o s)
    unfolding start_attempt
    start_attempt-Keeps o s only lt unsent room free none_open few w =
        let fits = attempt_free o s.deliveries few in
        if-holds_cases Keeps (any (is_attempt o.id (o.attempt_count + 1)) s.deliveries)
          (λ clash. absurd cc)
          (λ h.
            started-Inv instance_id lease_ms now o base s running _ refl only lt unsent room free
              none_open w)

    claim_due-Keeps :
        (o : NotificationOutbox) (s : Outbox)
        → All (IsOnly o) s.rows
        → o.id < s.next_id
        → is_sent o.status ≡ false
        → count (is_attempt_of o.id) s.deliveries ≡ 0
        → All (λ d. o.id ≡ d.outbox_id → d.attempt ≤ o.attempt_count) s.deliveries
        → Good s
        → Keeps (claim_due instance_id lease_ms now o s)
    unfolding claim_due
    claim_due-Keeps o s only lt unsent none_open few w =
        if-holds_cases Keeps (is_held_back o s.rows) (λ held. w)
          (λ free.
            if-holds_cases Keeps (leb o.max_attempts o.attempt_count)
              (λ spent. evolve s _ (exhaust-Evolves now o s.rows unsent only) w)
              (λ room. start_attempt-Keeps o s only lt unsent (ground arith) free none_open few w))

    claim_found-Keeps :
        (db : Surroundings) (id : ℕ) (o : NotificationOutbox) (s : Outbox)
        → find_row (is_at_id id) s.rows ≡ some o
        → Good s
        → Keeps (claim_found instance_id lease_ms db now o s)
    unfolding claim_found
    claim_found-Keeps db id o s found w =
        let only = found-IsOnly (is_at_id id) o s.rows w.unique found in
        let lt = found-All (λ p. p.id < s.next_id) (is_at_id id) o s.rows found w.fresh in
        let ds = interrupt_attempts o.id now s.deliveries in
        let after : Good (record s { deliveries = ds }) =
          Inv-Evolves base s.rows s.rows s.deliveries ds s.next_id running
            (Each-refl Evolves Evolves-refl s.rows) (interrupt-Ends o.id now s.deliveries) w in
        if-holds_cases Keeps (not (db.is_live o.channel_id))
          (λ gone. evolve s _ (close_channel-Evolves now o s.rows only) w)
          (λ live.
            if-holds_cases Keeps (not (is_claimable now o)) (λ not_due. w)
              (λ due.
                claim_due-Keeps o (record s { deliveries = ds }) only lt
                  (unfold is_claimable in ground arith) (count-interrupt o.id now s.deliveries)
                  (All-map
                    (λ d of e. (found-All (IsOfAttempt d) (is_at_id id) o s.rows found of.1 e).0) ds
                    after.delivered)
                  after))

    claim_if_found-Keeps :
        (db : Surroundings) (id : ℕ) (found : Option NotificationOutbox) (s : Outbox)
        → find_row (is_at_id id) s.rows ≡ found
        → Good s
        → Keeps (claim_if_found instance_id lease_ms db now found s)
    unfolding claim_if_found
    claim_if_found-Keeps db id none s found w = w
    claim_if_found-Keeps db id (some o) s found w = claim_found-Keeps db id o s found w

    -- `claim` returns, and keeps the invariant.
    pub claim-Keeps :
        (db : Surroundings) (id : ℕ) (s : Outbox)
        → Good s
        → Keeps (claim instance_id lease_ms db now id s)
    unfolding claim
    claim-Keeps db id s w = claim_if_found-Keeps db id _ s refl w
