-- ===== src/Ledger/Leases.antt =====
-- A lease on a check lasts through the steps that respect it.
use link_alive.Common.{
  ℕ, ◌≤◌, ◌<◌, ◌≡◌, ◌≢◌, sym, Bool, true, false, ◌&&◌, Option, none, some, List, [], ◌∷◌, All,
  arith, ◌==◌, leb, update_many, All-update_many, ℕ_discrete, inl, inr, ok, >>=-eq-ok,
}
use link_alive.Database.Checks.{ScheduledCheck, is_open, is_pending}
use link_alive.Monitoring.Types.{MonitorCheckResult}
use link_alive.Scheduler.Store.{
  Tables, DueMonitorRow, ScheduledCheckSummary, new_check, create_due_check, create_due_checks,
  is_owner, is_claimable, claim_row, is_claimed_by, enqueue_row, release_row, claim_for_dispatch,
  mark_enqueued, release_dispatch_claim,
}
use link_alive.Worker.CheckProcessor.Claims.{
  start_row, is_startable, cancel_row, finish_row, claim_for_run, cancel_stale, complete_check,
}
use link_alive.Ledger.{
  Step, created, claimed, enqueued, released, started, canceled, completed, Reaches, no_step,
  next_step,
}
use link_alive.Ledger.Rows.{and-right}
use link_alive.Ledger.Consistency.{create_due_check-Adds}

abbrev pub lasts : Option ℕ → ℕ → Bool
lasts none until = false
lasts (some t) until = leb until t

-- The check of this id has ended, or its lease lasts until `until` and, so far as no worker has
-- started it and it is not in the queue, belongs to `owner`.
pub record IsLeased (id owner until : ℕ) (c : ScheduledCheck) : Type 0 where
  pub lease : c.id ≡ id → is_open c.status ≡ true → lasts c.lease_until until ≡ true
  pub held : c.id ≡ id → is_pending c.status ≡ true → is_owner c.lease_owner owner ≡ true

-- What a step on the check must respect while the lease lasts: a claim is made before the end of the
-- lease, a worker or the queue sets no lease that ends earlier, and the owner does not release it.
-- Steps on other checks are free.
abbrev pub Respects : (id owner until : ℕ) {t u : Tables} → Step t u → Type 0
Respects id owner until (created now due summaries u answer made) = Unit
Respects id owner until (claimed k o now lease_until) = k ≡ id → now ≤ until
Respects id owner until (enqueued k o now lease_until) = k ≡ id → until ≤ lease_until
Respects id owner until (released k o reason) = k ≡ id → o ≢ owner
Respects id owner until (started k instance_id now lease_until) = k ≡ id → until ≤ lease_until
Respects id owner until (canceled reason k now) = Unit
Respects id owner until (completed was_canceled result k finished_at read) = Unit

abbrev pub AllRespect : (id owner until : ℕ) {t u : Tables} → Reaches t u → Type 0
AllRespect id owner until no_step = Unit
AllRespect id owner until (next_step u v earlier step) =
    AllRespect id owner until earlier × Respects id owner until step

module _ (id owner until : ℕ) where
  pub not_claimable :
      (now : ℕ) (c : ScheduledCheck)
      → now ≤ until
      → (is_open c.status ≡ true → lasts c.lease_until until ≡ true)
      → is_claimable now c ≡ false
  unfolding is_claimable
  not_claimable now c before lease = ground arith

  held_by :
      (o : ℕ) (c : ScheduledCheck)
      → (is_pending c.status ≡ true → is_owner c.lease_owner owner ≡ true)
      → is_claimed_by o c ≡ true
      → o ≡ owner
  unfolding is_claimed_by
  held_by o c held mine = ground arith

  true-ne-false : {b : Bool} → b ≡ false → b ≡ true → ⊥
  true-ne-false e p = cc

  same_row : (c : ScheduledCheck) (k : ℕ) (b : Bool) → c.id ≡ id → (c.id == k && b) ≡ true → k ≡ id
  same_row c k b mine test = ground arith

  claim_row-IsLeased :
      (k o now l : ℕ) (c : ScheduledCheck)
      → (k ≡ id → now ≤ until)
      → (c.id == k && is_claimable now c) ≡ true
      → IsLeased id owner until c
      → IsLeased id owner until (claim_row o l c)
  unfolding is_claimable
  claim_row-IsLeased k o now l c before test w = elim (ℕ_discrete c.id id) [
    | yes mine ↦ absurd (
        true-ne-false (not_claimable now c (before (same_row c k _ mine test)) (w.lease mine))
          (and-right (c.id == k) _ test))
    | no away ↦ record { lease = λ e. absurd (away e); held = λ e. absurd (away e) }
  ]

  enqueue_row-IsLeased :
      (k o now l : ℕ) (c : ScheduledCheck)
      → (k ≡ id → until ≤ l)
      → (c.id == k && is_claimed_by o c) ≡ true
      → IsLeased id owner until c
      → IsLeased id owner until (enqueue_row now l c)
  unfolding is_claimed_by
  enqueue_row-IsLeased k o now l c long test w = elim (ℕ_discrete c.id id) [
    | yes mine ↦ let later = long (same_row c k _ mine test) in ground arith
    | no away ↦ record { lease = λ e. absurd (away e); held = λ e. absurd (away e) }
  ]

  release_row-IsLeased :
      (k o : ℕ) (reason : List ℕ) (c : ScheduledCheck)
      → (k ≡ id → o ≢ owner)
      → (c.id == k && is_claimed_by o c) ≡ true
      → IsLeased id owner until c
      → IsLeased id owner until (release_row reason c)
  unfolding is_claimed_by
  release_row-IsLeased k o reason c other test w = elim (ℕ_discrete c.id id) [
    | yes mine ↦ absurd (
        other (same_row c k _ mine test) (held_by o c (w.held mine) (and-right (c.id == k) _ test)))
    | no away ↦ record { lease = λ e. absurd (away e); held = λ e. absurd (away e) }
  ]

  start_row-IsLeased :
      (k instance_id now l : ℕ) (c : ScheduledCheck)
      → (k ≡ id → until ≤ l)
      → (c.id == k && is_startable now c) ≡ true
      → IsLeased id owner until c
      → IsLeased id owner until (start_row instance_id now l c)
  unfolding is_startable
  start_row-IsLeased k instance_id now l c long test w = elim (ℕ_discrete c.id id) [
    | yes mine ↦ let later = long (same_row c k _ mine test) in ground arith
    | no away ↦ record { lease = λ e. absurd (away e); held = λ e. absurd (away e) }
  ]

  cancel_row-IsLeased :
      (reason : List ℕ) (now : ℕ) (c : ScheduledCheck)
      → IsLeased id owner until c
      → IsLeased id owner until (cancel_row reason now c)
  cancel_row-IsLeased reason now c w = ground arith

  finish_row-IsLeased :
      (was_canceled : Bool) (result : MonitorCheckResult) (finished_at : ℕ) (c : ScheduledCheck)
      → IsLeased id owner until c
      → IsLeased id owner until (finish_row was_canceled result finished_at c)
  finish_row-IsLeased true result finished_at c w = ground arith
  finish_row-IsLeased false result finished_at c w = ground arith

  All-IsLeased :
      (test : ScheduledCheck → Bool) (set : ScheduledCheck → ScheduledCheck)
      (cs : List ScheduledCheck)
      → ((c : ScheduledCheck)
          → test c ≡ true
          → IsLeased id owner until c
          → IsLeased id owner until (set c))
      → All (IsLeased id owner until) cs
      → All (IsLeased id owner until) (update_many test set cs)
  All-IsLeased test set cs keeps w = All-update_many test (IsLeased id owner until) set keeps cs w

  new_check-IsLeased :
      (k : ℕ) (m : DueMonitorRow) (s : ℕ) → id ≢ k → IsLeased id owner until (new_check k m s)
  unfolding new_check
  new_check-IsLeased k m s other = record {
    lease = λ e. absurd (other (sym e));
    held = λ e. absurd (other (sym e));
  }

  create_due_checks-IsLeased :
      (now : ℕ) (due : List DueMonitorRow) (t : Tables) (r : List ScheduledCheckSummary × Tables)
      → id < t.next_id
      → create_due_checks now due t ≡ ok r
      → All (IsLeased id owner until) t.checks
      → All (IsLeased id owner until) r.1.checks × (id < r.1.next_id)
  unfolding create_due_checks
  create_due_checks-IsLeased now [] t r old h w =
      let same : t ≡ r.1 = ground arith in rw (← same) (w, old)
  create_due_checks-IsLeased now (m ∷ due) t r old h w =
      let (first, made, h1) = >>=-eq-ok (create_due_check now m t) _ h in
      let (later, went_on, h2) = >>=-eq-ok (create_due_checks now due first.1) _ h1 in
      let last : later.1 ≡ r.1 = ground arith in
      rw (← last) (elim (create_due_check-Adds now m t first made) [
        | inl same ↦
            create_due_checks-IsLeased now due first.1 later (rw same old) went_on (rw same w)
        | inr (s, same, next) ↦
            create_due_checks-IsLeased now due first.1 later (rw next (omega arith)) went_on
              (rw same (new_check-IsLeased t.next_id m s (λ e. absurd (omega arith)), w))
      ])

  Step-IsLeased :
      (t u : Tables) (step : Step t u)
      → Respects id owner until step
      → id < t.next_id
      → All (IsLeased id owner until) t.checks
      → All (IsLeased id owner until) u.checks × (id < u.next_id)
  unfolding claim_for_dispatch mark_enqueued release_dispatch_claim claim_for_run cancel_stale
      complete_check
  Step-IsLeased t _ (created now due summaries u answer made) h old w =
      create_due_checks-IsLeased now due t (summaries, u) old made w
  Step-IsLeased t _ (claimed k o now l) h old w =
      (All-IsLeased _ _ t.checks (λ c test g. claim_row-IsLeased k o now l c h test g) w, old)
  Step-IsLeased t _ (enqueued k o now l) h old w =
      (All-IsLeased _ _ t.checks (λ c test g. enqueue_row-IsLeased k o now l c h test g) w, old)
  Step-IsLeased t _ (released k o reason) h old w =
      (All-IsLeased _ _ t.checks (λ c test g. release_row-IsLeased k o reason c h test g) w, old)
  Step-IsLeased t _ (started k i now l) h old w =
      (All-IsLeased _ _ t.checks (λ c test g. start_row-IsLeased k i now l c h test g) w, old)
  Step-IsLeased t _ (canceled reason k now) h old w =
      (All-IsLeased _ _ t.checks (λ c test g. cancel_row-IsLeased reason now c g) w, old)
  Step-IsLeased t _ (completed was_canceled result k finished_at read) h old w = (
    All-IsLeased _ _ t.checks (λ c test g. finish_row-IsLeased was_canceled result finished_at c g)
        w,
    old,
  )

  pub Reaches-IsLeased :
      (t u : Tables) (steps : Reaches t u)
      → AllRespect id owner until steps
      → id < t.next_id
      → All (IsLeased id owner until) t.checks
      → All (IsLeased id owner until) u.checks × (id < u.next_id)
  Reaches-IsLeased t _ no_step h old w = (w, old)
  Reaches-IsLeased t _ (next_step u v earlier step) (hs, h) old w =
      let (w', old') = Reaches-IsLeased t u earlier hs old w in Step-IsLeased u v step h old' w'
