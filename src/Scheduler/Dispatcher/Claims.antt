-- ===== src/Scheduler/Dispatcher/Claims.antt =====
-- A dispatch leaves no claim behind, and what it marks is in the queue.
use link_alive.Common.{
  ℕ, ◌+◌, ◌≤◌, ◌≡◌, ◌≢◌, refl, ap, ◌∙◌, Bool, true, false, ◌&&◌, Option, none, some, List, [], ◌∷◌,
  All, Result, ok, throw, length, arith, ◌==◌, update_many, count, Bool-cases, inl, inr,
}
use link_alive.Database.Checks.{ScheduledCheck}
use link_alive.Scheduler.Store.{
  ScheduledCheckSummary, is_claimable, is_claimed_by, claim_row, enqueue_row, release_row,
  claim_for_dispatch, mark_enqueued, release_dispatch_claim,
}
use link_alive.Scheduler.Dispatcher.{
  CheckQueue, JobState, completed, failed, waiting_or_active, add_after, ensure_found,
  ensure_queue_job, settle_claim, dispatch_claimed, dispatch_one, dispatch,
}

-- The row is not claimed by `owner`, or has another id than `id`.
abbrev OnlyOf : ℕ → ℕ → ScheduledCheck → Type 0
OnlyOf owner id c = is_claimed_by owner c ≡ true → c.id ≡ id

abbrev pub IsUnclaimed : ℕ → ScheduledCheck → Type 0
IsUnclaimed owner c = is_claimed_by owner c ≡ false

claim-OnlyOf :
    (id owner now until : ℕ) (cs : List ScheduledCheck)
    → All (IsUnclaimed owner) cs
    → All (OnlyOf owner id) (claim_for_dispatch id owner now until cs).1
unfolding claim_for_dispatch
claim-OnlyOf id owner now until [] h = tt
claim-OnlyOf id owner now until (c ∷ cs) (u, h) =
    let rest = claim-OnlyOf id owner now until cs h in
    elim (Bool-cases (c.id == id && is_claimable now c)) [
      | inl passes ↦ rw passes ((λ e. ground arith), rest)
      | inr fails ↦ rw fails ((λ e. absurd cc), rest)
    ]

mark_enqueued-IsUnclaimed :
    (id owner now until : ℕ) (cs : List ScheduledCheck)
    → All (OnlyOf owner id) cs
    → All (IsUnclaimed owner) (mark_enqueued id owner now until cs)
unfolding mark_enqueued
mark_enqueued-IsUnclaimed id owner now until [] h = tt
mark_enqueued-IsUnclaimed id owner now until (c ∷ cs) (u, h) =
    let rest = mark_enqueued-IsUnclaimed id owner now until cs h in
    elim (Bool-cases (c.id == id && is_claimed_by owner c)) [
      | inl passes ↦ rw passes (unfold is_claimed_by in ground arith, rest)
      | inr fails ↦ rw fails (ground arith, rest)
    ]

release_dispatch_claim-IsUnclaimed :
    (id owner : ℕ) (reason : List ℕ) (cs : List ScheduledCheck)
    → All (OnlyOf owner id) cs
    → All (IsUnclaimed owner) (release_dispatch_claim id owner reason cs)
unfolding release_dispatch_claim
release_dispatch_claim-IsUnclaimed id owner reason [] h = tt
release_dispatch_claim-IsUnclaimed id owner reason (c ∷ cs) (u, h) =
    let rest = release_dispatch_claim-IsUnclaimed id owner reason cs h in
    elim (Bool-cases (c.id == id && is_claimed_by owner c)) [
      | inl passes ↦ rw passes (unfold is_claimed_by in ground arith, rest)
      | inr fails ↦ rw fails (ground arith, rest)
    ]

abbrev pub ids_of : List ScheduledCheck → List ℕ
ids_of [] = []
ids_of (c ∷ cs) = c.id ∷ ids_of cs

-- The id is the primary key.
abbrev pub IsUnique : List ℕ → Type 0
IsUnique [] = Unit {0}
IsUnique (i ∷ is) = All (λ k. k ≢ i) is × IsUnique is

ids-update_many :
    (test : ScheduledCheck → Bool) (set : ScheduledCheck → ScheduledCheck)
    → ((c : ScheduledCheck) → (set c).id ≡ c.id)
    → (cs : List ScheduledCheck) → ids_of (update_many test set cs) ≡ ids_of cs
ids-update_many test set same [] = refl
ids-update_many test set same (c ∷ cs) =
    let rest = ids-update_many test set same cs in
    elim (Bool-cases (test c)) [
      | inl passes ↦ rw (passes, same c, rest) refl
      | inr fails ↦ rw (fails, rest) refl
    ]

module _ (id now : ℕ) where
  abbrev claims : ScheduledCheck → Bool
  claims c = c.id == id && is_claimable now c

  count-away : (cs : List ScheduledCheck) → All (λ k. k ≢ id) (ids_of cs) → count claims cs ≡ 0
  count-away [] h = refl
  count-away (c ∷ cs) (away, h) = let rest = count-away cs h in ground arith

  count_unique : (cs : List ScheduledCheck) → IsUnique (ids_of cs) → count claims cs ≤ 1
  count_unique [] h = omega arith
  count_unique (c ∷ cs) (apart, h) = elim (Bool-cases (claims c)) [
    | inl passes ↦
        let mine : c.id ≡ id = ground arith in
        let none_else = count-away cs (rw (← mine) apart) in rw passes (omega arith)
    | inr fails ↦ let few = count_unique cs h in rw fails (omega arith)
  ]

  update-none :
      (set : ScheduledCheck → ScheduledCheck) (cs : List ScheduledCheck)
      → count claims cs ≡ 0
      → update_many claims set cs ≡ cs
  update-none set [] h = refl
  update-none set (c ∷ cs) h = elim (Bool-cases (claims c)) [
    | inl passes ↦ absurd (let one : 1 + count claims cs ≡ 0 = rw passes at h in omega arith)
    | inr fails ↦
        let tail : 0 + count claims cs ≡ 0 = rw fails at h in
        rw (fails, update-none set cs (omega arith)) refl
  ]

  claim-failed :
      (owner until : ℕ) (cs : List ScheduledCheck)
      → IsUnique (ids_of cs)
      → (claim_for_dispatch id owner now until cs).0 ≡ false
      → (claim_for_dispatch id owner now until cs).1 ≡ cs
  unfolding claim_for_dispatch
  claim-failed owner until cs unique lost =
      let few = count_unique cs unique in update-none (claim_row owner until) cs (ground arith)

module _ (queue : CheckQueue) (owner lease_ms : ℕ) (reason : List ℕ) where
  open queue use {Queue, QueueError}

  -- What a dispatch leaves of the rows.
  abbrev pub Leaves : List ScheduledCheck → List ScheduledCheck → Type 0
  Leaves before cs = All (IsUnclaimed owner) cs × (ids_of cs ≡ ids_of before)

  settle_claim-Leaves :
      (now : ℕ) (check : ScheduledCheckSummary) (r : Result QueueError (Unit {0}) × Queue)
      (cs : List ScheduledCheck)
      → All (OnlyOf owner check.id) cs
      → Leaves cs (settle_claim queue owner lease_ms reason now check r cs).2
  unfolding settle_claim
  settle_claim-Leaves now check (ok u, q) cs h = (
    mark_enqueued-IsUnclaimed check.id owner now (now + lease_ms) cs h,
    unfold mark_enqueued in ids-update_many _ (enqueue_row now (now + lease_ms)) (λ c. refl) cs,
  )
  settle_claim-Leaves now check (throw e, q) cs h = (
    release_dispatch_claim-IsUnclaimed check.id owner reason cs h,
    unfold release_dispatch_claim in ids-update_many _ (release_row reason) (λ c. refl) cs,
  )

  dispatch_claimed-Leaves :
      (now : ℕ) (check : ScheduledCheckSummary) (q : Queue) (claim : Bool × List ScheduledCheck)
      (cs : List ScheduledCheck)
      → (claim.0 ≡ false → claim.1 ≡ cs)
      → ids_of claim.1 ≡ ids_of cs
      → All (IsUnclaimed owner) cs
      → All (OnlyOf owner check.id) claim.1
      → Leaves cs (dispatch_claimed queue owner lease_ms reason now check q claim).2
  unfolding dispatch_claimed
  dispatch_claimed-Leaves now check q (false, ds) cs lost same clean only =
      rw (lost refl) (clean, refl)
  dispatch_claimed-Leaves now check q (true, ds) cs lost same clean only =
      let (left, ids) =
        settle_claim-Leaves now check (ensure_queue_job queue owner lease_ms reason check q) ds
          only in
      (left, ids ∙ same)

  dispatch_one-Leaves :
      (now : ℕ) (check : ScheduledCheckSummary) (q : Queue) (cs : List ScheduledCheck)
      → IsUnique (ids_of cs)
      → All (IsUnclaimed owner) cs
      → Leaves cs (dispatch_one queue owner lease_ms reason now check q cs).2
  unfolding dispatch_one
  dispatch_one-Leaves now check q cs unique clean =
      dispatch_claimed-Leaves now check q
        (claim_for_dispatch check.id owner now (now + lease_ms) cs) cs
        (claim-failed check.id now owner (now + lease_ms) cs unique)
        (unfold claim_for_dispatch in
          ids-update_many _ (claim_row owner (now + lease_ms)) (λ c. refl) cs)
        clean (claim-OnlyOf check.id owner now (now + lease_ms) cs clean)

  settle_claim-le :
      (now : ℕ) (check : ScheduledCheckSummary) (r : Result QueueError (Unit {0}) × Queue)
      (cs : List ScheduledCheck)
      → (settle_claim queue owner lease_ms reason now check r cs).0 ≤ 1
  unfolding settle_claim
  settle_claim-le now check (ok u, q) cs = omega arith
  settle_claim-le now check (throw e, q) cs = omega arith

  dispatch_claimed-le :
      (now : ℕ) (check : ScheduledCheckSummary) (q : Queue) (claim : Bool × List ScheduledCheck)
      → (dispatch_claimed queue owner lease_ms reason now check q claim).0 ≤ 1
  unfolding dispatch_claimed
  dispatch_claimed-le now check q (false, cs) = omega arith
  dispatch_claimed-le now check q (true, cs) =
      settle_claim-le now check (ensure_queue_job queue owner lease_ms reason check q) cs

  dispatch_one-le :
      (now : ℕ) (check : ScheduledCheckSummary) (q : Queue) (cs : List ScheduledCheck)
      → (dispatch_one queue owner lease_ms reason now check q cs).0 ≤ 1
  unfolding dispatch_one
  dispatch_one-le now check q cs =
      dispatch_claimed-le now check q (claim_for_dispatch check.id owner now (now + lease_ms) cs)

  -- A dispatch leaves no claim behind, whatever the queue answers: where its owner held no claim
  -- before, each check that it claims has been marked as enqueued or has been released; no row comes
  -- or goes; and it counts no more checks than there were candidates.
  pub dispatch-Leaves :
      (now : ℕ) (candidates : List ScheduledCheckSummary) (q : Queue) (cs : List ScheduledCheck)
      → IsUnique (ids_of cs)
      → All (IsUnclaimed owner) cs
      → let (n, r, ds) = dispatch queue owner lease_ms reason now candidates q cs in
        All (IsUnclaimed owner) ds × (ids_of ds ≡ ids_of cs) × (n ≤ length candidates)
  unfolding dispatch
  dispatch-Leaves now [] q cs unique clean = (clean, refl, omega arith)
  dispatch-Leaves now (check ∷ candidates) q cs unique clean =
      let (n, r, ds) = dispatch_one queue owner lease_ms reason now check q cs in
      let (left, same) = dispatch_one-Leaves now check q cs unique clean in
      let (left', same', few) = dispatch-Leaves now candidates r ds (rw same unique) left in
      let one = dispatch_one-le now check q cs in (left', same' ∙ same, omega arith)

  live_after :
      (check : ScheduledCheckSummary) (removed : Result QueueError (Unit {0}) × Queue)
      (u : Unit {0}) (r : Queue)
      → ◌≡◌ {A = Result QueueError (Unit {0}) × Queue}
          (add_after queue owner lease_ms reason check removed)
          (ok u, r)
      → queue.get_job check.id r ≡ ok (some waiting_or_active)
  unfolding add_after
  live_after check (throw e, q) u r h = absurd (thrown (ap (λ x. x.0) h))
    where
      thrown : ◌≡◌ {A = Result QueueError (Unit {0})} (throw e) (ok u) → ⊥
      thrown same = cc
  live_after check (ok v, q) u r h = queue.add_waits check.id check.config_version q u r h

  live_found :
      (check : ScheduledCheckSummary) (found : Result QueueError (Option JobState)) (q : Queue)
      (u : Unit {0}) (r : Queue)
      → queue.get_job check.id q ≡ found
      → ◌≡◌ {A = Result QueueError (Unit {0}) × Queue}
          (ensure_found queue owner lease_ms reason check found q)
          (ok u, r)
      → queue.get_job check.id r ≡ ok (some waiting_or_active)
  unfolding ensure_found
  live_found check (throw e) q u r got h = absurd (thrown (ap (λ x. x.0) h))
    where
      thrown : ◌≡◌ {A = Result QueueError (Unit {0})} (throw e) (ok u) → ⊥
      thrown same = cc
  live_found check (ok none) q u r got h = queue.add_waits check.id check.config_version q u r h
  live_found check (ok (some waiting_or_active)) q u r got h =
      let same : q ≡ r = ap (λ x. x.1) h in rw (← same) got
  live_found check (ok (some completed)) q u r got h =
      live_after check (queue.remove check.id q) u r h
  live_found check (ok (some failed)) q u r got h = live_after check (queue.remove check.id q) u r h

  -- If the queue was asked for the job of a check without an error, it has a job of that id that
  -- has not ended, also where one that had ended was there before; for a queue where a job that was
  -- added is there.
  pub ensure_queue_job-live :
      (check : ScheduledCheckSummary) (q : Queue) (u : Unit {0}) (r : Queue)
      → ◌≡◌ {A = Result QueueError (Unit {0}) × Queue}
          (ensure_queue_job queue owner lease_ms reason check q)
          (ok u, r)
      → queue.get_job check.id r ≡ ok (some waiting_or_active)
  unfolding ensure_queue_job
  ensure_queue_job-live check q u r h = live_found check (queue.get_job check.id q) q u r refl h
