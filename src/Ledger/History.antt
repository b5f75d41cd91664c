-- ===== src/Ledger/History.antt =====
-- A check that has ended stays as it ended, and has one result at most.
use link_alive.Common.{
  ℕ, ◌<◌, ◌≡◌, refl, Bool, Option, none, some, List, [], ◌∷◌, All, arith, ◌==◌, if◌then◌else◌,
  update_many, Bool-cases, inl, inr, ok, >>=-eq-ok,
}
use link_alive.Database.Checks.{ScheduledCheck}
use link_alive.Scheduler.Store.{
  Tables, DueMonitorRow, ScheduledCheckSummary, new_check, create_due_check, create_due_checks,
  claim_for_dispatch, mark_enqueued, release_dispatch_claim,
}
use link_alive.Worker.CheckProcessor.Claims.{claim_for_run, cancel_stale}
use link_alive.Ledger.{
  IsAnswer, Step, created, claimed, enqueued, released, started, canceled, completed, Reaches,
  no_step, next_step,
}
use link_alive.Ledger.Rows.{
  IsSound, IsLater, IsLater-refl, IsLater-trans, Keeps, claim_row-Keeps, enqueue_row-Keeps,
  release_row-Keeps, start_row-Keeps, cancel_row-Keeps, finish_read-Keeps, complete_check_read,
}
use link_alive.Ledger.Consistency.{
  IsConsistent, create_due_check-Adds, IsConsistent-add, IsAnswer-add, Reaches-IsConsistent,
}

-- The row of an id.
abbrev pub find_check : ℕ → List ScheduledCheck → Option ScheduledCheck
find_check id [] = none
find_check id (c ∷ cs) = if c.id == id then some c else find_check id cs

-- The row of the id goes on from `c`.
abbrev pub GoesOn : ℕ → ScheduledCheck → List ScheduledCheck → Type 0
GoesOn id c cs = (d : ScheduledCheck) × (find_check id cs ≡ some d) × IsLater c d

some_injective : {A : Type 0} (a b : A) → some a ≡ some b → a ≡ b
some_injective a b h = cc

GoesOn-update_many :
    (test : ScheduledCheck → Bool) (set : ScheduledCheck → ScheduledCheck)
    → Keeps test set
    → (id : ℕ) (c : ScheduledCheck) (cs : List ScheduledCheck) → All IsSound cs
    → find_check id cs ≡ some c
    → GoesOn id c (update_many test set cs)
GoesOn-update_many test set keeps id c [] w h = absurd cc
GoesOn-update_many test set keeps id c (b ∷ cs) (w, ws) h = elim (Bool-cases (b.id == id)) [
  | inl mine ↦
      let same : b ≡ c = some_injective b c (rw mine at h) in
      elim (Bool-cases (test b)) [
        | inl passes ↦
            let later = (keeps b passes w).1 in
            (set b, rw (passes, later.same_id, mine) refl, rw (← same) later)
        | inr fails ↦ (b, rw (fails, mine) refl, rw (← same) (IsLater-refl b))
      ]
  | inr other ↦
      let (d, found, later) = GoesOn-update_many test set keeps id c cs ws (rw other at h) in
      elim (Bool-cases (test b)) [
        | inl passes ↦ (d, rw (passes, (keeps b passes w).1.same_id, other) found, later)
        | inr fails ↦ (d, rw (fails, other) found, later)
      ]
]

found-fresh :
    (id next : ℕ) (c : ScheduledCheck) (cs : List ScheduledCheck)
    → All (λ b. b.id < next) cs
    → find_check id cs ≡ some c
    → id < next
found-fresh id next c [] k h = absurd cc
found-fresh id next c (b ∷ cs) (lt, k) h = elim (Bool-cases (b.id == id)) [
  | inl mine ↦ ground arith
  | inr other ↦ found-fresh id next c cs k (rw other at h)
]

-- A new check has another id than those that are there.
GoesOn-add :
    (m : DueMonitorRow) (t u : Tables) (s id : ℕ) (c : ScheduledCheck)
    → u.checks ≡ new_check t.next_id m s ∷ t.checks
    → IsConsistent t
    → find_check id t.checks ≡ some c
    → find_check id u.checks ≡ some c
unfolding new_check
GoesOn-add m t u s id c same w h =
    let lt = found-fresh id t.next_id c t.checks w.fresh h in rw same (ground arith)

create_due_checks-found :
    (now : ℕ) (due : List DueMonitorRow) (t : Tables) (r : List ScheduledCheckSummary × Tables)
    (id : ℕ) (c : ScheduledCheck)
    → IsAnswer t due
    → create_due_checks now due t ≡ ok r
    → IsConsistent t
    → find_check id t.checks ≡ some c
    → find_check id r.1.checks ≡ some c
unfolding create_due_checks
create_due_checks-found now [] t r id c answer h w found =
    let same : t ≡ r.1 = ground arith in rw (← same) found
create_due_checks-found now (m ∷ due) t r id c (calm, others, answer) h w found =
    let (first, made, h1) = >>=-eq-ok (create_due_check now m t) _ h in
    let (later, went_on, h2) = >>=-eq-ok (create_due_checks now due first.1) _ h1 in
    let last : later.1 ≡ r.1 = ground arith in
    rw (← last) (elim (create_due_check-Adds now m t first made) [
      | inl same ↦
          create_due_checks-found now due first.1 later id c (rw same answer) went_on (rw same w)
            (rw same found)
      | inr (s, same, next) ↦
          create_due_checks-found now due first.1 later id c
            (IsAnswer-add m t first.1 s due same others answer) went_on
            (IsConsistent-add m t first.1 s calm same next w)
            (GoesOn-add m t first.1 s id c same w found)
    ])

Step-GoesOn :
    (t u : Tables) (id : ℕ) (c : ScheduledCheck)
    → Step t u
    → IsConsistent t
    → find_check id t.checks ≡ some c
    → GoesOn id c u.checks
unfolding claim_for_dispatch mark_enqueued release_dispatch_claim claim_for_run cancel_stale
Step-GoesOn t _ id c (created now due summaries u answer made) w found =
    (c, create_due_checks-found now due t (summaries, u) id c answer made w found, IsLater-refl c)
Step-GoesOn t _ id c (claimed k owner now lease_until) w found =
    GoesOn-update_many _ _ (claim_row-Keeps k owner now lease_until) id c t.checks w.sound found
Step-GoesOn t _ id c (enqueued k owner now lease_until) w found =
    GoesOn-update_many _ _ (enqueue_row-Keeps k owner now lease_until) id c t.checks w.sound found
Step-GoesOn t _ id c (released k owner reason) w found =
    GoesOn-update_many _ _ (release_row-Keeps k owner reason) id c t.checks w.sound found
Step-GoesOn t _ id c (started k instance_id now lease_until) w found =
    GoesOn-update_many _ _ (start_row-Keeps k instance_id now lease_until) id c t.checks w.sound
      found
Step-GoesOn t _ id c (canceled reason k now) w found =
    GoesOn-update_many _ _ (cancel_row-Keeps reason k now) id c t.checks w.sound found
Step-GoesOn t _ id c (completed was_canceled result k finished_at read) w found =
    rw (complete_check_read was_canceled result k finished_at t.checks read) (
      GoesOn-update_many _ _ (finish_read-Keeps was_canceled result k finished_at) id c t.checks
        w.sound found)

-- However schedulers and workers interleave, the row of a check in a consistent ledger stays, with
-- its monitor, its slot and its configuration; a result that it has is never replaced, and then how
-- and when the check was completed stays too; and once the check has ended it is never open again,
-- and the time at which it was canceled, or that it was not, stays.
pub Reaches-GoesOn :
    (t u : Tables) (id : ℕ) (c : ScheduledCheck)
    → Reaches t u
    → IsConsistent t
    → find_check id t.checks ≡ some c
    → GoesOn id c u.checks
Reaches-GoesOn t _ id c no_step w found = (c, found, IsLater-refl c)
Reaches-GoesOn t _ id c (next_step u v earlier step) w found =
    let (d, found_d, later_d) = Reaches-GoesOn t u id c earlier w found in
    let (e, found_e, later_e) =
      Step-GoesOn u v id d step (Reaches-IsConsistent t u earlier w) found_d in
    (e, found_e, IsLater-trans c d e later_d later_e)
