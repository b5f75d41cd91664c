-- ===== src/Ledger/Exclusion.antt =====
-- While the lease of a scheduler on a check lasts, no other scheduler claims it.
use link_alive.Common.{
  ℕ, ◌+◌, ◌≤◌, ◌<◌, ◌≡◌, ◌≢◌, refl, Bool, true, false, ◌&&◌, List, [], ◌∷◌, All, arith, ◌==◌,
  update_many, count, ==_iff, Bool-cases, ℕ_discrete, inl, inr,
}
use link_alive.Database.Checks.{ScheduledCheck}
use link_alive.Scheduler.Store.{Tables, is_claimable, claim_row, claim_for_dispatch}
use link_alive.Ledger.{Reaches}
use link_alive.Ledger.Consistency.{IsConsistent, Distinct}
use link_alive.Ledger.Leases.{IsLeased, AllRespect, not_claimable, Reaches-IsLeased}

module _ (id owner until : ℕ) where
  abbrev claims : ℕ → ScheduledCheck → Bool
  claims now c = c.id == id && is_claimable now c

  count-other :
      (now : ℕ) (cs : List ScheduledCheck) → All (λ c. c.id ≢ id) cs → count (claims now) cs ≡ 0
  count-other now [] h = refl
  count-other now (c ∷ cs) (away, h) = let rest = count-other now cs h in ground arith

  other-IsLeased :
      (cs : List ScheduledCheck) → All (λ c. c.id ≢ id) cs → All (IsLeased id owner until) cs
  other-IsLeased [] h = tt
  other-IsLeased (c ∷ cs) (away, h) =
      (record { lease = λ e. absurd (away e); held = λ e. absurd (away e) }, other-IsLeased cs h)

  update-other :
      (now : ℕ) (set : ScheduledCheck → ScheduledCheck) (cs : List ScheduledCheck)
      → All (λ c. c.id ≢ id) cs
      → update_many (claims now) set cs ≡ cs
  update-other now set [] h = refl
  update-other now set (c ∷ cs) (away, h) =
      let fails : claims now c ≡ false = ground arith in rw (fails, update-other now set cs h) refl

  new-lease : (c : ScheduledCheck) → IsLeased id owner until (claim_row owner until c)
  new-lease c = ground arith

  claimed-IsLeased :
      (now next : ℕ) (cs : List ScheduledCheck)
      → Distinct cs
      → All (λ c. c.id < next) cs
      → 1 ≤ count (claims now) cs
      → All (IsLeased id owner until) (update_many (claims now) (claim_row owner until) cs)
        × (id < next)
  claimed-IsLeased now next [] distinct fresh one = absurd (omega arith)
  claimed-IsLeased now next (c ∷ cs) (apart, distinct) (lt, fresh) one =
      elim (Bool-cases (claims now c)) [
        | inl passes ↦
            let mine : c.id ≡ id = ground arith in
            let others : All (λ b. b.id ≢ id) cs = rw (← mine) apart in
            rw (passes, update-other now (claim_row owner until) cs others)
              ((new-lease c, other-IsLeased cs others), omega arith)
        | inr fails ↦
            let first : 1 ≤ 0 + count (claims now) cs = rw fails at one in
            let (rest, old) = claimed-IsLeased now next cs distinct fresh (omega arith) in
            let away : c.id ≢ id =
              λ e. let none_there = count-other now cs (rw (← e) apart) in omega arith in
            rw fails
              ((record { lease = λ e. absurd (away e); held = λ e. absurd (away e) }, rest), old)
      ]

  leased-count :
      (now : ℕ) (cs : List ScheduledCheck)
      → now ≤ until
      → All (IsLeased id owner until) cs
      → count (claims now) cs ≡ 0
  leased-count now [] before h = refl
  leased-count now (c ∷ cs) before (w, h) =
      let rest = leased-count now cs before h in
      elim (ℕ_discrete c.id id) [
        | yes mine ↦
            let not_now = not_claimable id owner until now c before (w.lease mine) in
            rw not_now (ground arith)
        | no away ↦ ground arith
      ]

one_claimed :
    (id owner now until : ℕ) (cs : List ScheduledCheck)
    → (claim_for_dispatch id owner now until cs).0 ≡ true
    → 1 ≤ count (claims id owner until now) cs
unfolding claim_for_dispatch
one_claimed id owner now until cs h =
    let one = (==_iff (count (claims id owner until now) cs) 1).0 h in omega arith

-- Once a scheduler has claimed a check until some time, no scheduler, whatever its name, claims it
-- again before that time, however other schedulers and workers interleave, so long as the owner does
-- not release this check and no worker and no mark sets a lease on this check that ends earlier. Claims
-- of this check in between are made before that time; what is done to other checks is free.
pub claim_for_dispatch-exclusive :
    (id owner now until : ℕ) (t u : Tables)
    → IsConsistent t
    → (claim_for_dispatch id owner now until t.checks).0 ≡ true
    → (steps : Reaches (record t { checks = (claim_for_dispatch id owner now until t.checks).1 }) u)
    → AllRespect id owner until steps
    → (other later lease_until : ℕ) → later ≤ until
    → (claim_for_dispatch id other later lease_until u.checks).0 ≡ false
claim_for_dispatch-exclusive id owner now until t u w won steps respect other later lease_until
      before =
    let (leased, old) =
      claimed-IsLeased id owner until now t.next_id t.checks w.distinct w.fresh
        (one_claimed id owner now until t.checks won) in
    let (still, old') =
      Reaches-IsLeased id owner until _ u steps respect old (unfold claim_for_dispatch in leased) in
    let none_there = leased-count id owner until later u.checks before still in
    unfold claim_for_dispatch in rw none_there refl
