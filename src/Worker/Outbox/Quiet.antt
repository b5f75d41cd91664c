-- ===== src/Worker/Outbox/Quiet.antt =====
-- The statements that start no attempt: what each does to a row.
use link_alive.Common.{
  ℕ, ◌≡◌, ◌≢◌, sym, Bool, true, false, not, Option, none, some, List, [], ◌∷◌, All, All-map, arith,
  ◌==◌, count, if-holds, if-holds_cases, update_many, Each-update_many, Each-refl, Each-trans,
  Bool-cases, inl, inr,
}
use link_alive.Worker.Delivery.{is_terminal, is_sent, is_down}
use link_alive.Worker.Outbox.Rows.{NotificationOutbox, attempts_exhausted, is_at_id, find_row}
use link_alive.Worker.Outbox.Statements.{
  available_for_dispatch, is_available, defer_row, defer_recovery, cancel_and_retire, cancel,
  claim_row, claim_available, is_claimed_by, enqueue_row, mark_enqueued, release_row, release,
  retire,
}
use link_alive.Worker.Outbox.Claims.{
  ClaimedNotification, update_row, close_row, close_channel, fail_row, cancel_queued,
  cancel_recoveries, is_queued_recovery, cancel_recovery_row, exhaust,
}
use link_alive.Worker.Outbox.Failure.{
  NotificationProviderError, is_current, retry_row, fail_outbox, retry_at, safe_text,
}
use link_alive.Worker.Outbox.Steps.{DispatchStep, deferred, canceled, claimed, enqueued, released}
use link_alive.Worker.Outbox.Evolution.{Evolves, Evolves-refl, Evolves-trans, EachEvolves}
use link_alive.Worker.Outbox.Invariant.{HasDistinctIds, IsAbsent}

-- An update of the rows that pass a test, where the change may use what holds of every row.
pub update-Evolves :
    {P : NotificationOutbox → Type 0} (test : NotificationOutbox → Bool)
    (set : NotificationOutbox → NotificationOutbox)
    → ((o : NotificationOutbox) → P o → test o ≡ true → Evolves o (set o))
    → (rows : List NotificationOutbox) → All P rows
    → EachEvolves rows (update_many test set rows)
update-Evolves test set keeps rows h = Each-update_many Evolves test set Evolves-refl keeps rows h

trivial : (rows : List NotificationOutbox) → All (λ o. Unit {0}) rows
trivial [] = tt
trivial (o ∷ os) = (tt, trivial os)

-- The same for a change that is right wherever the test passes.
update-Evolves_always :
    (test : NotificationOutbox → Bool) (set : NotificationOutbox → NotificationOutbox)
    → ((o : NotificationOutbox) → test o ≡ true → Evolves o (set o))
    → (rows : List NotificationOutbox) → EachEvolves rows (update_many test set rows)
update-Evolves_always test set keeps rows =
    update-Evolves test set (λ o u passes. keeps o passes) rows (trivial rows)

pub DispatchStep-Evolves :
    (rows after : List NotificationOutbox) → DispatchStep rows after → EachEvolves rows after
unfolding defer_recovery cancel claim_available mark_enqueued release available_for_dispatch
DispatchStep-Evolves rows _ (deferred id now) =
    update-Evolves_always (is_available id now) (defer_row now) (λ o passes. ground arith) rows
DispatchStep-Evolves rows _ (canceled id now reason retain) =
    update-Evolves_always (is_available id now) (cancel_and_retire now reason retain)
      (λ o passes. ground arith) rows
DispatchStep-Evolves rows _ (claimed id owner now lease_until) =
    update-Evolves_always (is_available id now) (claim_row owner lease_until)
      (λ o passes. ground arith) rows
DispatchStep-Evolves rows _ (enqueued id owner now lease_until) =
    update-Evolves_always (is_claimed_by id owner) (enqueue_row now lease_until)
      (λ o passes. ground arith) rows
DispatchStep-Evolves rows _ (released id owner now) =
    update-Evolves_always (is_claimed_by id owner) (release_row now) (λ o passes. ground arith) rows

-- The row that was found is the only one of its id.
abbrev pub IsOnly : NotificationOutbox → NotificationOutbox → Type 0
IsOnly o p = p.id ≡ o.id → p ≡ o

IsOnly-away :
    (o : NotificationOutbox) (rows : List NotificationOutbox)
    → IsAbsent o.id rows
    → All (IsOnly o) rows
IsOnly-away o rows away = All-map (λ p n same. absurd (n same)) rows away

found-id-away :
    (id : ℕ) (test : NotificationOutbox → Bool) (o : NotificationOutbox)
    (rows : List NotificationOutbox)
    → IsAbsent id rows
    → find_row test rows ≡ some o
    → o.id ≢ id
found-id-away id test o [] away found = absurd cc
found-id-away id test o (p ∷ ps) (n, away) found = elim (Bool-cases (test p)) [
  | inl passes ↦
      let h : some p ≡ some o = rw passes at found in let same : p ≡ o = cc in rw (← same) n
  | inr fails ↦ found-id-away id test o ps away (rw fails at found)
]

pub found-IsOnly :
    (test : NotificationOutbox → Bool) (o : NotificationOutbox) (rows : List NotificationOutbox)
    → HasDistinctIds rows
    → find_row test rows ≡ some o
    → All (IsOnly o) rows
found-IsOnly test o [] w found = tt
found-IsOnly test o (p ∷ ps) (away, w) found = elim (Bool-cases (test p)) [
  | inl passes ↦
      let h : some p ≡ some o = rw passes at found in
      let same : p ≡ o = cc in ((λ e. same), IsOnly-away o ps (rw (← same) away))
  | inr fails ↦
      let rest : find_row test ps ≡ some o = rw fails at found in
      (
        (λ e. absurd (found-id-away p.id test o ps away rest (sym e))),
        found-IsOnly test o ps w rest,
      )
]

pub retire-Evolves :
    (id : ℕ) (rows : List NotificationOutbox) → EachEvolves rows (update_row id retire rows)
retire-Evolves id rows = update-Evolves_always (is_at_id id) retire (λ o passes. ground arith) rows

pub update_found-Evolves :
    (o : NotificationOutbox) (set : NotificationOutbox → NotificationOutbox)
    → Evolves o (set o)
    → (rows : List NotificationOutbox) → All (IsOnly o) rows
    → EachEvolves rows (update_row o.id set rows)
update_found-Evolves o set e rows only =
    update-Evolves (is_at_id o.id) set
      (λ p is_only passes. let same = is_only (ground arith) in rw same e) rows only

pub close_channel-Evolves :
    (now : ℕ) (o : NotificationOutbox) (rows : List NotificationOutbox)
    → All (IsOnly o) rows
    → EachEvolves rows (close_channel now o rows)
unfolding close_channel
close_channel-Evolves now o rows only =
    if-holds_cases (EachEvolves rows) (not (is_terminal o.status))
      (λ open_still. update_found-Evolves o (close_row now) (ground arith) rows only)
      (λ ended. retire-Evolves o.id rows)

cancel_queued-Evolves :
    (now channel_id : ℕ) (fails : Bool) (incident : Option ℕ) (rows : List NotificationOutbox)
    → EachEvolves rows (cancel_queued now channel_id fails incident rows)
unfolding cancel_queued
cancel_queued-Evolves now channel_id true (some incident_id) rows =
    update-Evolves_always (is_queued_recovery incident_id channel_id) (cancel_recovery_row now)
      (λ p passes. ground arith) rows
cancel_queued-Evolves now channel_id true none rows = Each-refl Evolves Evolves-refl rows
cancel_queued-Evolves now channel_id false incident rows = Each-refl Evolves Evolves-refl rows

pub cancel_recoveries-Evolves :
    (now : ℕ) (o : NotificationOutbox) (rows : List NotificationOutbox)
    → EachEvolves rows (cancel_recoveries now o rows)
unfolding cancel_recoveries
cancel_recoveries-Evolves now o rows =
    cancel_queued-Evolves now o.channel_id (is_down o.event_type) o.incident_id rows

pub exhaust-Evolves :
    (now : ℕ) (o : NotificationOutbox) (rows : List NotificationOutbox)
    → is_sent o.status ≡ false
    → All (IsOnly o) rows
    → EachEvolves rows (exhaust now o rows)
unfolding exhaust
exhaust-Evolves now o rows unsent only =
    Each-trans Evolves Evolves-trans rows _ _
      (update_found-Evolves o (fail_row now attempts_exhausted) (ground arith) rows only)
      (cancel_recoveries-Evolves now o _)

pub fail_outbox-Evolves :
    (retry : Bool) (now random : ℕ) (c : ClaimedNotification) (error : NotificationProviderError)
    (rows : List NotificationOutbox)
    → EachEvolves rows (fail_outbox retry now random c error rows)
unfolding fail_outbox
fail_outbox-Evolves true now random c error rows =
    update-Evolves_always (is_current c) (retry_row (retry_at now random c error) (safe_text error))
      (λ o passes. ground arith) rows
fail_outbox-Evolves false now random c error rows =
    let failed =
      update-Evolves_always (is_current c) (fail_row now (safe_text error))
        (λ o passes. ground arith) rows in
    if-holds (EachEvolves rows) (count (is_current c) rows == 1)
      (Each-trans Evolves Evolves-trans rows _ _ failed (cancel_recoveries-Evolves now c.outbox _))
      failed
