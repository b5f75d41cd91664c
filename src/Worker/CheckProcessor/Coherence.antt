-- ===== src/Worker/CheckProcessor/Coherence.antt =====
-- The health of a monitor and its incidents go together.
use link_alive.Common.{
  ℕ, ◌+◌, ◌<◌, ◌≡◌, refl, ◌∙◌, Bool, true, false, Option, none, some, List, [], ◌∷◌, All, All-map,
  All-update_many, Result, ok, arith, ◌==◌, if◌then◌else◌, update_many, Bool-cases, inl, inr,
}
use link_alive.Domain.Types.{CheckErrorType, Date}
use link_alive.Domain.StateMachine.{
  IncidentEffect, no_effect, open_incident, update_incident, resolve_incident, cancel_incident,
}
use link_alive.Domain.StateMachine.Ledger.{post}
use link_alive.Worker.CheckProcessor.World.{World, IncidentRow, CommitError, is_open, find_open}
use link_alive.Worker.CheckProcessor.Commit.{
  set_last_error, resolved, open_for, change_open, apply_incident_effect,
}
use link_alive.Worker.CheckProcessor.OutboxWrites.{
  IsOutboxWrite, create_outbox-IsOutboxWrite, create_recovery_outbox-IsOutboxWrite,
}

abbrev pub open_count : List IncidentRow → ℕ
open_count [] = 0
open_count (i ∷ is) = (if is_open i.status then 1 else 0) + open_count is

abbrev pub expected : Bool → ℕ
expected true = 1
expected false = 0

-- One incident is open, or none, as `opened` says, and every id is older than the next one.
pub record IsLedger (opened : Bool) (w : World) : Type 0 where
  pub one_open : open_count w.incidents ≡ expected opened
  pub ids : All (λ i. i.id < w.next_id) w.incidents

find_open-none : (is : List IncidentRow) → open_count is ≡ 0 → find_open is ≡ none
find_open-none [] h = refl
find_open-none (i ∷ is) h = elim (Bool-cases (is_open i.status)) [
  | inl opened ↦ absurd (let one : 1 + open_count is ≡ 0 = rw opened at h in omega arith)
  | inr closed ↦
      let rest : 0 + open_count is ≡ 0 = rw closed at h in
      rw closed (find_open-none is (omega arith))
]

no_open_count : (is : List IncidentRow) → find_open is ≡ none → open_count is ≡ 0
no_open_count [] h = refl
no_open_count (i ∷ is) h = elim (Bool-cases (is_open i.status)) [
  | inl opened ↦ absurd (let same : some i ≡ none = rw opened at h in cc)
  | inr closed ↦ let rest = no_open_count is (rw closed at h) in rw closed (omega arith)
]

module _ (id : ℕ) (set : IncidentRow → IncidentRow) where
  -- An update that opens nothing.
  open_count-none :
      ((i : IncidentRow) → is_open i.status ≡ false → is_open (set i).status ≡ false)
      → (is : List IncidentRow) → open_count is ≡ 0
      → open_count (update_many (λ k. k.id == id) set is) ≡ 0
  open_count-none shut [] h = refl
  open_count-none shut (i ∷ is) h = elim (Bool-cases (is_open i.status)) [
    | inl opened ↦ absurd (let one : 1 + open_count is ≡ 0 = rw opened at h in omega arith)
    | inr closed ↦
        let tail : 0 + open_count is ≡ 0 = rw closed at h in
        let rest = open_count-none shut is (omega arith) in
        elim (Bool-cases (i.id == id)) [
          | inl mine ↦ rw (mine, shut i closed, rest) refl
          | inr other ↦ rw (other, closed, rest) refl
        ]
  ]

  open_count-same :
      ((i : IncidentRow) → (set i).status ≡ i.status)
      → (is : List IncidentRow) → open_count (update_many (λ k. k.id == id) set is) ≡ open_count is
  open_count-same same [] = refl
  open_count-same same (i ∷ is) =
      let rest = open_count-same same is in
      elim (Bool-cases (i.id == id)) [
        | inl mine ↦ rw (mine, same i, rest) refl
        | inr other ↦ rw (other, rest) refl
      ]

  ids-same :
      (next : ℕ) (is : List IncidentRow)
      → ((i : IncidentRow) → (set i).id ≡ i.id)
      → All (λ i. i.id < next) is
      → All (λ i. i.id < next) (update_many (λ k. k.id == id) set is)
  ids-same next is same h =
      All-update_many (λ k. k.id == id) (λ i. i.id < next) set (λ i mine lt. rw (same i) lt) is h

resolved_count :
    (d : Date) (is : List IncidentRow) (i : IncidentRow)
    → find_open is ≡ some i
    → open_count is ≡ 1
    → open_count (update_many (λ k. k.id == i.id) (resolved d) is) ≡ 0
resolved_count d [] i h one = absurd cc
resolved_count d (j ∷ js) i h one = elim (Bool-cases (is_open j.status)) [
  | inl opened ↦
      let same : j ≡ i = ground arith in
      let tail : 1 + open_count js ≡ 1 = rw opened at one in
      let rest = open_count-none i.id (resolved d) (λ k closed. refl) js (omega arith) in
      let mine : (j.id == i.id) ≡ true = rw same (ground arith) in rw (mine, rest) refl
  | inr closed ↦
      let tail : 0 + open_count js ≡ 1 = rw closed at one in
      let rest = resolved_count d js i (rw closed at h) (omega arith) in
      elim (Bool-cases (j.id == i.id)) [
        | inl mine ↦ rw (mine, rest) refl
        | inr other ↦ rw (other, closed, rest) refl
      ]
]

abbrev pub is_cancel : IncidentEffect → Bool
is_cancel (cancel_incident d r) = true
is_cancel _ = false

-- An effect that fits the ledger changes it as the state machine says, and leaves the monitor and
-- its check alone.
abbrev pub Fits : Bool → World → World → Type 0
Fits opened w u = IsLedger opened u × (u.monitor ≡ w.monitor) × (u.check ≡ w.check)

Fits-write :
    (opened : Bool) (w v u : World)
    → IsOutboxWrite v u
    → v.monitor ≡ w.monitor
    → v.check ≡ w.check
    → IsLedger opened v
    → Fits opened w u
Fits-write opened w v u h same_monitor same_check l = (
  record {
    one_open = rw h.incidents l.one_open;
    ids = rw h.incidents (
        All-map {Q = λ i. i.id < u.next_id}
          (λ i (lt : i.id < v.next_id). let le = h.ids in omega arith) v.incidents l.ids);
  },
  h.monitor ∙ same_monitor,
  h.check ∙ same_check,
)

IsLedger-last_error :
    (opened : Bool) (id : ℕ) (e : Option CheckErrorType) (w : World)
    → IsLedger opened w
    → IsLedger opened (set_last_error id e w)
IsLedger-last_error opened id e w l = record {
  one_open =
      open_count-same id (λ i. record i { last_error_type = e }) (λ i. refl) w.incidents
      ∙ l.one_open;
  ids = ids-same id (λ i. record i { last_error_type = e }) w.next_id w.incidents (λ i. refl) l.ids;
}

Fits-ok :
    (opened : Bool) (w v u : World)
    → ◌≡◌ {A = Result CommitError World} (ok v) (ok u)
    → Fits opened w v
    → Fits opened w u
Fits-ok opened w v u h f = let same : v ≡ u = cc in rw (← same) f

open_for-Fits :
    (a d : Date) (e f : Option CheckErrorType) (w u : World)
    → open_for (find_open w.incidents) a d e f w ≡ ok u
    → IsLedger false w
    → Fits true w u
unfolding open_for
open_for-Fits a d e f w u h l =
    let opened = rw (find_open-none w.incidents l.one_open) at h in
    Fits-write true w _ u (create_outbox-IsOutboxWrite w.next_id w.bindings _ u opened) refl refl
      (record {
        one_open = let none_open = l.one_open in omega arith;
        ids = (
          omega arith,
          All-map {Q = λ i. i.id < w.next_id + 1} (λ i (lt : i.id < w.next_id). omega arith)
              w.incidents l.ids,
        );
      })

change_open-Fits :
    (o : Option IncidentRow) (effect : IncidentEffect) (after : Bool) (w u : World)
    → find_open w.incidents ≡ o
    → post true effect ≡ some after
    → is_cancel effect ≡ false
    → change_open o effect w ≡ ok u
    → IsLedger true w
    → Fits after w u
unfolding change_open
change_open-Fits none _ after w u found fits real h l =
    absurd (let none_open = no_open_count w.incidents found in let one = l.one_open in omega arith)
change_open-Fits (some i) no_effect after w u found fits real h l =
    let same : true ≡ after = cc in Fits-ok after w w u h (rw (← same) l, refl, refl)
change_open-Fits (some i) (update_incident e) after w u found fits real h l =
    let same : true ≡ after = cc in
    Fits-ok after w (set_last_error i.id e w) u h
      (rw (← same) (IsLedger-last_error true i.id e w l), refl, refl)
change_open-Fits (some i) (resolve_incident t) after w u found fits real h l =
    let same : false ≡ after = cc in
    Fits-write after w
      (record w { incidents = update_many (λ k. k.id == i.id) (resolved t) w.incidents }) u
      (create_recovery_outbox-IsOutboxWrite (resolved t i) _ u h) refl refl
      (rw (← same) (record {
        one_open = resolved_count t w.incidents i found l.one_open;
        ids = ids-same i.id (resolved t) w.next_id w.incidents (λ k. refl) l.ids;
      }))
change_open-Fits (some i) (open_incident _ _ _ _) after w u found fits real h l = absurd cc
change_open-Fits (some i) (cancel_incident _ _) after w u found fits real h l = absurd cc

pub apply_incident_effect-Fits :
    (effect : IncidentEffect) (opened after : Bool) (w u : World)
    → post opened effect ≡ some after
    → is_cancel effect ≡ false
    → apply_incident_effect effect w ≡ ok u
    → IsLedger opened w
    → Fits after w u
unfolding apply_incident_effect
apply_incident_effect-Fits no_effect opened after w u fits real h l =
    let same : opened ≡ after = cc in Fits-ok after w w u h (rw (← same) l, refl, refl)
apply_incident_effect-Fits (open_incident a d e f) false after w u fits real h l =
    let same : true ≡ after = cc in rw (← same) (open_for-Fits a d e f w u h l)
apply_incident_effect-Fits (open_incident a d e f) true after w u fits real h l = absurd cc
apply_incident_effect-Fits (update_incident e) true after w u fits real h l =
    change_open-Fits (find_open w.incidents) (update_incident e) after w u refl fits real h l
apply_incident_effect-Fits (resolve_incident t) true after w u fits real h l =
    change_open-Fits (find_open w.incidents) (resolve_incident t) after w u refl fits real h l
apply_incident_effect-Fits (update_incident e) false after w u fits real h l = absurd cc
apply_incident_effect-Fits (resolve_incident t) false after w u fits real h l = absurd cc
apply_incident_effect-Fits (cancel_incident t r) opened after w u fits real h l = absurd cc
