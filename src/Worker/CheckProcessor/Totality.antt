-- ===== src/Worker/CheckProcessor/Totality.antt =====
-- The commit of a result returns: no key is queued twice, and no row is missing.
use link_alive.Common.{
  ℕ, ◌≡◌, ◌≢◌, ◌<◌, refl, Bool, true, false, ◌||◌, Option, none, some, List, [], ◌∷◌, All, All-zip,
  All-map, ok, any, arith, ◌==◌, Bool-cases, if-holds, inl, inr,
}
use link_alive.Domain.Types.{is_safe_integer}
use link_alive.Worker.Delivery.{is_down}
use link_alive.Worker.CheckProcessor.World.{World, IncidentRow, OutboxRow, Binding, find_open}
use link_alive.Worker.CheckProcessor.Recovery.{is_down_event, filter, create_recovery_outbox}
use link_alive.Worker.CheckProcessor.Outbox.{IsFree}
use link_alive.Worker.CheckProcessor.Returns.{IsReady, IsRecoverable, recover_all-returns}
use link_alive.Worker.CheckProcessor.Outbox
use link_alive.Worker.CheckProcessor.Returns

-- The unique index on incident, channel and sequence.
abbrev pub DistinctKeys : List OutboxRow → Type 0
DistinctKeys [] = Unit {0}
DistinctKeys (o ∷ os) = IsFree o.incident_id o.channel_id o.sequence os × DistinctKeys os

abbrev pub IsSecondOnly : Option IncidentRow → List OutboxRow → Type 0
IsSecondOnly none os = Unit {0}
IsSecondOnly (some i) os = All (λ o. o.incident_id ≡ i.id → o.sequence ≡ 1) os

-- The rows that a commit relies on: keys are unique, a DOWN event is the first of its incident and
-- channel, an open incident has no second event, and a monitor is bound to a channel once.
pub record IsTidy (w : World) : Type 0 where
  pub keys : DistinctKeys w.outbox
  pub down_first : All (λ o. is_down o.event_type ≡ true → o.sequence ≡ 1) w.outbox
  pub attempts : All (λ o. is_safe_integer o.attempt_count ≡ true) w.outbox
  pub known : All (λ o. o.incident_id < w.next_id) w.outbox
  pub open_first : IsSecondOnly (find_open w.incidents) w.outbox
  pub bindings : Outbox.DistinctChannels w.bindings

down_key :
    (incident : ℕ) (bs : List Binding) (o : OutboxRow)
    → is_down_event bs incident o ≡ true
    → (is_down o.event_type ≡ true → o.sequence ≡ 1)
    → (o.incident_id ≡ incident) × (o.sequence ≡ 1)
unfolding is_down_event
down_key incident bs o passes f = ground arith

or_true : (b : Bool) → (b || true) ≡ true
or_true true = refl
or_true false = refl

away-free :
    (incident channel : ℕ) (bs : List Binding) (os : List OutboxRow)
    → IsFree incident channel 1 os
    → All (λ o. is_down o.event_type ≡ true → o.sequence ≡ 1) os
    → All (λ k. channel ≢ k.channel_id) (filter (is_down_event bs incident) os)
unfolding is_down_event
away-free incident channel bs [] free first = tt
away-free incident channel bs (o ∷ os) free (f, first) =
    let rest = away-free incident channel bs os (ground arith) first in
    elim (Bool-cases (is_down_event bs incident o)) [
      | inl passes ↦ rw passes ((λ e. ground arith), rest)
      | inr fails ↦ rw fails rest
    ]

filter-DistinctChannels :
    (incident : ℕ) (bs : List Binding) (os : List OutboxRow)
    → DistinctKeys os
    → All (λ o. is_down o.event_type ≡ true → o.sequence ≡ 1) os
    → Returns.DistinctChannels (filter (is_down_event bs incident) os)
filter-DistinctChannels incident bs [] keys first = tt
filter-DistinctChannels incident bs (o ∷ os) (free, keys) (f, first) =
    let rest = filter-DistinctChannels incident bs os keys first in
    elim (Bool-cases (is_down_event bs incident o)) [
      | inl passes ↦
          let (mine, second) = down_key incident bs o passes f in
          rw passes (away-free incident o.channel_id bs os (rw (mine, second) at free) first, rest)
      | inr fails ↦ rw fails rest
    ]

filter-All :
    (p : OutboxRow → Bool) (P : OutboxRow → Type 0) (os : List OutboxRow)
    → All P os
    → All P (filter p os)
filter-All p P [] h = tt
filter-All p P (o ∷ os) (q, h) =
    if-holds (All P) (p o) (q, filter-All p P os h) (filter-All p P os h)

there-IsReady :
    (id : ℕ) (os : List OutboxRow)
    → All (λ o. is_safe_integer o.attempt_count ≡ true) os
    → any (λ o. o.id == id) os ≡ true
    → IsReady id os
there-IsReady id [] safe h = absurd cc
there-IsReady id (o ∷ os) (s, safe) h = elim (Bool-cases (o.id == id)) [
  | inl mine ↦ rw mine s
  | inr other ↦ rw other (there-IsReady id os safe (rw other at h))
]

-- Each row is among the rows.
all-there : (os : List OutboxRow) → All (λ o. any (λ k. k.id == o.id) os ≡ true) os
all-there [] = tt
all-there (o ∷ os) = (
  ground arith,
  All-map {Q = λ k. any (λ j. j.id == k.id) (o ∷ os) ≡ true}
      (λ k (h : any (λ j. j.id == k.id) os ≡ true). rw (h, or_true) refl) os (all-there os),
)

second-IsFree :
    (incident channel : ℕ) (os : List OutboxRow)
    → All (λ o. o.incident_id ≡ incident → o.sequence ≡ 1) os
    → IsFree incident channel 2 os
second-IsFree incident channel [] h = refl
second-IsFree incident channel (o ∷ os) (f, h) =
    let rest = second-IsFree incident channel os h in ground arith

pub new-IsFree :
    (incident channel sequence : ℕ) (os : List OutboxRow)
    → All (λ o. o.incident_id < incident) os
    → IsFree incident channel sequence os
new-IsFree incident channel sequence [] h = refl
new-IsFree incident channel sequence (o ∷ os) (lt, h) =
    let rest = new-IsFree incident channel sequence os h in ground arith

pub recovery-returns :
    (i k : IncidentRow) (w : World) (is : List IncidentRow)
    → k.id ≡ i.id
    → IsTidy w
    → IsSecondOnly (some i) w.outbox
    → (u : World) × (create_recovery_outbox k (record w { incidents = is }) ≡ ok u)
unfolding create_recovery_outbox
recovery-returns i k w is same t second =
    let ready : All (λ o. IsRecoverable k.id (record w { incidents = is }) o) w.outbox =
      All-zip
        (λ o (safe : is_safe_integer o.attempt_count ≡ true)
            (there : any (λ j. j.id == o.id) w.outbox ≡ true).
          record {
            safe = safe;
            ready = there-IsReady o.id w.outbox t.attempts there;
            free = rw same (second-IsFree i.id o.channel_id w.outbox second);
          })
        w.outbox t.attempts (all-there w.outbox) in
    recover_all-returns k (filter (is_down_event w.bindings k.id) w.outbox)
      (record w { incidents = is })
      (filter-DistinctChannels k.id w.bindings w.outbox t.keys t.down_first)
      (filter-All (is_down_event w.bindings k.id) (IsRecoverable k.id (record w { incidents = is }))
        w.outbox ready)
