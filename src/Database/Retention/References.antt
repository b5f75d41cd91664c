-- ===== src/Database/Retention/References.antt =====
-- Deletion keeps the references between the tables, and takes only what is old and has ended.
use link_alive.Common.{
  ℕ, ◌≡◌, refl, Bool, true, false, ◌&&◌, ◌||◌, Option, none, some, List, [], ◌∷◌, any, All, All-map,
  All-zip, arith, Bool-cases, ◌==◌, ==_iff, inl, inr,
}
use link_alive.Database.Retention.Plan.{
  CheckResultRow, ScheduledCheckRow, DeliveryRow, OutboxRow, IncidentRow, Tables, is_id, id_in,
  delete_in, RetentionStep, check_results, scheduled_checks, notification_deliveries,
  notification_outbox, incidents, audit_logs, delete_step, selects_check_result,
  selects_scheduled_check, selects_delivery, selects_outbox, selects_incident, selects_audit_log,
}

-- Whether a step's `selectSql` selects a row of this id.
abbrev pub selected : RetentionStep → Tables → ℕ → ℕ → Bool
selected check_results t c id = any (λ r. r.id == id && selects_check_result c r) t.check_results
selected scheduled_checks t c id =
    any (λ r. r.id == id && selects_scheduled_check t c r) t.scheduled_checks
selected notification_deliveries t c id =
    any (λ r. r.id == id && selects_delivery t c r) t.deliveries
selected notification_outbox t c id = any (λ r. r.id == id && selects_outbox t c r) t.outbox
selected incidents t c id = any (λ r. r.id == id && selects_incident t c r) t.incidents
selected audit_logs t c id = any (λ r. r.id == id && selects_audit_log c r) t.audit_logs

-- A batch that the statement may have returned, whatever its order, its limit and its locks.
abbrev pub IsBatch : RetentionStep → Tables → ℕ → List ℕ → Type 0
IsBatch step t cutoff ids = All (λ id. selected step t cutoff id ≡ true) ids

abbrev pub Refers : Option ℕ → (ℕ → Bool) → Type 0
Refers none there = Unit
Refers (some id) there = there id ≡ true

-- Every foreign key names a row that is there.
pub record HasReferences (t : Tables) : Type 0 where
  pub checks :
      All
        (λ r. Refers r.scheduled_check_id (λ id. any (λ s. s.id == id) t.scheduled_checks))
        t.check_results
  pub outboxes : All (λ d. any (λ o. o.id == d.outbox_id) t.outbox ≡ true) t.deliveries
  pub incidents : All (λ o. Refers o.incident_id (λ id. any (λ i. i.id == id) t.incidents)) t.outbox

module _ {ℓ} {Row : Type ℓ} (id_of : Row → ℕ) where
  All-delete_in {κ} :
      (P : Row → Type κ) (ids : List ℕ) (rows : List Row)
      → All P rows
      → All P (delete_in id_of ids rows)
  unfolding delete_in
  All-delete_in P ids [] h = tt
  All-delete_in P ids (r ∷ rs) (p, h) = elim (Bool-cases (id_in (id_of r) ids)) [
    | inl gone ↦ rw gone (All-delete_in P ids rs h)
    | inr kept ↦ rw kept (p, All-delete_in P ids rs h)
  ]

  -- A row whose id is not among those deleted is still there.
  any-delete_in :
      (ids : List ℕ) (rows : List Row) (id : ℕ)
      → id_in id ids ≡ false
      → any (λ r. id_of r == id) rows ≡ true
      → any (λ r. id_of r == id) (delete_in id_of ids rows) ≡ true
  unfolding delete_in
  any-delete_in ids [] id out h = h
  any-delete_in ids (r ∷ rs) id out h = elim (Bool-cases (id_of r == id)) [
    | inl same ↦ let e = (==_iff (id_of r) id).0 same in rw (rw (← e) at out) (rw same)
    | inr other ↦
        let rest = any-delete_in ids rs id out (rw other at h) in
        elim (Bool-cases (id_in (id_of r) ids)) [
          | inl gone ↦ rw gone rest
          | inr kept ↦ rw kept (rw other rest)
        ]
  ]

id_in-All :
    (p : ℕ → Bool) (ids : List ℕ) (id : ℕ)
    → All (λ k. p k ≡ true) ids
    → id_in id ids ≡ true
    → p id ≡ true
id_in-All p [] id h mem = cc
id_in-All p (k ∷ ids) id (pk, h) mem = elim (Bool-cases (k == id)) [
  | inl same ↦ rw (← (==_iff k id).0 same) pk
  | inr other ↦ id_in-All p ids id h (rw other at mem)
]

module _ {ℓ} {Row : Type ℓ} where
  any-witness : (p : Row → Bool) (rows : List Row) → any p rows ≡ true → (r : Row) × (p r ≡ true)
  any-witness p [] h = absurd (true-ne-false h)
    where
      true-ne-false : false ≡ true → ⊥
      true-ne-false e = cc
  any-witness p (r ∷ rs) h = elim (Bool-cases (p r)) [
    | inl here ↦ (r, here)
    | inr other ↦ any-witness p rs (rw other at h)
  ]

  All-member :
      (p : ℕ → Row → Bool) (rows : List Row)
      → All (λ r. (k : ℕ) → p k r ≡ true → any (p k) rows ≡ true) rows
  All-member p [] = tt
  All-member p (r ∷ rs) =
      (λ k h. rw h, All-map (λ r' f k h. or_right (p k r) (f k h)) rs (All-member p rs))
    where
      or_right : (a : Bool) {b : Bool} → b ≡ true → (a || b) ≡ true
      or_right a h = ground arith

-- A reference to a row that is not deleted, or not referred to by the one who refers, is kept.
module _ {ℓ} {Row : Type ℓ} (id_of : Row → ℕ) (rows : List Row) (ids : List ℕ)
    (referenced : ℕ → Bool)
    (unreferenced : (k : ℕ) → id_in k ids ≡ true → referenced k ≡ false) where
  kept : (k : ℕ) → referenced k ≡ true → id_in k ids ≡ false
  kept k h = elim (Bool-cases (id_in k ids)) [
    | inl gone ↦ let no_reference = unreferenced k gone in cc
    | inr out ↦ out
  ]

  Refers-kept :
      (o : Option ℕ)
      → ((k : ℕ) → is_id k o ≡ true → referenced k ≡ true)
      → Refers o (λ id. any (λ r. id_of r == id) rows)
      → Refers o (λ id. any (λ r. id_of r == id) (delete_in id_of ids rows))
  Refers-kept none h there = tt
  Refers-kept (some k) h there =
      any-delete_in id_of ids rows k (kept k (h k ((==_iff k k).1 refl))) there

unreferenced_check :
    (t : Tables) (c k : ℕ)
    → selected scheduled_checks t c k ≡ true
    → any (λ r. is_id k r.scheduled_check_id) t.check_results ≡ false
unreferenced_check t c k h =
    let (s, hs) =
      any-witness (λ s. s.id == k && selects_scheduled_check t c s) t.scheduled_checks h in
    let e = (==_iff s.id k).0 (ground arith) in
    rw (← e) (unfold selects_scheduled_check in ground arith)

unreferenced_outbox :
    (t : Tables) (c k : ℕ)
    → selected notification_outbox t c k ≡ true
    → any (λ d. d.outbox_id == k) t.deliveries ≡ false
unreferenced_outbox t c k h =
    let (o, ho) = any-witness (λ o. o.id == k && selects_outbox t c o) t.outbox h in
    let e = (==_iff o.id k).0 (ground arith) in rw (← e) (unfold selects_outbox in ground arith)

unreferenced_incident :
    (t : Tables) (c k : ℕ)
    → selected incidents t c k ≡ true
    → any (λ o. is_id k o.incident_id) t.outbox ≡ false
unreferenced_incident t c k h =
    let (i, hi) = any-witness (λ i. i.id == k && selects_incident t c i) t.incidents h in
    let e = (==_iff i.id k).0 (ground arith) in rw (← e) (unfold selects_incident in ground arith)

-- Whatever batch a step selects, deleting it leaves every foreign key naming a row that is there.
pub delete_step-HasReferences :
    (step : RetentionStep) (t : Tables) (cutoff : ℕ) (ids : List ℕ)
    → IsBatch step t cutoff ids
    → HasReferences t
    → HasReferences (delete_step step ids t)
unfolding delete_step
delete_step-HasReferences check_results t c ids b w = record {
  checks = All-delete_in CheckResultRow.id _ ids t.check_results w.checks;
  outboxes = w.outboxes;
  incidents = w.incidents;
}
delete_step-HasReferences scheduled_checks t c ids b w = record {
  checks =
      All-zip
        (λ r.
          Refers-kept ScheduledCheckRow.id t.scheduled_checks ids
            (λ k. any (λ r'. is_id k r'.scheduled_check_id) t.check_results)
            (λ k mem.
              unreferenced_check t c k (id_in-All (selected scheduled_checks t c) ids k b mem))
            r.scheduled_check_id)
        t.check_results (All-member (λ k r. is_id k r.scheduled_check_id) t.check_results) w.checks;
  outboxes = w.outboxes;
  incidents = w.incidents;
}
delete_step-HasReferences notification_deliveries t c ids b w = record {
  checks = w.checks;
  outboxes = All-delete_in DeliveryRow.id _ ids t.deliveries w.outboxes;
  incidents = w.incidents;
}
delete_step-HasReferences notification_outbox t c ids b w = record {
  checks = w.checks;
  outboxes =
      All-zip
        (λ d f there.
          any-delete_in OutboxRow.id ids t.outbox d.outbox_id
            (kept OutboxRow.id t.outbox ids (λ k. any (λ d'. d'.outbox_id == k) t.deliveries)
              (λ k mem.
                unreferenced_outbox t c k
                  (id_in-All (selected notification_outbox t c) ids k b mem))
              d.outbox_id (f d.outbox_id ((==_iff d.outbox_id d.outbox_id).1 refl)))
            there)
        t.deliveries (All-member (λ k d. d.outbox_id == k) t.deliveries) w.outboxes;
  incidents = All-delete_in OutboxRow.id _ ids t.outbox w.incidents;
}
delete_step-HasReferences incidents t c ids b w = record {
  checks = w.checks;
  outboxes = w.outboxes;
  incidents =
      All-zip
        (λ o.
          Refers-kept IncidentRow.id t.incidents ids
            (λ k. any (λ o'. is_id k o'.incident_id) t.outbox)
            (λ k mem. unreferenced_incident t c k (id_in-All (selected incidents t c) ids k b mem))
            o.incident_id)
        t.outbox (All-member (λ k o. is_id k o.incident_id) t.outbox) w.incidents;
}
delete_step-HasReferences audit_logs t c ids b w = record {
  checks = w.checks;
  outboxes = w.outboxes;
  incidents = w.incidents;
}
