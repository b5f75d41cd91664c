-- ===== src/Ledger/Consistency.antt =====
-- Every reachable ledger has sound rows, distinct ids and at most one open check for a monitor.
use link_alive.Common.{
  ℕ, ◌+◌, ◌<◌, ◌≤◌, ◌≡◌, ◌≢◌, ◌⊎◌, refl, Bool, false, ◌&&◌, ◌||◌, List, [], ◌∷◌, All, All-map,
  arith, ◌==◌, if◌then◌else◌, update_many, All-update_many, ℕ_discrete, Bool-cases, inl, inr, ok,
  >>=-eq-ok, any, Option, none, some,
}
use link_alive.Domain.Types.{Date, at, invalid}
use link_alive.Domain.Scheduling.{calculate_next_check_at, coalesce_due_scheduled_at}
use link_alive.Database.Checks.{ScheduledCheck, is_open}
use link_alive.Scheduler.Store.{
  Tables, DueMonitorRow, ScheduledCheckSummary, has_open_check, has_slot, new_check, create_at,
  create_slot, create_due_check, create_due_checks, claim_for_dispatch, mark_enqueued,
  release_dispatch_claim,
}
use link_alive.Worker.CheckProcessor.Claims.{claim_for_run, cancel_stale}
use link_alive.Ledger.{
  IsAnswer, Step, created, claimed, enqueued, released, started, canceled, completed, Reaches,
  no_step, next_step,
}
use link_alive.Ledger.Rows.{
  IsSound, IsLater, Keeps, new_check-IsSound, claim_row-Keeps, enqueue_row-Keeps, release_row-Keeps,
  start_row-Keeps, cancel_row-Keeps, finish_read-Keeps, complete_check_read,
}

abbrev pub open_count : ℕ → List ScheduledCheck → ℕ
open_count id [] = 0
open_count id (c ∷ cs) =
    (if c.monitor_id == id && is_open c.status then 1 else 0) + open_count id cs

-- The id is the primary key.
abbrev pub Distinct : List ScheduledCheck → Type 0
Distinct [] = Unit {0}
Distinct (c ∷ cs) = All (λ b. b.id ≢ c.id) cs × Distinct cs

pub record IsConsistent (t : Tables) : Type 0 where
  pub sound : All IsSound t.checks
  pub fresh : All (λ c. c.id < t.next_id) t.checks
  pub distinct : Distinct t.checks
  pub one_open : (id : ℕ) → open_count id t.checks ≤ 1

open-le :
    (id : ℕ) (c d : ScheduledCheck)
    → IsLater c d
    → (if d.monitor_id == id && is_open d.status then 1 else 0)
      ≤ (if c.monitor_id == id && is_open c.status then 1 else 0)
open-le id c d h = elim (Bool-cases (is_open c.status)) [
  | inl opened ↦ rw (opened, h.same_monitor) (ground arith)
  | inr over ↦ rw (h.ended over, over) (ground arith)
]

module _ (test : ScheduledCheck → Bool) (set : ScheduledCheck → ScheduledCheck)
    (keeps : Keeps test set) where
  open_count-update_many :
      (id : ℕ) (cs : List ScheduledCheck)
      → All IsSound cs
      → open_count id (update_many test set cs) ≤ open_count id cs
  open_count-update_many id [] h = omega arith
  open_count-update_many id (c ∷ cs) (w, h) =
      let rest = open_count-update_many id cs h in
      elim (Bool-cases (test c)) [
        | inl passes ↦ let le = open-le id c (set c) (keeps c passes w).1 in rw passes (omega arith)
        | inr fails ↦ rw fails (omega arith)
      ]

  -- An update of the ledger changes no id.
  ids-update_many :
      (P : ℕ → Type 0) (cs : List ScheduledCheck)
      → All IsSound cs
      → All (λ c. P c.id) cs
      → All (λ c. P c.id) (update_many test set cs)
  ids-update_many P [] h k = tt
  ids-update_many P (c ∷ cs) (w, h) (p, k) =
      let rest = ids-update_many P cs h k in
      elim (Bool-cases (test c)) [
        | inl passes ↦ rw passes (rw (keeps c passes w).1.same_id p, rest)
        | inr fails ↦ rw fails (p, rest)
      ]

  Distinct-update_many :
      (cs : List ScheduledCheck) → All IsSound cs → Distinct cs → Distinct (update_many test set cs)
  Distinct-update_many [] h k = tt
  Distinct-update_many (c ∷ cs) (w, h) (apart, k) =
      let rest = Distinct-update_many cs h k in
      let others = ids-update_many (λ id. id ≢ c.id) cs h apart in
      elim (Bool-cases (test c)) [
        | inl passes ↦ rw passes (rw (keeps c passes w).1.same_id others, rest)
        | inr fails ↦ rw fails (others, rest)
      ]

  update_many-IsConsistent :
      (t : Tables)
      → IsConsistent t
      → IsConsistent (record t { checks = update_many test set t.checks })
  update_many-IsConsistent t w = record {
    sound = All-update_many test IsSound set (λ c passes s. (keeps c passes s).0) t.checks w.sound;
    fresh = ids-update_many (λ id. id < t.next_id) t.checks w.sound w.fresh;
    distinct = Distinct-update_many t.checks w.sound w.distinct;
    one_open = λ id. omega (arith, open_count-update_many id t.checks w.sound, w.one_open id);
  }

no_open_count :
    (id : ℕ) (cs : List ScheduledCheck) → has_open_check cs id ≡ false → open_count id cs ≡ 0
no_open_count id [] h = refl
no_open_count id (c ∷ cs) h = elim (Bool-cases (c.monitor_id == id && is_open c.status)) [
  | inl found ↦ absurd (ground arith)
  | inr other ↦ let rest = no_open_count id cs (rw other at h) in rw other (omega arith)
]

-- What one round of the loop in `createDueChecks` leaves: the tables as they were, or one new check.
abbrev pub Adds : DueMonitorRow → Tables → Tables → Type 0
Adds m t u =
    (u ≡ t)
    ⊎ ((s : ℕ) × (u.checks ≡ new_check t.next_id m s ∷ t.checks) × (u.next_id ≡ t.next_id + 1))

create_at-Adds :
    (m : DueMonitorRow) (s n : Date) (t : Tables) (r : ScheduledCheckSummary × Tables)
    → create_at m s n t ≡ ok r
    → Adds m t r.1
unfolding create_at
create_at-Adds m (at s) (at n) t r h =
    elim (Bool-cases (any (has_slot m s) t.checks || has_open_check t.checks m.id)) [
      | inl taken ↦ absurd (let h' = rw taken at h in cc)
      | inr free ↦ let h' = rw free at h in inr (s, ground arith, ground arith)
    ]
create_at-Adds m (at s) invalid t r h = absurd cc
create_at-Adds m invalid n t r h = absurd cc

create_slot-Adds :
    (now : ℕ) (m : DueMonitorRow) (slot : Option Date) (t : Tables)
    (r : List ScheduledCheckSummary × Tables)
    → create_slot now m slot t ≡ ok r
    → Adds m t r.1
unfolding create_slot
create_slot-Adds now m none t r h = inl (ground arith)
create_slot-Adds now m (some s) t r h =
    let (next, found, h1) = >>=-eq-ok (calculate_next_check_at s m.interval_sec (at now)) _ h in
    let (made, wrote, same) = >>=-eq-ok (create_at m s next t) _ h1 in
    let adds = create_at-Adds m s next t made wrote in
    let last : made.1 ≡ r.1 = ground arith in rw (← last) adds

pub create_due_check-Adds :
    (now : ℕ) (m : DueMonitorRow) (t : Tables) (r : List ScheduledCheckSummary × Tables)
    → create_due_check now m t ≡ ok r
    → Adds m t r.1
unfolding create_due_check
create_due_check-Adds now m t r h =
    let (slot, found, h1) =
      >>=-eq-ok (coalesce_due_scheduled_at (at m.next_check_at) m.interval_sec (at now)) _ h in
    create_slot-Adds now m slot t r h1

pub IsConsistent-add :
    (m : DueMonitorRow) (t u : Tables) (s : ℕ)
    → has_open_check t.checks m.id ≡ false
    → u.checks ≡ new_check t.next_id m s ∷ t.checks
    → u.next_id ≡ t.next_id + 1
    → IsConsistent t
    → IsConsistent u
unfolding new_check
IsConsistent-add m t u s none_open same next w = record {
  sound = rw same (new_check-IsSound t.next_id m s, w.sound);
  fresh =
      rw (same, next)
        (omega arith, All-map (λ c (lt : c.id < t.next_id). omega arith) t.checks w.fresh);
  distinct = rw same (
    All-map {Q = λ c. c.id ≢ t.next_id} (λ c (lt : c.id < t.next_id) e. absurd (omega arith))
        t.checks w.fresh,
    w.distinct,
  );
  one_open = λ id. rw same (elim (ℕ_discrete m.id id) [
    | yes mine ↦
        let calm : open_count id t.checks ≡ 0 =
          rw (← mine) (no_open_count m.id t.checks none_open) in
        ground arith
    | no other ↦ let few = w.one_open id in ground arith
  ]);
}

-- The monitors that follow in the answer still have no open check.
pub IsAnswer-add :
    (m : DueMonitorRow) (t u : Tables) (s : ℕ) (due : List DueMonitorRow)
    → u.checks ≡ new_check t.next_id m s ∷ t.checks
    → All (λ d. d.id ≢ m.id) due
    → IsAnswer t due
    → IsAnswer u due
unfolding new_check
IsAnswer-add m t u s [] same others h = tt
IsAnswer-add m t u s (d ∷ due) same (other, others) (calm, apart, h) =
    (rw same (ground arith), apart, IsAnswer-add m t u s due same others h)

create_due_checks-IsConsistent :
    (now : ℕ) (due : List DueMonitorRow) (t : Tables) (r : List ScheduledCheckSummary × Tables)
    → IsAnswer t due
    → create_due_checks now due t ≡ ok r
    → IsConsistent t
    → IsConsistent r.1
unfolding create_due_checks
create_due_checks-IsConsistent now [] t r answer h w =
    let same : t ≡ r.1 = ground arith in rw (← same) w
create_due_checks-IsConsistent now (m ∷ due) t r (calm, others, answer) h w =
    let (first, made, h1) = >>=-eq-ok (create_due_check now m t) _ h in
    let (later, went_on, h2) = >>=-eq-ok (create_due_checks now due first.1) _ h1 in
    let last : later.1 ≡ r.1 = ground arith in
    rw (← last) (elim (create_due_check-Adds now m t first made) [
      | inl same ↦
          create_due_checks-IsConsistent now due first.1 later (rw same answer) went_on (rw same w)
      | inr (s, same, next) ↦
          create_due_checks-IsConsistent now due first.1 later
            (IsAnswer-add m t first.1 s due same others answer) went_on
            (IsConsistent-add m t first.1 s calm same next w)
    ])

-- A step keeps the ledger consistent.
pub Step-IsConsistent : (t u : Tables) → Step t u → IsConsistent t → IsConsistent u
unfolding claim_for_dispatch mark_enqueued release_dispatch_claim claim_for_run cancel_stale
Step-IsConsistent t _ (created now due summaries u answer made) w =
    create_due_checks-IsConsistent now due t (summaries, u) answer made w
Step-IsConsistent t _ (claimed id owner now lease_until) w =
    update_many-IsConsistent _ _ (claim_row-Keeps id owner now lease_until) t w
Step-IsConsistent t _ (enqueued id owner now lease_until) w =
    update_many-IsConsistent _ _ (enqueue_row-Keeps id owner now lease_until) t w
Step-IsConsistent t _ (released id owner reason) w =
    update_many-IsConsistent _ _ (release_row-Keeps id owner reason) t w
Step-IsConsistent t _ (started id instance_id now lease_until) w =
    update_many-IsConsistent _ _ (start_row-Keeps id instance_id now lease_until) t w
Step-IsConsistent t _ (canceled reason id now) w =
    update_many-IsConsistent _ _ (cancel_row-Keeps reason id now) t w
Step-IsConsistent t _ (completed was_canceled result id finished_at read) w =
    rw (complete_check_read was_canceled result id finished_at t.checks read)
      (update_many-IsConsistent _ _ (finish_read-Keeps was_canceled result id finished_at) t w)

-- However schedulers and workers interleave, a consistent ledger stays so: a monitor never has two
-- open checks, a row is completed exactly when it has a time of completion, a canceled row has a time
-- of cancellation and a row with one has ended, a completed row has its result, a row with a result
-- has ended, and one that has ended holds no lease; also where a commit has read the row of its check
-- before another worker canceled it.
pub Reaches-IsConsistent : (t u : Tables) → Reaches t u → IsConsistent t → IsConsistent u
Reaches-IsConsistent t _ no_step w = w
Reaches-IsConsistent t _ (next_step u v earlier step) w =
    Step-IsConsistent u v step (Reaches-IsConsistent t u earlier w)
