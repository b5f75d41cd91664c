-- ===== src/Scheduler/Due.antt =====
-- The scheduler gives every due monitor one check, for its most recent slot, and moves its schedule on.
use link_alive.Common.{
  ℕ, ◌+◌, ◌*◌, ◌≤◌, ◌<◌, ◌≡◌, ◌≢◌, refl, sym, ap, ◌∙◌, Bool, true, false, some, List, [], ◌∷◌, All,
  All-update_many, length, any, suc, ◌&&◌, ◌||◌, ltb, arith, ◌==◌, leb, le→leb, update_many,
  Bool-cases, ℕ_discrete, inl, inr, ok,
}
use link_alive.Database.Checks.{ScheduledCheck, is_pending}
use link_alive.Domain.Types.{at, new_date, max_time, max_safe_integer}
use link_alive.Domain.Scheduling.{calculate_next_check_at, coalesce_due_scheduled_at}
use link_alive.Domain.Scheduling.Slots.{
  coalesce_due_scheduled_at-IsLastSlot, calculate_next_check_at-coalesce,
}
use link_alive.Scheduler.Store.{
  MonitorRow, Tables, DueMonitorRow, ScheduledCheckSummary, is_reached, set_next_check, new_check,
  create_at, create_slot, create_due_check, create_due_checks, has_slot, has_open_check,
}

-- A due row with a supported interval, whose next slot is within the range of dates.
pub record IsReady (now : ℕ) (m : DueMonitorRow) : Type 0 where
  pub positive : 1 ≤ m.interval_sec
  pub safe : m.interval_sec ≤ max_safe_integer
  pub reached : m.next_check_at ≤ now
  pub in_range : now + m.interval_sec * 1000 ≤ max_time

-- No check of the monitor's configuration stands at or behind its next slot.
abbrev pub IsBefore : DueMonitorRow → ScheduledCheck → Type 0
IsBefore m c =
    c.monitor_id ≡ m.id → c.config_version ≡ m.config_version → c.scheduled_at < m.next_check_at

-- An answer of the SELECT, which has a monitor once and none with an open check, on tables without
-- checks ahead of the schedule.
abbrev pub IsReadyAnswer : ℕ → List DueMonitorRow → List ScheduledCheck → Type 0
IsReadyAnswer now [] checks = Unit {0}
IsReadyAnswer now (m ∷ due) checks =
    IsReady now m
    × All (IsBefore m) checks
    × (has_open_check checks m.id ≡ false)
    × All (λ d. d.id ≢ m.id) due
    × IsReadyAnswer now due checks

-- The tables once a check for the slot `s` has been created and the schedule moved to `n`.
abbrev pub scheduled : DueMonitorRow → ℕ → ℕ → Tables → Tables
scheduled m s n t = record {
  monitors = update_many (λ r. r.id == m.id) (set_next_check n) t.monitors;
  checks = new_check t.next_id m s ∷ t.checks;
  next_id = t.next_id + 1;
}

new_date-valid : (t : ℕ) → t ≤ max_time → new_date t ≡ at t
new_date-valid t le = rw (le→leb _ _ le) refl

due_slot :
    (now : ℕ) (m : DueMonitorRow)
    → IsReady now m
    → (s : ℕ) × (rounds : ℕ) × (s ≡ m.next_check_at + rounds * (m.interval_sec * 1000))
      × (s ≤ now)
      × (now < s + m.interval_sec * 1000)
      × (coalesce_due_scheduled_at (at m.next_check_at) m.interval_sec (at now) ≡ ok (some (at s)))
      × (calculate_next_check_at (at s) m.interval_sec (at now)
          ≡ ok (at (s + m.interval_sec * 1000)))
due_slot now m w =
    elim (coalesce_due_scheduled_at-IsLastSlot m.next_check_at m.interval_sec now w.positive
      w.safe) [
        | inl (early, none_due) ↦ absurd (let late = w.reached in omega arith)
        | inr (s, due, last) ↦
            let r = w.in_range in
            let le = last.reached in
            let valid = new_date-valid s (omega arith) in
            let due' : coalesce_due_scheduled_at (at m.next_check_at) m.interval_sec (at now)
                ≡ ok (some (at s)) =
              rw valid at due in
            let (start, past, ahead, moved) =
              calculate_next_check_at-coalesce m.next_check_at m.interval_sec now s due' in
            (
              s,
              last.rounds,
              last.slot,
              past,
              ahead,
              due',
              moved ∙ ap ok (new_date-valid (s + m.interval_sec * 1000) (omega arith)),
            )
      ]

free_slot :
    (m : DueMonitorRow) (s : ℕ) (cs : List ScheduledCheck)
    → m.next_check_at ≤ s
    → All (IsBefore m) cs
    → any (has_slot m s) cs ≡ false
free_slot m s [] le h = refl
free_slot m s (c ∷ cs) le (before, h) =
    let rest = free_slot m s cs le h in
    elim (ℕ_discrete c.monitor_id m.id) [
      | no other ↦ ground arith
      | yes mine ↦ elim (ℕ_discrete c.config_version m.config_version) [
        | no other ↦ ground arith
        | yes same ↦ let early = before mine same in ground arith
      ]
    ]

create_due_check-ready :
    (now : ℕ) (m : DueMonitorRow) (t : Tables)
    → IsReady now m
    → All (IsBefore m) t.checks
    → has_open_check t.checks m.id ≡ false
    → (s : ℕ) × (rounds : ℕ) × (s ≡ m.next_check_at + rounds * (m.interval_sec * 1000))
      × (s ≤ now)
      × (now < s + m.interval_sec * 1000)
      × (create_due_check now m t
          ≡ ok (
            record { id = t.next_id; config_version = m.config_version } ∷ [],
            scheduled m s (s + m.interval_sec * 1000) t,
          ))
unfolding create_due_check create_slot create_at
create_due_check-ready now m t w free calm =
    let (s, rounds, slot, past, ahead, due, moved) = due_slot now m w in
    (
      s,
      rounds,
      slot,
      past,
      ahead,
      rw (due, moved, free_slot m s t.checks (omega arith) free, calm) refl,
    )

-- The new check of a due row: for its monitor and its configuration, pending, for a slot of its
-- schedule that is at or before `now` with the next one behind `now`.
abbrev pub is_check_of : (now rounds : ℕ) → DueMonitorRow → ScheduledCheck → Bool
is_check_of now rounds m c =
    c.monitor_id == m.id
    && c.config_version == m.config_version
    && is_pending c.status
    && c.scheduled_at == m.next_check_at + rounds * (m.interval_sec * 1000)
    && leb c.scheduled_at now
    && ltb now (c.scheduled_at + m.interval_sec * 1000)

pub record IsScheduled (now : ℕ) (m : DueMonitorRow) (u : Tables) : Type 0 where
  pub rounds : ℕ
  pub has_check : any (is_check_of now rounds m) u.checks ≡ true
  pub moved_on : All (λ r. r.id ≡ m.id → is_reached r.next_check_at now ≡ false) u.monitors

moved :
    (now n id : ℕ) (rs : List MonitorRow)
    → now < n
    → All
        (λ r. r.id ≡ id → is_reached r.next_check_at now ≡ false)
        (update_many (λ r. r.id == id) (set_next_check n) rs)
moved now n id [] later = tt
moved now n id (r ∷ rs) later = elim (Bool-cases (r.id == id)) [
  | inl mine ↦ rw mine (λ e. ground arith, moved now n id rs later)
  | inr other ↦ rw other (λ e. ground arith, moved now n id rs later)
]

scheduled-IsScheduled :
    (now s rounds : ℕ) (m : DueMonitorRow) (t : Tables)
    → s ≡ m.next_check_at + rounds * (m.interval_sec * 1000)
    → s ≤ now
    → now < s + m.interval_sec * 1000
    → IsScheduled now m (scheduled m s (s + m.interval_sec * 1000) t)
unfolding new_check
scheduled-IsScheduled now s rounds m t slot past ahead = record {
  rounds = rounds;
  has_check = ground arith;
  moved_on = moved now (s + m.interval_sec * 1000) m.id t.monitors ahead;
}

or_true : (b : Bool) → (b || true) ≡ true
or_true true = refl
or_true false = refl

-- A later round of the loop does not undo an earlier one.
scheduled-keeps :
    (now s : ℕ) (m d : DueMonitorRow) (t : Tables)
    → now < s + m.interval_sec * 1000
    → IsScheduled now d t
    → IsScheduled now d (scheduled m s (s + m.interval_sec * 1000) t)
scheduled-keeps now s m d t ahead w = record {
  rounds = w.rounds;
  has_check = rw (w.has_check, or_true) refl;
  moved_on =
      All-update_many (λ r. r.id == m.id)
        (λ r. r.id ≡ d.id → is_reached r.next_check_at now ≡ false)
        (set_next_check (s + m.interval_sec * 1000)) (λ r mine before e. ground arith) t.monitors
        w.moved_on;
}

-- The new check is one of its own monitor.
IsReadyAnswer-add :
    (now id s : ℕ) (m : DueMonitorRow) (due : List DueMonitorRow) (checks : List ScheduledCheck)
    → All (λ d. d.id ≢ m.id) due
    → IsReadyAnswer now due checks
    → IsReadyAnswer now due (new_check id m s ∷ checks)
unfolding new_check
IsReadyAnswer-add now id s m [] checks others w = tt
IsReadyAnswer-add now id s m (d ∷ due) checks (other, others) (ready, free, calm, apart, w) = (
  ready,
  (λ mine version. absurd (other (sym mine)), free),
  ground arith,
  apart,
  IsReadyAnswer-add now id s m due checks others w,
)

-- Where the answer has a monitor once, each with a supported interval and without an open check, and
-- no check of a monitor's configuration stands at or behind its next slot, `createDueChecks` returns
-- one summary for each row of the answer, and then each of them has a pending check for the last slot of its schedule
-- that is not in the future, and is not due again at that time.
pub create_due_checks-IsScheduled :
    (now : ℕ) (due : List DueMonitorRow) (t : Tables)
    → IsReadyAnswer now due t.checks
    → (summaries : List ScheduledCheckSummary) × (u : Tables) × (create_due_checks now due t
        ≡ ok (summaries, u))
      × (length summaries ≡ length due)
      × All (λ m. IsScheduled now m u) due
      × ((d : DueMonitorRow) → IsScheduled now d t → IsScheduled now d u)
unfolding create_due_checks
create_due_checks-IsScheduled now [] t ready = ([], t, refl, refl, tt, λ d w. w)
create_due_checks-IsScheduled now (m ∷ due) t (r, free, calm, others, ready) =
    let (s, rounds, slot, past, ahead, made) = create_due_check-ready now m t r free calm in
    let t' = scheduled m s (s + m.interval_sec * 1000) t in
    let (summaries, u, went_on, count, all, keeps) =
      create_due_checks-IsScheduled now due t'
        (IsReadyAnswer-add now t.next_id s m due t.checks others ready) in
    (
      record { id = t.next_id; config_version = m.config_version } ∷ summaries,
      u,
      rw (made, went_on) refl,
      ap suc count,
      (keeps m (scheduled-IsScheduled now s rounds m t slot past ahead), all),
      λ d w. keeps d (scheduled-keeps now s m d t ahead w),
    )
