-- ===== src/Domain/Scheduling/Slots.antt =====
-- The slots of a schedule: the times that lie a whole number of intervals behind its start.
use link_alive.Common.{
  Result, inl, inr, ap, lt→ltb, dec_lt, le→leb, ℕ, ◌+◌, ◌-◌, ◌*◌, ◌/◌, ◌≤◌, ◌<◌, max, ◌≡◌, refl,
  ◌↔◌, ◌⊎◌, none, some, ok, Bool, true, arith,
}
use native.Mathlib.Nat.{div-mul-le_self, lt-div-mul-add, div-eq_of_lt}
use link_alive.Domain.Types.{Error, at, new_date, max_safe_integer, max_time}
use link_alive.Domain.Scheduling.{
  calculate_next_check_at, coalesce_due_scheduled_at, intervals_to_advance, is_monitor_stale,
  min_stale_grace_ms, is_later,
}

-- `t` is the first slot of the schedule from `start` that is later than `now` and than `start`.
pub record IsNextSlot (start period now t : ℕ) : Type 0 where
  pub rounds : ℕ
  pub slot : t ≡ start + rounds * period
  pub later_than_start : start < t
  pub later_than_now : now < t
  pub first : (k : ℕ) → 0 < k → now < start + k * period → t ≤ start + k * period

-- `t` is the last slot, from `start` on, that is not later than `now`.
pub record IsLastSlot (start period now t : ℕ) : Type 0 where
  pub rounds : ℕ
  pub slot : t ≡ start + rounds * period
  pub reached : t ≤ now
  pub last : (k : ℕ) → start + k * period ≤ now → start + k * period ≤ t

mul_add_le : (j k p : ℕ) → j * p < k * p → j * p + p ≤ k * p
mul_add_le j k p h = elim (dec_lt j k) [
  | yes lt ↦ grind arith
  | no ge ↦ let le : k * p ≤ j * p = grind arith in omega arith
]

advance_past :
    (scheduled now p : ℕ)
    → 0 < p
    → scheduled ≤ now
    → intervals_to_advance scheduled now p ≡ (now - scheduled) / p + 1
unfolding intervals_to_advance
advance_past scheduled now p pos h = ground arith

advance_future : (scheduled now p : ℕ) → now < scheduled → intervals_to_advance scheduled now p ≡ 1
unfolding intervals_to_advance
advance_future scheduled now p h = ground arith

IsNextSlot-past :
    (start period now : ℕ)
    → 0 < period
    → start ≤ now
    → IsNextSlot start period now (start + ((now - start) / period + 1) * period)
IsNextSlot-past start period now pos h =
    let low = div-mul-le_self (now - start) period in
    let high = lt-div-mul-add {a = now - start} pos in
    record {
      rounds = (now - start) / period + 1;
      slot = refl;
      later_than_start = omega arith;
      later_than_now = omega arith;
      first =
          λ k kpos hk. omega (arith, mul_add_le ((now - start) / period) k period (omega arith));
    }

IsNextSlot-future :
    (start period now : ℕ)
    → 0 < period
    → now < start
    → IsNextSlot start period now (start + 1 * period)
IsNextSlot-future start period now pos h = record {
  rounds = 1;
  slot = refl;
  later_than_start = omega arith;
  later_than_now = omega arith;
  first = λ k kpos hk. omega (arith, mul_add_le 0 k period (grind arith));
}

-- `calculateNextCheckAt` returns the first slot of the original schedule that is in the future and
-- behind `scheduledAt`, whatever was missed (as a `Date`, so far as the slot is within its range).
pub calculate_next_check_at-IsNextSlot :
    (scheduled interval_sec now : ℕ)
    → 1 ≤ interval_sec
    → interval_sec ≤ max_safe_integer
    → (t : ℕ) × (calculate_next_check_at (at scheduled) interval_sec (at now) ≡ ok (new_date t))
      × IsNextSlot scheduled (interval_sec * 1000) now t
unfolding calculate_next_check_at
calculate_next_check_at-IsNextSlot scheduled interval_sec now pos safe =
    let p = interval_sec * 1000 in
    elim (dec_lt now scheduled) [
      | yes h ↦ (
        scheduled + 1 * p,
        rw (le→leb _ _ safe, le→leb _ _ pos, advance_future scheduled now p h),
        IsNextSlot-future scheduled p now (omega arith) h,
      )
      | no h ↦ (
        scheduled + ((now - scheduled) / p + 1) * p,
        rw (
          le→leb _ _ safe,
          le→leb _ _ pos,
          advance_past scheduled now p (omega arith) (omega arith),
        ),
        IsNextSlot-past scheduled p now (omega arith) (omega arith),
      )
    ]

IsLastSlot-now :
    (start period now : ℕ)
    → 0 < period
    → start ≤ now
    → IsLastSlot start period now (start + (now - start) / period * period)
IsLastSlot-now start period now pos h =
    let low = div-mul-le_self (now - start) period in
    let high = lt-div-mul-add {a = now - start} pos in
    record {
      rounds = (now - start) / period;
      slot = refl;
      reached = omega arith;
      last = λ k hk. elim (dec_lt ((now - start) / period * period) (k * period)) [
        | yes lt ↦ absurd (omega (arith, mul_add_le ((now - start) / period) k period lt))
        | no ge ↦ omega arith
      ];
    }

interval_of_coalesce :
    (next interval_sec now t : ℕ)
    → coalesce_due_scheduled_at (at next) interval_sec (at now) ≡ ok (some (at t))
    → (1 ≤ interval_sec) × (interval_sec ≤ max_safe_integer)
unfolding coalesce_due_scheduled_at
interval_of_coalesce next interval_sec now t h = ground arith

coalesced :
    (next interval_sec now t : ℕ)
    → coalesce_due_scheduled_at (at next) interval_sec (at now) ≡ ok (some (at t))
    → (next ≤ now) × (t ≡ next + (now - next) / (interval_sec * 1000) * (interval_sec * 1000))
unfolding coalesce_due_scheduled_at
coalesced next interval_sec now t h = ground arith

-- From the slot that `now` lies in, the next one is one interval on.
next_of_current :
    (t interval_sec now : ℕ)
    → 1 ≤ interval_sec
    → interval_sec ≤ max_safe_integer
    → t ≤ now
    → now < t + interval_sec * 1000
    → calculate_next_check_at (at t) interval_sec (at now) ≡ ok (new_date (t + interval_sec * 1000))
unfolding calculate_next_check_at
next_of_current t interval_sec now pos safe low high =
    let p = interval_sec * 1000 in
    let q : (now - t) / p ≡ 0 = div-eq_of_lt (omega arith) in
    rw (le→leb _ _ safe, le→leb _ _ pos, advance_past t now p (omega arith) low, q)
      (ap (λ k. ok (new_date (t + k))) (omega arith))

-- `coalesceDueScheduledAt` returns null for a schedule that has not started, and otherwise the most
-- recent slot that is due.
pub coalesce_due_scheduled_at-IsLastSlot :
    (next interval_sec now : ℕ)
    → 1 ≤ interval_sec
    → interval_sec ≤ max_safe_integer
    → ((now < next) × (coalesce_due_scheduled_at (at next) interval_sec (at now) ≡ ok none))
      ⊎ ((t : ℕ) × (coalesce_due_scheduled_at (at next) interval_sec (at now)
            ≡ ok (some (new_date t)))
          × IsLastSlot next (interval_sec * 1000) now t)
unfolding coalesce_due_scheduled_at
coalesce_due_scheduled_at-IsLastSlot next interval_sec now pos safe =
    let p = interval_sec * 1000 in
    elim (dec_lt now next) [
      | yes h ↦ inl (h, rw (le→leb _ _ safe, le→leb _ _ pos, lt→ltb _ _ h))
      | no h ↦ inr (
        next + (now - next) / p * p,
        ground arith,
        IsLastSlot-now next p now (omega arith) (omega arith),
      )
    ]

-- What the scheduler does with one due monitor: it runs the most recent due slot and moves the
-- schedule to the slot right behind it, which is in the future. So no slot is run twice, and none
-- is queued for the time that was missed.
pub calculate_next_check_at-coalesce :
    (next interval_sec now t : ℕ)
    → coalesce_due_scheduled_at (at next) interval_sec (at now) ≡ ok (some (at t))
    → (next ≤ t)
      × (t ≤ now)
      × (now < t + interval_sec * 1000)
      × (calculate_next_check_at (at t) interval_sec (at now)
          ≡ ok (new_date (t + interval_sec * 1000)))
calculate_next_check_at-coalesce next interval_sec now t h =
    let (pos, safe) = interval_of_coalesce next interval_sec now t h in
    let p = interval_sec * 1000 in
    let (started, e) = coalesced next interval_sec now t h in
    let low = div-mul-le_self (now - next) p in
    let high = lt-div-mul-add {a = now - next} {b = p} (omega arith) in
    (
      omega arith,
      omega arith,
      omega arith,
      next_of_current t interval_sec now pos safe (omega arith) (omega arith),
    )

ok_injective : {a b : Bool} → ◌≡◌ {A = Result Error Bool} (ok a) (ok b) → a ≡ b
ok_injective h = cc

is_later_iff :
    (limit now : ℕ) → now ≤ max_time → (is_later now (new_date limit) ≡ true) ↔ (limit < now)
is_later_iff limit now h = ground arith

-- `isMonitorStale` says, at a time within the range of dates, whether `now` is both more than twice
-- the interval and more than five minutes behind the next check.
pub is_monitor_stale_iff :
    (next interval_sec now : ℕ)
    → 1 ≤ interval_sec
    → interval_sec ≤ max_safe_integer
    → now ≤ max_time
    → (is_monitor_stale (some (at next)) interval_sec (at now) ≡ ok true)
      ↔ ((next + 2 * (interval_sec * 1000) < now) × (next + 300000 < now))
unfolding is_monitor_stale
is_monitor_stale_iff next interval_sec now pos safe valid =
    rw (le→leb _ _ safe, le→leb _ _ pos)
      (
        λ h.
            let limit : ℕ = next + max (interval_sec * 1000 * 2) min_stale_grace_ms in
            let later : limit < now = (is_later_iff limit now valid).0 (ok_injective h) in
            (omega arith, omega arith),
        λ (h, k). ap ok ((is_later_iff _ now valid).1 (omega arith)),
      )
