-- ===== src/Domain/Scheduling/Jitter.antt =====
-- The jitter that spreads monitors over an interval, and the first check of a monitor.
use link_alive.Common.{ℕ, ◌+◌, ◌*◌, ◌/◌, ◌^◌, ◌≤◌, ◌<◌, ◌≡◌, ok, arith, List, [], ◌∷◌, >>=-eq-ok}
use native.Mathlib.Nat.{div-mul-le_self, lt-div-mul-add, mul-add-div_right, div-eq_of_lt, add-zero}
use link_alive.Domain.Types.{Date, at, new_date, new_date}
use link_alive.Domain.Scheduling.{
  RatioOps, fnv1a, fnv1a_from, stable_jitter_ms, calculate_initial_next_check_at,
  interval_to_milliseconds,
}

fnv1a_from_bound : (value : List ℕ) (hash : ℕ) → fnv1a_from hash value < 2 ^ 32
unfolding fnv1a_from
fnv1a_from_bound [] hash = omega arith
fnv1a_from_bound (c ∷ cs) hash = fnv1a_from_bound cs _

-- The hash is a 32-bit unsigned number.
fnv1a_bound : (value : List ℕ) → fnv1a value < 2 ^ 32
unfolding fnv1a
fnv1a_bound value = fnv1a_from_bound value _

next_bucket : (q p j : ℕ) → j < p → (q * p + p + j) / p ≡ q + 1
next_bucket q p j h =
    let same : q * p + p + j ≡ (q + 1) * p + j = grind arith in
    rw (same, mul-add-div_right {m = p} (omega arith), div-eq_of_lt h, add-zero)

module _ (ops : RatioOps) where
  open ops use {Ratio, in_unit, floor_scaled, floor_scaled_le}

  -- The jitter lies within the interval.
  stable_jitter_ms_bound :
      (monitor_id : List ℕ) (interval_sec : ℕ) (ratio : Ratio) (j : ℕ)
      → stable_jitter_ms ops monitor_id interval_sec ratio ≡ ok j
      → (j < interval_sec * 1000) × (1 ≤ interval_sec)
  unfolding stable_jitter_ms
  stable_jitter_ms_bound monitor_id interval_sec ratio j h =
      ground (arith, floor_scaled_le (interval_sec * 1000) ratio)

  initial_parts :
      (monitor_id : List ℕ) (interval_sec now : ℕ) (ratio : Ratio) (d : Date)
      → calculate_initial_next_check_at ops monitor_id interval_sec (at now) ratio ≡ ok d
      → (j : ℕ) × (stable_jitter_ms ops monitor_id interval_sec ratio ≡ ok j)
        × (d
            ≡ new_date
                (now / (interval_sec * 1000) * (interval_sec * 1000) + interval_sec * 1000 + j))
  unfolding calculate_initial_next_check_at
  initial_parts monitor_id interval_sec now ratio d h =
      let (p, interval, rest) = >>=-eq-ok (interval_to_milliseconds interval_sec) _ h in
      let (j, jitter, same) =
        >>=-eq-ok (stable_jitter_ms ops monitor_id interval_sec ratio) _ rest in
      let e : p ≡ interval_sec * 1000 = unfold interval_to_milliseconds in ground arith in
      (j, jitter, rw (← e) (cc))

  -- The first check of a monitor lies in the future: in the interval behind the one that `now` lies
  -- in, counted from 1970 (as a `Date`, so far as that is within the range of dates).
  pub calculate_initial_next_check_at_bound :
      (monitor_id : List ℕ) (interval_sec now : ℕ) (ratio : Ratio) (d : Date)
      → calculate_initial_next_check_at ops monitor_id interval_sec (at now) ratio ≡ ok d
      → (t : ℕ) × (d ≡ new_date t)
        × (now < t)
        × (t < now + 2 * (interval_sec * 1000))
        × (t / (interval_sec * 1000) ≡ now / (interval_sec * 1000) + 1)
  calculate_initial_next_check_at_bound monitor_id interval_sec now ratio d h =
      let p = interval_sec * 1000 in
      let (j, jitter, same) = initial_parts monitor_id interval_sec now ratio d h in
      let (small, pos) = stable_jitter_ms_bound monitor_id interval_sec ratio j jitter in
      let low = div-mul-le_self now p in
      let high = lt-div-mul-add {a = now} {b = p} (omega arith) in
      (now / p * p + p + j, same, omega arith, omega arith, next_bucket (now / p) p j small)
