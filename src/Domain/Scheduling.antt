-- ===== src/Domain/Scheduling.antt =====
-- packages/domain/src/scheduling.ts. Times are milliseconds from 1970 on, at most 2^53, where
-- the quotient that `Math.floor` is given is exact; text is a list of UTF-16 code units.
pub mod Slots
pub mod Jitter
mod Tests
use Prim.Native.Nat.{bit_xor}
use link_alive.Common.{
  ℕ, ◌+◌, ◌-◌, ◌*◌, ◌/◌, ◌%◌, ◌^◌, max, Bool, true, false, not, ◌&&◌, ◌||◌, Option, none, some,
  List, [], ◌∷◌, Result, ok, throw, ◌>>=◌, ◌>>◌, throw_if, leb, ltb, ◌==◌, if◌then◌else◌, all,
  is_space, ◌≡◌, ◌≤◌,
}
use link_alive.Domain.Types.{
  Date, at, invalid, Error, invalid_date, interval_range, empty_monitor_id, jitter_ratio_range,
  is_positive_safe, is_safe_integer, new_date, min_monitor_interval_seconds,
  max_monitor_interval_seconds,
}

abbrev pub minute_ms : ℕ
minute_ms = 60000

abbrev pub min_stale_grace_ms : ℕ
min_stale_grace_ms = 5 * minute_ms

unfoldable pub interval_to_milliseconds : ℕ → Result Error ℕ
interval_to_milliseconds interval_sec = do
  throw_if (not (is_positive_safe interval_sec)) interval_range
  ok (interval_sec * 1000)

-- `assertDate`, with the time that the date holds.
abbrev pub assert_date : Date → Result Error ℕ
assert_date (at ms) = ok ms
assert_date invalid = throw invalid_date

-- `Math.imul` and `>>>` as arithmetic on the 32 bits. `hash` is an unsigned number throughout: the
-- sign that JavaScript gives it between two rounds does not change its bits.
unfoldable pub fnv1a_from : ℕ → List ℕ → ℕ
fnv1a_from hash [] = hash % 2 ^ 32
fnv1a_from hash (c ∷ cs) = fnv1a_from ((bit_xor hash c * 0x01000193) % 2 ^ 32) cs

unfoldable pub fnv1a : List ℕ → ℕ
unfolding fnv1a_from
fnv1a value = fnv1a_from 0x811c9dc5 value

abbrev pub is_supported_interval_sec : ℕ → Bool
is_supported_interval_sec n =
    is_safe_integer n && leb min_monitor_interval_seconds n && leb n max_monitor_interval_seconds

-- `text.trim().length === 0`
abbrev pub is_blank : List ℕ → Bool
is_blank text = all is_space text

-- Numbers that need not be whole: what the jitter does with a ratio. `floor_scaled n r` is
-- `Math.floor(n * r)`, and `in_unit r` says that `r` is finite and between 0 and 1.
pub record RatioOps : Type 1 where
  pub Ratio : Type 0
  pub in_unit : Ratio → Bool
  pub floor_scaled : ℕ → Ratio → ℕ
  pub floor_scaled_le : (n : ℕ) (r : Ratio) → in_unit r ≡ true → floor_scaled n r ≤ n

module _ (ops : RatioOps) where
  open ops use {Ratio, in_unit, floor_scaled}

  unfoldable pub stable_jitter_ms : List ℕ → ℕ → Ratio → Result Error ℕ
  unfolding interval_to_milliseconds
  stable_jitter_ms monitor_id interval_sec ratio = do
    interval_ms ← interval_to_milliseconds interval_sec
    throw_if (is_blank monitor_id) empty_monitor_id
    throw_if (not (in_unit ratio)) jitter_ratio_range
    let window_ms = floor_scaled interval_ms ratio
    ok (if window_ms == 0 then 0 else fnv1a monitor_id % window_ms)

  unfoldable pub calculate_initial_next_check_at : List ℕ → ℕ → Date → Ratio → Result Error Date
  calculate_initial_next_check_at monitor_id interval_sec now ratio = do
    now_ms ← assert_date now
    interval_ms ← interval_to_milliseconds interval_sec
    let bucket_start = (now_ms / interval_ms) * interval_ms + interval_ms
    jitter ← stable_jitter_ms monitor_id interval_sec ratio
    ok (new_date (bucket_start + jitter))

-- `Math.max(1, Math.floor(elapsed / intervalMs) + 1)`: a negative `elapsed` gives 1.
unfoldable pub intervals_to_advance : ℕ → ℕ → ℕ → ℕ
intervals_to_advance scheduled now interval_ms =
    if ltb now scheduled then 1 else max 1 ((now - scheduled) / interval_ms + 1)

unfoldable pub calculate_next_check_at : Date → ℕ → Date → Result Error Date
unfolding interval_to_milliseconds intervals_to_advance
calculate_next_check_at scheduled_at interval_sec now = do
  scheduled ← assert_date scheduled_at
  now_ms ← assert_date now
  interval_ms ← interval_to_milliseconds interval_sec
  ok (new_date (scheduled + intervals_to_advance scheduled now_ms interval_ms * interval_ms))

unfoldable pub coalesce_due_scheduled_at : Date → ℕ → Date → Result Error (Option Date)
unfolding interval_to_milliseconds
coalesce_due_scheduled_at next_check_at interval_sec now = do
  next ← assert_date next_check_at
  now_ms ← assert_date now
  interval_ms ← interval_to_milliseconds interval_sec
  ok (
      if ltb now_ms next
      then none
      else some (new_date (next + (now_ms - next) / interval_ms * interval_ms)))

unfoldable pub stale_after : Date → ℕ → Result Error Date
unfolding interval_to_milliseconds
stale_after next_check_at interval_sec = do
  next ← assert_date next_check_at
  interval_ms ← interval_to_milliseconds interval_sec
  ok (new_date (next + max (interval_ms * 2) min_stale_grace_ms))

-- A comparison with the invalid date, whose time is NaN, is false.
abbrev pub is_later : ℕ → Date → Bool
is_later now (at t) = ltb t now
is_later now invalid = false

unfoldable pub is_monitor_stale : Option Date → ℕ → Date → Result Error Bool
unfolding stale_after
is_monitor_stale none interval_sec now = ok false
is_monitor_stale (some next_check_at) interval_sec now = do
  now_ms ← assert_date now
  limit ← stale_after next_check_at interval_sec
  ok (is_later now_ms limit)
