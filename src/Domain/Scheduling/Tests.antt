-- ===== src/Domain/Scheduling/Tests.antt =====
-- A monitor checked every 60 seconds.
use link_alive.Common.{
  leb→le, ℕ, ◌+◌, ◌*◌, ◌/◌, ◌≤◌, ◌<◌, ◌≡◌, refl, some, ok, true, arith, leb, List, [], ◌∷◌,
}
use native.Mathlib.Nat.{div-le_of_le-mul}
use link_alive.Domain.Types.{at, new_date}
use link_alive.Domain.Scheduling.{
  RatioOps, calculate_next_check_at, coalesce_due_scheduled_at, calculate_initial_next_check_at,
  fnv1a, stable_jitter_ms,
}
use link_alive.Domain.Scheduling.Slots.{
  IsNextSlot, calculate_next_check_at-IsNextSlot, calculate_next_check_at-coalesce,
}
use link_alive.Domain.Scheduling.Jitter.{calculate_initial_next_check_at_bound}

calculate_next_check_at-IsNextSlot_example :
    (t : ℕ) × (calculate_next_check_at (at 1000) 60 (at 200000) ≡ ok (new_date t))
    × IsNextSlot 1000 60000 200000 t
calculate_next_check_at-IsNextSlot_example =
    calculate_next_check_at-IsNextSlot 1000 60 200000 (omega arith) (omega arith)

due : coalesce_due_scheduled_at (at 1000) 60 (at 200000) ≡ ok (some (at 181000))
unfolding coalesce_due_scheduled_at
due = refl

calculate_next_check_at-coalesce_example :
    (1000 ≤ 181000)
    × (181000 ≤ 200000)
    × (200000 < 181000 + 60 * 1000)
    × (calculate_next_check_at (at 181000) 60 (at 200000) ≡ ok (new_date (181000 + 60 * 1000)))
calculate_next_check_at-coalesce_example =
    calculate_next_check_at-coalesce 1000 60 200000 181000 due

scale_le : (n r : ℕ) → r ≤ 100 → n * r ≤ 100 * n
scale_le n r h = let le : n * r ≤ n * 100 = grind arith in omega arith

-- Ratios in hundredths.
percent_le : (n r : ℕ) → leb r 100 ≡ true → n * r / 100 ≤ n
percent_le n r h = let small : r ≤ 100 = leb→le r 100 h in div-le_of_le-mul 100 (scale_le n r small)

abbrev percent : RatioOps
percent = record {
  Ratio = ℕ;
  in_unit = λ r. leb r 100;
  floor_scaled = λ n r. n * r / 100;
  floor_scaled_le = percent_le;
}

abbrev name : List ℕ
name = b'm' ∷ b'1' ∷ []

hash_of_name : fnv1a name ≡ 0x942e6feb
unfolding fnv1a
hash_of_name = refl

first_check :
    calculate_initial_next_check_at percent name 60 (at 200000) 10 ≡ ok (new_date (240000 + 1275))
unfolding calculate_initial_next_check_at stable_jitter_ms fnv1a
first_check = refl

calculate_initial_next_check_at_bound_example :
    (t : ℕ) × (new_date 241275 ≡ new_date t)
    × (200000 < t)
    × (t < 200000 + 2 * (60 * 1000))
    × (t / (60 * 1000) ≡ 200000 / (60 * 1000) + 1)
calculate_initial_next_check_at_bound_example =
    calculate_initial_next_check_at_bound percent name 60 200000 10 (new_date 241275) first_check
