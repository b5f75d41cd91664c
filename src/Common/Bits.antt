-- ===== src/Common/Bits.antt =====
-- Bit operations at variables: a mask of leading ones, and the join of two numbers whose digits do
-- not overlap.
use Prim.Native.Nat.{
  ℕ, zero, suc, ◌+◌, ◌*◌, ◌/◌, ◌%◌, ◌≤◌, min, max, digits, bit_and, bit_or, bit_and-bitwise,
  bit_or-bitwise,
}
use mathlib.Core.Path.{◌≡◌, refl}
use native.Mathlib.Omega.{arith}

-- The meaning of both operations, whose fuel does not matter once it is enough.
module _ (z : ℕ → ℕ) (f : ℕ → ℕ → ℕ) where
  fuel_free : (n m a b : ℕ) → a ≤ n → a ≤ m → digits z f n a b ≡ digits z f m a b
  fuel_free zero zero a b p q = refl
  fuel_free zero (suc m) zero b p q = refl
  fuel_free (suc n) zero zero b p q = refl
  fuel_free (suc n) (suc m) zero b p q = refl
  fuel_free zero (suc m) (suc a) b p q = absurd (omega arith)
  fuel_free (suc n) zero (suc a) b p q = absurd (omega arith)
  fuel_free (suc n) (suc m) (suc a) b p q =
      rw (fuel_free n m (suc a / 2) (b / 2) (omega arith) (omega arith)) refl

-- The lowest digit of a conjunction, and of a disjunction.
and_halves : (a b : ℕ) → bit_and a b ≡ bit_and (a / 2) (b / 2) * 2 + min (a % 2) (b % 2)
and_halves zero b = omega (arith, bit_and-bitwise zero b, bit_and-bitwise zero (b / 2))
and_halves (suc a) b =
    let lower =
      fuel_free (λ y. 0) min a (suc a / 2) (suc a / 2) (b / 2) (omega arith) (omega arith) in
    omega (arith, bit_and-bitwise (suc a) b, bit_and-bitwise (suc a / 2) (b / 2), lower)

or_halves : (a b : ℕ) → bit_or a b ≡ bit_or (a / 2) (b / 2) * 2 + max (a % 2) (b % 2)
or_halves zero b = omega (arith, bit_or-bitwise zero b, bit_or-bitwise zero (b / 2))
or_halves (suc a) b =
    let lower =
      fuel_free (λ y. y) max a (suc a / 2) (suc a / 2) (b / 2) (omega arith) (omega arith) in
    omega (arith, bit_or-bitwise (suc a) b, bit_or-bitwise (suc a / 2) (b / 2), lower)

-- Trailing zeros of the mask.
abbrev pub doubled : ℕ → ℕ → ℕ
doubled zero a = a
doubled (suc k) a = 2 * doubled k a

abbrev pub halved : ℕ → ℕ → ℕ
halved zero a = a
halved (suc k) a = halved k (a / 2)

pub bit_and-doubled : (k a m : ℕ) → bit_and a (doubled k m) ≡ doubled k (bit_and (halved k a) m)
bit_and-doubled zero a m = refl
bit_and-doubled (suc k) a m =
    let tail = bit_and-doubled k (a / 2) m in
    let half : 2 * doubled k m / 2 ≡ doubled k m = omega arith in
    let step = and_halves a (2 * doubled k m) in
    let inner : bit_and (a / 2) (2 * doubled k m / 2) ≡ bit_and (a / 2) (doubled k m) =
      rw half refl in
    omega arith

-- Ones all the way up.
abbrev pub ones : ℕ → ℕ
ones zero = 0
ones (suc k) = 2 * ones k + 1

pub bit_and-ones : (k a : ℕ) → a ≤ ones k → bit_and a (ones k) ≡ a
bit_and-ones zero a h = let none_set : a ≡ 0 = omega arith in rw none_set refl
bit_and-ones (suc k) a h =
    let tail = bit_and-ones k (a / 2) (omega arith) in
    let half : (2 * ones k + 1) / 2 ≡ ones k = omega arith in
    let step = and_halves a (2 * ones k + 1) in
    let inner : bit_and (a / 2) ((2 * ones k + 1) / 2) ≡ bit_and (a / 2) (ones k) = rw half refl in
    omega arith

bit_or-zero_up_to : (n a : ℕ) → a ≤ n → bit_or a 0 ≡ a
bit_or-zero_up_to zero a h = let none_set : a ≡ 0 = omega arith in rw none_set refl
bit_or-zero_up_to (suc n) zero h = refl
bit_or-zero_up_to (suc n) (suc a) h =
    let tail = bit_or-zero_up_to n (suc a / 2) (omega arith) in
    let step = or_halves (suc a) 0 in omega arith

-- A number with trailing zeros takes on one that has no more digits than those.
pub bit_or-doubled : (k a b : ℕ) → halved k b ≡ 0 → bit_or (doubled k a) b ≡ doubled k a + b
bit_or-doubled zero a b h = rw h (omega (arith, bit_or-zero_up_to a a (omega arith)))
bit_or-doubled (suc k) a b h =
    let tail = bit_or-doubled k a (b / 2) h in
    let half : 2 * doubled k a / 2 ≡ doubled k a = omega arith in
    let step = or_halves (2 * doubled k a) b in
    let inner : bit_or (2 * doubled k a / 2) (b / 2) ≡ bit_or (doubled k a) (b / 2) =
      rw half refl in
    omega arith
