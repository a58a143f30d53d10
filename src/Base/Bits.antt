-- ===== src/Base/Bits.antt =====
-- Single-bit masks: whether a set bit meets a mask, and how setting a bit changes that.
use Prim.Native.Nat.{
  ℕ, zero, suc, ◌+◌, ◌*◌, ◌/◌, ◌%◌, ◌^◌, ◌≤◌, min, max, digits, bitwise, bit_and, bit_or,
  bit_and-bitwise, bit_or-bitwise,
}
use mathlib.Core.Path.{◌≡◌, refl, ap}
use mathlib.Core.Bool.{Bool, false, not, ◌||◌}
use native.Mathlib.Omega.{arith}
use clipkitty.Base.Tests.{◌==◌}

-- Any count of digits that is large enough gives the same result.
module _ (z : ℕ → ℕ) (f : ℕ → ℕ → ℕ) where
  digits_enough_from : (n k a b : ℕ) → a ≤ n → a ≤ k → digits z f n a b ≡ digits z f k a b
  digits_enough_from zero zero a b h j = refl
  digits_enough_from zero (suc k) zero b h j = refl
  digits_enough_from zero (suc k) (suc a) b h j = absurd (omega arith)
  digits_enough_from (suc n) zero zero b h j = refl
  digits_enough_from (suc n) zero (suc a) b h j = absurd (omega arith)
  digits_enough_from (suc n) (suc k) zero b h j = refl
  digits_enough_from (suc n) (suc k) (suc a) b h j =
      omega (arith, digits_enough_from n k (suc a / 2) (b / 2) (omega arith) (omega arith))

  digits_enough : (n a b : ℕ) → a ≤ n → digits z f n a b ≡ bitwise z f a b
  digits_enough n a b h = digits_enough_from n a a b h (omega arith)

pub bit_and-half : (a b : ℕ) → bit_and a b ≡ bit_and (a / 2) (b / 2) * 2 + min (a % 2) (b % 2)
bit_and-half zero b = omega (arith, bit_and-bitwise 0 b, bit_and-bitwise 0 (b / 2))
bit_and-half (suc a) b = omega (
  arith,
  bit_and-bitwise (suc a) b,
  bit_and-bitwise (suc a / 2) (b / 2),
  digits_enough (λ b. zero) min a (suc a / 2) (b / 2) (omega arith),
)

pub bit_or-half : (a b : ℕ) → bit_or a b ≡ bit_or (a / 2) (b / 2) * 2 + max (a % 2) (b % 2)
bit_or-half zero b = omega (arith, bit_or-bitwise 0 b, bit_or-bitwise 0 (b / 2))
bit_or-half (suc a) b = omega (
  arith,
  bit_or-bitwise (suc a) b,
  bit_or-bitwise (suc a / 2) (b / 2),
  digits_enough (λ b. b) max a (suc a / 2) (b / 2) (omega arith),
)

-- `mask & bit != 0`.
abbrev pub meets : ℕ → ℕ → Bool
meets mask bit = not (bit_and mask bit == 0)

half_power : (i : ℕ) → 2 ^ suc i / 2 ≡ 2 ^ i
half_power i = omega arith

bit_of_half : (m i : ℕ) → bit_and m (2 ^ suc i) ≡ bit_and (m / 2) (2 ^ i) * 2
bit_of_half m i = rw (← half_power i) (omega (arith, bit_and-half m (2 ^ suc i)))

bit_and_zero : (m : ℕ) → bit_and 0 m ≡ 0
bit_and_zero m = bit_and-bitwise 0 m

right_zero : (n m : ℕ) → m ≤ n → (bit_and m 0 ≡ 0) × (bit_or m 0 ≡ m)
right_zero n zero h = (bit_and-bitwise 0 0, bit_or-bitwise 0 0)
right_zero zero (suc m) h = absurd (omega arith)
right_zero (suc n) (suc m) h =
    let (a, o) = right_zero n (suc m / 2) (omega arith) in
    (omega (arith, bit_and-half (suc m) 0), omega (arith, bit_or-half (suc m) 0))

bit_of_one : (m : ℕ) → bit_and m 1 ≡ m % 2
bit_of_one m = omega (arith, bit_and-half m 1, (right_zero (m / 2) (m / 2) (omega arith)).0)

or_one : (m : ℕ) → bit_or m 1 ≡ m / 2 * 2 + 1
or_one m = omega (arith, bit_or-half m 1, (right_zero (m / 2) (m / 2) (omega arith)).1)

or_half : (m i : ℕ) → bit_or m (2 ^ suc i) ≡ bit_or (m / 2) (2 ^ i) * 2 + m % 2
or_half m i = rw (← half_power i) (omega (arith, bit_or-half m (2 ^ suc i)))

pub meets_zero : (i : ℕ) → meets 0 (2 ^ i) ≡ false
meets_zero i = ground (arith, bit_and_zero (2 ^ i))

-- Setting bit `i` makes bit `i` meet the mask, and leaves the others.
pub meets-bit_or : (m i j : ℕ) → meets (bit_or m (2 ^ i)) (2 ^ j) ≡ (i == j || meets m (2 ^ j))
meets-bit_or m zero zero = ground (arith, or_one m, bit_of_one (bit_or m 1), bit_of_one m)
meets-bit_or m zero (suc j) = ground (arith, or_one m, bit_of_half (bit_or m 1) j, bit_of_half m j)
meets-bit_or m (suc i) zero =
    ground (arith, or_half m i, bit_of_one (bit_or m (2 ^ suc i)), bit_of_one m)
meets-bit_or m (suc i) (suc j) =
    let half : bit_or m (2 ^ suc i) / 2 ≡ bit_or (m / 2) (2 ^ i) = omega (arith, or_half m i) in
    ground (
      arith,
      meets-bit_or (m / 2) i j,
      bit_of_half (bit_or m (2 ^ suc i)) j,
      bit_of_half m j,
      ap (λ n. bit_and n (2 ^ j)) half,
    )
