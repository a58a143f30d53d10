-- ===== src/Base/Int.antt =====
-- Machine words. A `u64` is a number below `2 ^ 64`; an `i64` is an integer. A
-- difference that does not fit aborts the program, which is built with overflow checks; here it is the
-- wrapped number, and a theorem about differences assumes that they fit.
use Prim.Native.Nat.{ℕ, suc, ◌+◌, ◌-◌, ◌^◌, ◌<◌}
use mathlib.Core.Path.{◌≡◌}
use mathlib.Core.Bool.{Bool}
use native.Mathlib.Omega.{arith}
use mathlib.Core.Logic.{inl, inr}
use clipkitty.Base.Tests.{ltb, leb, Bool-cases, if◌then◌else◌}

abbrev pub u64_max : ℕ
u64_max = 2 ^ 64 - 1

-- `u64::saturating_add`.
unfoldable pub saturating_add : ℕ → ℕ → ℕ
saturating_add a b = if leb (a + b) u64_max then a + b else u64_max

pub saturating_add_lem : (a : ℕ) → a < u64_max → saturating_add a 1 ≡ a + 1
unfolding saturating_add
saturating_add_lem a h = ground arith

-- `negsuc n` is -(n + 1).
pub data ℤ : Type 0 where
  pos : ℕ → ℤ
  negsuc : ℕ → ℤ

abbrev pub pos_part : ℤ → ℕ
pos_part (pos n) = n
pos_part (negsuc n) = 0

abbrev pub neg_part : ℤ → ℕ
neg_part (pos n) = 0
neg_part (negsuc n) = suc n

-- a - b, as an integer.
abbrev pub sub_ℕ : ℕ → ℕ → ℤ
sub_ℕ a b = if leb b a then pos (a - b) else negsuc (b - a - 1)

infixl 65 ◌-ℤ◌
unfoldable pub ◌-ℤ◌ : ℤ → ℤ → ℤ
a -ℤ b = sub_ℕ (pos_part a + neg_part b) (neg_part a + pos_part b)

abbrev pub ltb_ℤ : ℤ → ℤ → Bool
ltb_ℤ a b = ltb (pos_part a + neg_part b) (pos_part b + neg_part a)

abbrev pub leb_ℤ : ℤ → ℤ → Bool
leb_ℤ a b = leb (pos_part a + neg_part b) (pos_part b + neg_part a)

-- The `i64` that an integer of magnitude below 2 ^ 64 wraps to.
unfoldable pub wrap_i64 : ℤ → ℤ
wrap_i64 (pos n) = if ltb n (2 ^ 63) then pos n else sub_ℕ n (2 ^ 64)
wrap_i64 (negsuc n) = if ltb n (2 ^ 63) then negsuc n else sub_ℕ (2 ^ 64) (suc n)

unfoldable pub sub_i64 : ℤ → ℤ → ℤ
unfolding wrap_i64 ◌-ℤ◌
sub_i64 a b = wrap_i64 (a -ℤ b)

pub sub_i64-sub_ℕ : (a b : ℕ) → a < 2 ^ 63 → b < 2 ^ 63 → sub_i64 (pos a) (pos b) ≡ sub_ℕ a b
unfolding sub_i64 wrap_i64 ◌-ℤ◌
sub_i64-sub_ℕ a b p q = elim (Bool-cases (leb b a)) [
  | inl le ↦ rw (le, wrap_i64) (ground arith)
  | inr gt ↦ rw (gt, wrap_i64) (ground arith)
]

-- Where the difference is an `i64`, it is large enough exactly when the second time is early enough.
pub leb_ℤ-sub_i64 :
    (seconds time : ℕ) (t : ℤ)
    → time + neg_part t < 2 ^ 63
    → pos_part t < 2 ^ 63
    → leb_ℤ (pos seconds) (sub_i64 (pos time) t) ≡ leb_ℤ t (sub_ℕ time seconds)
unfolding sub_i64 wrap_i64 ◌-ℤ◌
leb_ℤ-sub_i64 seconds time (pos t) h k = rw (sub_i64-sub_ℕ time t (omega arith) k) (ground arith)
leb_ℤ-sub_i64 seconds time (negsuc t) h k = ground arith
