-- ===== src/Common/Ints.antt =====
-- Signed 64-bit integers (Go's int, int64 and time.Duration) and instants of time.
-- An instant is the number of nanoseconds since Go's zero time, so 0 is the time that IsZero tests.
use Prim.Native.Nat.{ℕ, suc, ◌+◌, ◌-◌, ◌*◌, ◌%◌, ◌^◌, ◌≤◌, ◌<◌}
use mathlib.Core.Path.{◌≡◌}
use mathlib.Core.Bool.{Bool}
use native.Mathlib.Omega.{arith}
use server_cli.Common.Tests.{ltb, leb, if◌then◌else◌}

-- `negsuc n` is -(n + 1).
pub data ℤ : Type 0 where
  pos : ℕ → ℤ
  negsuc : ℕ → ℤ

abbrev pub pos_part : ℤ → ℕ
pos_part (pos n) = n
pos_part (negsuc n) = 0

abbrev pub neg_part : ℤ → ℕ
neg_part (pos n) = 0
neg_part (negsuc n) = suc n

-- a - b, as an integer.
abbrev pub sub_ℕ : ℕ → ℕ → ℤ
sub_ℕ a b = if leb b a then pos (a - b) else negsuc (b - a - 1)

infix 50 ◌≤ℤ◌ ◌<ℤ◌
abbrev pub ◌≤ℤ◌ : ℤ → ℤ → Type 0
a ≤ℤ b = pos_part a + neg_part b ≤ pos_part b + neg_part a

abbrev pub ◌<ℤ◌ : ℤ → ℤ → Type 0
a <ℤ b = pos_part a + neg_part b < pos_part b + neg_part a

abbrev pub ltb_ℤ : ℤ → ℤ → Bool
ltb_ℤ a b = ltb (pos_part a + neg_part b) (pos_part b + neg_part a)

-- a <= 0.
abbrev pub nonpos : ℤ → Bool
nonpos a = leb (pos_part a) 0

-- The value of 64 bits, read in two's complement.
signed : ℕ → ℤ
signed m = if ltb m (2 ^ 63) then pos m else negsuc (2 ^ 64 - 1 - m)

-- The wrap-around of 64-bit arithmetic.
unfoldable pub int64 : ℤ → ℤ
unfolding signed
int64 (pos n) = signed (n % 2 ^ 64)
int64 (negsuc n) = signed (2 ^ 64 - 1 - n % 2 ^ 64)

-- k * a for a numeral k.
abbrev pub scale : ℕ → ℤ → ℤ
scale k a = sub_ℕ (k * pos_part a) (k * neg_part a)

unfoldable pub add_int64 : ℤ → ℤ → ℤ
unfolding int64
add_int64 a b = int64 (sub_ℕ (pos_part a + pos_part b) (neg_part a + neg_part b))

-- time.Duration(a) * time.Second and time.Duration(a) * time.Hour.
unfoldable pub seconds : ℤ → ℤ
unfolding int64
seconds a = int64 (scale 1_000_000_000 a)

unfoldable pub hours : ℤ → ℤ
unfolding int64
hours a = int64 (scale 3_600_000_000_000 a)

-- t.Add(d). An instant before the zero time is read as the zero time.
abbrev pub add_time : ℕ → ℤ → ℕ
add_time t d = t + pos_part d - neg_part d

-- A value within the range is not wrapped.
pub int64_in_range : (a : ℤ) → pos_part a < 2 ^ 63 → neg_part a ≤ 2 ^ 63 → int64 a ≡ a
unfolding int64
int64_in_range (pos n) h k = ground arith
int64_in_range (negsuc n) h k = ground arith

-- 9223372036 seconds are the most that a duration holds.
pub seconds_in_range : (n : ℕ) → n ≤ 9_223_372_036 → seconds (pos n) ≡ pos (1_000_000_000 * n)
unfolding seconds
seconds_in_range n h = ground arith

-- 2562047 hours are the most that a duration holds.
pub hours_in_range : (n : ℕ) → n ≤ 2_562_047 → hours (pos n) ≡ pos (3_600_000_000_000 * n)
unfolding hours
hours_in_range n h = ground arith

pub add_int64_in_range :
    (a b : ℤ)
    → pos_part a + pos_part b < 2 ^ 63
    → neg_part a + neg_part b ≤ 2 ^ 63
    → add_int64 a b ≡ sub_ℕ (pos_part a + pos_part b) (neg_part a + neg_part b)
unfolding add_int64
add_int64_in_range a b h k = ground arith
