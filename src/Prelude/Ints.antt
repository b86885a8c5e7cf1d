-- ===== src/Prelude/Ints.antt =====
-- Signed integers over the native numbers, and Go's 64-bit wrap-around.
use Prim.Native.Nat.{ℕ, suc, ◌-◌, ◌*◌, ◌%◌, ◌^◌, ◌≤◌, ◌<◌}
use mathlib.Core.Path.{◌≡◌}
use mathlib.Core.Bool.{Bool, true, false}
use native.Mathlib.Omega.{arith}
use flow_proxy.Prelude.Tests.{ltb, if◌then◌else◌}

-- `negsuc n` is -(n + 1).
pub data ℤ : Type 0 where
  pos : ℕ → ℤ
  negsuc : ℕ → ℤ

-- The integer that a 64-bit pattern stands for.
unfoldable pub of_bits : ℕ → ℤ
of_bits r = if ltb r (2 ^ 63) then pos r else negsuc (2 ^ 64 - 1 - r)

-- The value of an int64 computation whose exact result is the argument.
unfoldable pub wrap64 : ℤ → ℤ
unfolding of_bits
wrap64 (pos n) = of_bits (n % 2 ^ 64)
wrap64 (negsuc n) = of_bits (2 ^ 64 - 1 - n % 2 ^ 64)

-- An integer times a positive constant.
abbrev pub scale : ℕ → ℤ → ℤ
scale k (pos n) = pos (n * k)
scale k (negsuc n) = negsuc (suc n * k - 1)

-- `if v <= 0 { v = d }`: the value of a configured integer that must be positive.
unfoldable pub positive_or : ℕ → ℤ → ℕ
positive_or d (pos n) = if ltb 0 n then n else d
positive_or d (negsuc n) = d

abbrev pub is_positive : ℤ → Bool
is_positive (pos n) = ltb 0 n
is_positive (negsuc n) = false

abbrev pub is_negative : ℤ → Bool
is_negative (pos n) = false
is_negative (negsuc n) = true

-- max(v, 0)
abbrev pub nonneg : ℤ → ℕ
nonneg (pos n) = n
nonneg (negsuc n) = 0

pub positive_or_pos : (d : ℕ) (z : ℤ) → 0 < d → 0 < positive_or d z
unfolding positive_or
positive_or_pos d (pos n) h = ground arith
positive_or_pos d (negsuc n) h = h

-- Nanoseconds.
abbrev pub millisecond : ℕ
millisecond = 1_000_000

abbrev pub second : ℕ
second = 1_000_000_000

abbrev pub minute : ℕ
minute = 60_000_000_000

-- Wrapping never makes a number larger, and keeps the int64 range.
pub wrap64-nonneg-le : (n : ℕ) → nonneg (wrap64 (pos n)) ≤ n
unfolding wrap64
wrap64-nonneg-le n = ground arith

pub wrap64_of_lt : (n : ℕ) → n < 2 ^ 63 → wrap64 (pos n) ≡ pos n
unfolding wrap64
wrap64_of_lt n h = ground arith
