-- ===== src/Base/Int.antt =====
-- C's `int` where it may be negative; `negsuc n` is -(n + 1).
use Prim.Native.Nat.{ℕ, ◌-◌, ◌%◌, ◌^◌}
use dictionary.Base.Tests.{ltb, if◌then◌else◌}
use mathlib.Core.Bool.{Bool, true}

pub data ℤ : Type 0 where
  pos : ℕ → ℤ
  negsuc : ℕ → ℤ

-- `n > z`
abbrev pub above : ℕ → ℤ → Bool
above n (pos m) = ltb m n
above n (negsuc m) = true

-- The conversion of an unsigned number to a 32-bit `int`
abbrev pub int_of : ℕ → ℤ
int_of n = let w = n % 2 ^ 32 in if ltb w (2 ^ 31) then pos w else negsuc (2 ^ 32 - 1 - w)
