-- ===== src/Common/Integers.antt =====
-- `int` as an integer over the native numbers; none of the program's values leaves 32 bits.
use Prim.Native.Nat.{ℕ, min, max}
use mathlib.Core.Bool.{Bool, true, false, ◌&&◌}
use hypertube.Common.Tests.{leb, nat_beq}

pub data ℤ : Type 0 where
  pos : ℕ → ℤ
  negsuc : ℕ → ℤ

-- `std::max(n, 0)`
abbrev pub at_least_zero : ℤ → ℤ
at_least_zero (pos n) = pos n
at_least_zero (negsuc n) = pos 0

-- `std::clamp(n, low, high)` for bounds that are not negative
abbrev pub clamp : ℕ → ℕ → ℤ → ℤ
clamp low high (pos n) = pos (max low (min n high))
clamp low high (negsuc n) = pos low

-- `low <= n && n <= high`
abbrev pub in_range : ℕ → ℕ → ℤ → Bool
in_range low high (pos n) = leb low n && leb n high
in_range low high (negsuc n) = false

abbrev pub is_negative : ℤ → Bool
is_negative (pos n) = false
is_negative (negsuc n) = true

-- `m == n`
abbrev pub int_beq : ℤ → ℤ → Bool
int_beq (pos m) (pos n) = nat_beq m n
int_beq (negsuc m) (negsuc n) = nat_beq m n
int_beq _ _ = false
