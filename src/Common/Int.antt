-- ===== src/Common/Int.antt =====
-- C's signed `int`, as far as the program needs one: return codes and an index that starts at -1.
use Prim.Native.Nat.{ℕ, zero, suc, ◌+◌, ◌-◌, ◌%◌}
use mathlib.Core.Bool.{Bool, true, false}
use t4p4s_ma.Common.Tests.{◌==◌, if◌then◌else◌}

-- `negsuc n` is -(n + 1).
pub data ℤ : Type 0 where
  pos : ℕ → ℤ
  negsuc : ℕ → ℤ

-- The test `x < 0`.
abbrev pub is_neg : ℤ → Bool
is_neg (pos n) = false
is_neg (negsuc n) = true

-- The test `x <= 0`.
abbrev pub le_zero : ℤ → Bool
le_zero (pos zero) = true
le_zero (pos (suc n)) = false
le_zero (negsuc n) = true

-- `(x + 1) % m`, with the remainder of C, which has the sign of its left operand.
abbrev pub next_mod : ℤ → ℕ → ℤ
next_mod (pos n) m = pos ((n + 1) % m)
next_mod (negsuc zero) m = pos 0
next_mod (negsuc (suc n)) m = if (n + 1) % m == 0 then pos 0 else negsuc ((n + 1) % m - 1)
