-- ===== src/Base/Int.antt =====
-- Signed return values: `int` results with negative error codes.
use Prim.Native.Nat.{ℕ, zero, suc, ◌-◌, ◌^◌}
use mathlib.Core.Bool.{Bool, true, false}
use nfv.Base.Tests.{ltb, if◌then◌else◌}

-- `negsuc n` is -(n + 1).
pub data ℤ : Type 0 where
  pos : ℕ → ℤ
  negsuc : ℕ → ℤ

-- `-n`, as in `return -EINVAL`.
abbrev pub neg : ℕ → ℤ
neg zero = pos 0
neg (suc n) = negsuc n

-- `(int)x` for a 32-bit pattern `x`.
abbrev pub int32 : ℕ → ℤ
int32 x = if ltb x (2 ^ 31) then pos x else neg (2 ^ 32 - x)

-- An `int` as a condition: `if (ret)`.
abbrev pub failed : ℤ → Bool
failed (pos zero) = false
failed (pos (suc _)) = true
failed (negsuc _) = true
