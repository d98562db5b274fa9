-- ===== src/Base/Words.antt =====
-- Machine words: a value is a number below `2 ^ w`, and each operation wraps.
use mathlib.Core.Path.{◌≡◌, subst}
use native.Mathlib.Omega.{arith}
use native.Mathlib.Nat.{add-zero, add-suc, pow-suc, dvd_refl, dvd-mul_right_of_dvd, mod-mod_of_dvd}
use Prim.Native.Nat.{zero, suc, ◌∣◌, ◌≤◌, ℕ, ◌+◌, ◌-◌, ◌%◌, ◌^◌}

abbrev pub u32 : ℕ → ℕ
u32 n = n % 2 ^ 32

abbrev pub u64 : ℕ → ℕ
u64 n = n % 2 ^ 64

-- `a - b` on `uint32_t` and `uint64_t`, for `b` in range.
abbrev pub sub32 : ℕ → ℕ → ℕ
sub32 a b = (a + 2 ^ 32 - b) % 2 ^ 32

abbrev pub sub64 : ℕ → ℕ → ℕ
sub64 a b = (a + 2 ^ 64 - b) % 2 ^ 64

-- A power of two divides a larger one.
two-pow-dvd : (k d : ℕ) → 2 ^ k ∣ 2 ^ (k + d)
two-pow-dvd k zero = rw add-zero (dvd_refl (2 ^ k))
two-pow-dvd k (suc d) = rw (add-suc, pow-suc) (dvd-mul_right_of_dvd (2 ^ k) (two-pow-dvd k d) 2)

-- Wrapping to 32 bits does not change the low bits.
pub u32-mod : (k a : ℕ) → k ≤ 32 → u32 a % 2 ^ k ≡ a % 2 ^ k
u32-mod k a h =
    mod-mod_of_dvd (2 ^ k) a
      (subst (λ e. 2 ^ k ∣ 2 ^ e) {y = 32} (omega arith) (two-pow-dvd k (32 - k)))
