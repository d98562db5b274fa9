-- ===== src/Base/Bits.antt =====
-- Masks and disjoint fields of a word, as arithmetic, at every width.
use Prim.Native.Nat.{
  ℕ, zero, suc, ◌+◌, ◌-◌, ◌*◌, ◌/◌, ◌%◌, ◌^◌, ◌≤◌, ◌<◌, min, max, bit_and, bit_or, digits, bitwise,
  bit_and-bitwise, bit_or-bitwise,
}
use mathlib.Core.Path.{◌≡◌, refl, ap}
use mathlib.Core.WellFounded.{Acc, WellFounded, induction}
use native.Mathlib.Nat.{le_refl, pow-suc, one-le-pow}
use native.Mathlib.Omega.{arith}

Acc-lt : (bound n : ℕ) → n < bound → Acc ◌<◌ n
Acc-lt zero n h = absurd (omega arith)
Acc-lt (suc bound) n h = Acc.intro n (λ m below. Acc-lt bound m (omega arith))

pub nat_wf : WellFounded ◌<◌
nat_wf = record { apply = λ n. Acc-lt (suc n) n (le_refl _) }

module _ (only_right : ℕ → ℕ) (digit : ℕ → ℕ → ℕ) where
  -- Any fuel that is at least the left number gives the same digits.
  digits_any_fuel :
      (f g a b : ℕ) → a ≤ f → a ≤ g → digits only_right digit f a b ≡ digits only_right digit g a b
  digits_any_fuel zero zero a b p q = refl
  digits_any_fuel zero (suc g) zero b p q = refl
  digits_any_fuel zero (suc g) (suc a) b p q = absurd (omega arith)
  digits_any_fuel (suc f) zero zero b p q = refl
  digits_any_fuel (suc f) zero (suc a) b p q = absurd (omega arith)
  digits_any_fuel (suc f) (suc g) zero b p q = refl
  digits_any_fuel (suc f) (suc g) (suc a) b p q =
      rw (digits_any_fuel f g (suc a / 2) (b / 2) (omega arith) (omega arith))

  bitwise_low_digit :
      (a b : ℕ)
      → bitwise only_right digit (suc a) b
        ≡ bitwise only_right digit (suc a / 2) (b / 2) * 2 + digit (suc a % 2) (b % 2)
  bitwise_low_digit a b =
      omega (arith, digits_any_fuel a (suc a / 2) (suc a / 2) (b / 2) (omega arith) (le_refl _))

pub bit_and_halves : (a b : ℕ) → bit_and a b ≡ bit_and (a / 2) (b / 2) * 2 + min (a % 2) (b % 2)
bit_and_halves zero b = simp bit_and-bitwise (omega arith)
bit_and_halves (suc a) b = simp bit_and-bitwise (bitwise_low_digit (λ y. 0) min a b)

pub bit_or_halves : (a b : ℕ) → bit_or a b ≡ bit_or (a / 2) (b / 2) * 2 + max (a % 2) (b % 2)
bit_or_halves zero b = simp bit_or-bitwise (omega arith)
bit_or_halves (suc a) b = simp bit_or-bitwise (bitwise_low_digit (λ y. y) max a b)

pub bit_and-zero : (a : ℕ) → bit_and a 0 ≡ 0
bit_and-zero a = induction nat_wf a by_half
  where
    by_half : (n : ℕ) → ((m : ℕ) → m < n → bit_and m 0 ≡ 0) → bit_and n 0 ≡ 0
    by_half zero ih = refl
    by_half (suc n) ih = omega (arith, bit_and_halves (suc n) 0, ih (suc n / 2) (omega arith))

mul-pow-suc : (x k : ℕ) → x * 2 ^ suc k ≡ x * 2 ^ k * 2
mul-pow-suc x k = omega (arith, ap (λ (t : ℕ). x * t) (pow-suc 2 k))

bit_and_zero_fields : (l n : ℕ) → l ≡ 0 → bit_and l n ≡ 0
bit_and_zero_fields l n e = rw e (bit_and-bitwise 0 n)

one_width : (a b : ℕ) → b ≡ 0 → a * 2 ^ 0 + b ≡ a
one_width a b s = omega arith

-- Two fields of a word are masked apart.
pub bit_and_fields :
    (k h l m n : ℕ)
    → l < 2 ^ k
    → n < 2 ^ k
    → bit_and (h * 2 ^ k + l) (m * 2 ^ k + n) ≡ bit_and h m * 2 ^ k + bit_and l n
bit_and_fields zero h l m n p q =
    rw
      (
        one_width h l (omega arith),
        one_width m n (omega arith),
        bit_and_zero_fields l n (omega arith),
      )
      (omega arith)
bit_and_fields (suc k) h l m n p q = ground (
  arith,
  bit_and_halves (h * 2 ^ suc k + l) (m * 2 ^ suc k + n),
  bit_and_halves l n,
  mul-pow-suc h k,
  mul-pow-suc m k,
  mul-pow-suc (bit_and h m) k,
  pow-suc 2 k,
  bit_and_fields k h (l / 2) m (n / 2),
)

bit_and-low_mask_of_lt : (k a : ℕ) → a < 2 ^ k → bit_and a (2 ^ k - 1) ≡ a
bit_and-low_mask_of_lt zero a h = rw bit_and-zero (omega arith)
bit_and-low_mask_of_lt (suc k) a h = ground (
  arith,
  bit_and_halves a (2 ^ suc k - 1),
  pow-suc 2 k,
  one-le-pow k 2,
  bit_and-low_mask_of_lt k (a / 2),
)

-- `x & (2^k - 1)` is the remainder by `2^k`.
pub bit_and-low_mask : (k a : ℕ) → bit_and a (2 ^ k - 1) ≡ a % 2 ^ k
bit_and-low_mask k a = ground (
  arith,
  one-le-pow k 2,
  bit_and_fields k (a / 2 ^ k) (a % 2 ^ k) 0 (2 ^ k - 1),
  bit_and-zero (a / 2 ^ k),
  bit_and-low_mask_of_lt k (a % 2 ^ k),
)

pub bit_or-zero : (a : ℕ) → bit_or a 0 ≡ a
bit_or-zero a = induction nat_wf a by_half
  where
    by_half : (n : ℕ) → ((m : ℕ) → m < n → bit_or m 0 ≡ m) → bit_or n 0 ≡ n
    by_half zero ih = refl
    by_half (suc n) ih = omega (arith, bit_or_halves (suc n) 0, ih (suc n / 2) (omega arith))

pub zero-bit_or : (b : ℕ) → bit_or 0 b ≡ b
zero-bit_or b = bit_or-bitwise 0 b

-- Two fields of a word are joined apart.
pub bit_or_fields :
    (k h l m n : ℕ)
    → l < 2 ^ k
    → n < 2 ^ k
    → bit_or (h * 2 ^ k + l) (m * 2 ^ k + n) ≡ bit_or h m * 2 ^ k + bit_or l n
bit_or_fields zero h l m n p q =
    let none : l ≡ 0 = omega arith in
    rw (one_width h l none, one_width m n (omega arith))
      (omega (arith, ap (λ (t : ℕ). bit_or t n) none, zero-bit_or n))
bit_or_fields (suc k) h l m n p q = ground (
  arith,
  bit_or_halves (h * 2 ^ suc k + l) (m * 2 ^ suc k + n),
  bit_or_halves l n,
  mul-pow-suc h k,
  mul-pow-suc m k,
  mul-pow-suc (bit_or h m) k,
  pow-suc 2 k,
  bit_or_fields k h (l / 2) m (n / 2),
)
