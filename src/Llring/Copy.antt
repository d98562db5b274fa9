-- ===== src/Llring/Copy.antt =====
-- core/kmod/llring.h: the unrolled copies of LLRING_ENQUEUE_PTRS and LLRING_DEQUEUE_PTRS move the
-- same cells as the plain loop, with or without wrap-around.
use native.Mathlib.Decide.{ℕ_discrete}
use native.Mathlib.Nat.{add_assoc}
use nfv.Base.{
  ◌⊎◌, ==_self, ℕ, zero, suc, ◌+◌, ◌-◌, ◌*◌, ◌/◌, ◌%◌, ◌^◌, ◌≤◌, ◌<◌, ◌≡◌, refl, ap, ◌∙◌, bit_and,
  arith, Memory, update,
}
use nfv.Base.Bits.{bit_and_fields, bit_and-low_mask, bit_and-zero}
use nfv.Llring.{copy, copy_quads, copy_straight}

-- `n & ~3` and `n & 3` split `n`.
quads_and_rest : (n : ℕ) → n < 2 ^ 32 → 4 * (bit_and n (2 ^ 32 - 4) / 4) + bit_and n 3 ≡ n
quads_and_rest n h = omega (
  arith,
  ap (λ (t : ℕ). bit_and t (2 ^ 32 - 4)) (split n),
  bit_and_fields 2 (n / 4) (n % 4) (2 ^ 30 - 1) 0 (omega arith) (omega arith),
  bit_and-low_mask 30 (n / 4),
  bit_and-zero (n % 4),
  bit_and-low_mask 2 n,
)
  where
    split : (m : ℕ) → m ≡ m / 4 * 2 ^ 2 + m % 4
    split m = omega arith

module _ {A : Type 0} where
  -- The cells `j`, ..., `j + n - 1` hold the source's from `i` on, and the others what they held.
  pub copy_outside :
      (n : ℕ) (src : Memory A) (i : ℕ) (dst : Memory A) (j x : ℕ)
      → ((x < j) ⊎ (j + n ≤ x))
      → copy n src i dst j x ≡ dst x
  unfolding copy
  copy_outside zero src i dst j x h = refl
  copy_outside (suc n) src i dst j x h =
      copy_outside n src (i + 1) (update dst j (src i)) (j + 1) x (omega arith) ∙ ground arith

  pub copy_inside :
      (n : ℕ) (src : Memory A) (i : ℕ) (dst : Memory A) (j x : ℕ)
      → j ≤ x
      → x < j + n
      → copy n src i dst j x ≡ src (i + (x - j))
  unfolding copy
  copy_inside zero src i dst j x p q = absurd (omega arith)
  copy_inside (suc n) src i dst j x p q = elim (ℕ_discrete x j) [
    | yes e ↦
        copy_outside n src (i + 1) (update dst j (src i)) (j + 1) x (omega arith) ∙ first_cell e
    | no ne ↦
        copy_inside n src (i + 1) (update dst j (src i)) (j + 1) x (omega arith) (omega arith)
        ∙ ap src (omega arith)
  ]
    where
      first_cell : x ≡ j → update dst j (src i) x ≡ src (i + (x - j))
      first_cell e = rw (e, ==_self j) (ap src (omega arith))

  copy_congr :
      (m n : ℕ) (src : Memory A) (i i' : ℕ) (dst : Memory A) (j j' : ℕ)
      → m ≡ n
      → i ≡ i'
      → j ≡ j'
      → copy m src i dst j ≡ copy n src i' dst j'
  copy_congr m n src i i' dst j j' p q r = cc

  copy_four :
      (n : ℕ) (src : Memory A) (i : ℕ) (dst : Memory A) (j : ℕ)
      → copy n src
          (i + 4)
          (update
            (update (update (update dst j (src i)) (j + 1) (src (i + 1))) (j + 2) (src (i + 2)))
            (j + 3)
            (src (i + 3)))
          (j + 4)
        ≡ copy (suc (suc (suc (suc n)))) src i dst j
  unfolding copy
  copy_four n src i dst j = simp add_assoc

  copy-quads :
      (q n : ℕ) (src : Memory A) (i : ℕ) (dst : Memory A) (j : ℕ)
      → copy n src (i + 4 * q) (copy_quads q src i dst j) (j + 4 * q) ≡ copy (4 * q + n) src i dst j
  unfolding copy_quads
  copy-quads zero n src i dst j =
      copy_congr _ _ src _ _ dst _ _ (omega arith) (omega arith) (omega arith)
  copy-quads (suc q) n src i dst j =
      copy_congr n n src _ (i + 4 + 4 * q) _ _ (j + 4 + 4 * q) refl (omega arith) (omega arith)
      ∙ copy-quads q n src (i + 4) _ (j + 4)
      ∙ copy_four (4 * q + n) src i dst j
      ∙ copy_congr (suc (suc (suc (suc (4 * q + n))))) (4 * suc q + n) src i i dst j j (omega arith)
          refl refl

  -- Copying in fours is copying one by one.
  pub copy_straight_lem :
      (n : ℕ) (src : Memory A) (i : ℕ) (dst : Memory A) (j : ℕ)
      → n < 2 ^ 32
      → copy_straight n src i dst j ≡ copy n src i dst j
  unfolding copy_straight
  copy_straight_lem n src i dst j h =
      copy-quads (bit_and n (2 ^ 32 - 4) / 4) (bit_and n 3) src i dst j
      ∙ ap (λ m. copy m src i dst j) (quads_and_rest n h)
