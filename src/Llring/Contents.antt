-- ===== src/Llring/Contents.antt =====
-- core/kmod/llring.h: where the objects of a ring stand, and what the copies do to them there.
use native.Mathlib.Nat.{one-le-pow, pow-le-pow_right}
use nfv.Base.{
  ℕ, ◌+◌, ◌-◌, ◌%◌, ◌^◌, ◌≤◌, ◌<◌, ◌≡◌, ap, ◌∙◌, ◌⊎◌, inl, inr, true, false, bit_and, arith, ltb,
  ltb→lt, ltb→le, if_split, Memory,
}
use nfv.Base.Bits.{bit_and-low_mask}
use nfv.Base.Words.{u32}
use nfv.Llring.{Llring, copy, enqueue_ptrs, dequeue_ptrs}
use nfv.Llring.Copy.{copy_inside, copy_outside, copy_straight_lem}

-- The size that `llring_init` sees to: a power of two, here below 2^32.
pub record IsSized {A : Type 0} (k : ℕ) (r : Llring A) : Type 0 where
  pub small : k ≤ 31
  pub slots : r.slots ≡ 2 ^ k
  pub mask : r.mask ≡ r.slots - 1

-- The `d`-th cell from `idx` on is `x`.
abbrev pub IsCell : ℕ → ℕ → ℕ → ℕ → Type 0
IsCell slots idx d x = (x < slots) × ((idx + d ≡ x) ⊎ (idx + d ≡ x + slots))

module _ {A : Type 0} {k : ℕ} (r : Llring A) (sized : IsSized k r) where
  pub slots_bounds : (0 < r.slots) × (r.slots ≤ 2 ^ 31)
  slots_bounds =
      let low : 1 ≤ 2 ^ k = one-le-pow k 2 (omega arith) in
      let high : 2 ^ k ≤ 2 ^ 31 = pow-le-pow_right {n = 2} (omega arith) sized.small in omega arith

  -- `x & mask`
  pub masked : (x : ℕ) → bit_and x r.mask ≡ x % r.slots
  masked x = rw (sized.mask, sized.slots) (bit_and-low_mask k x)

  idx_lt : (h : ℕ) → h % r.slots < r.slots
  idx_lt h = let b = slots_bounds in omega arith

  module _ (h n : ℕ) (fits : n ≤ r.slots) where
    straight_fits : ltb (u32 (h % r.slots + n)) r.slots ≡ true → h % r.slots + n < r.slots
    straight_fits t = let b = slots_bounds in omega (arith, idx_lt h, ltb→lt _ _ t)

    wraps_over : ltb (u32 (h % r.slots + n)) r.slots ≡ false → r.slots ≤ h % r.slots + n
    wraps_over t = let b = slots_bounds in omega (arith, idx_lt h, ltb→le _ _ t)

    short : n < 2 ^ 32
    short = let b = slots_bounds in omega arith

  module _ (obj : Memory A) (h n : ℕ) (fits : n ≤ r.slots) (d x : ℕ)
      (cell : IsCell r.slots (h % r.slots) d x) where
    -- The cells from the head on take the objects.
    pub enqueue_ptrs_new : d < n → enqueue_ptrs r obj h n x ≡ obj d
    unfolding enqueue_ptrs
    enqueue_ptrs_new new =
        let s = r.slots in
        let idx = h % r.slots in
        let below = idx_lt h in
        let inner = copy (s - idx) obj 0 r.ring idx in
        rw (masked h) (
          if_split (λ (m : Memory A). m x ≡ obj d) (ltb (u32 (idx + n)) s)
            (λ straight.
              let room = straight_fits h n fits straight in
              ap (λ m. m x) (copy_straight_lem n obj 0 r.ring idx (short h n fits))
              ∙ copy_inside n obj 0 r.ring idx x (omega arith) (omega arith)
              ∙ ap obj (omega arith))
            (λ wraps.
              let over = wraps_over h n fits wraps in
              elim (cell.1) [
                | inl ahead ↦
                    copy_outside (n - (s - idx)) obj (s - idx) inner 0 x (omega arith)
                    ∙ copy_inside (s - idx) obj 0 r.ring idx x (omega arith) (omega arith)
                    ∙ ap obj (omega arith)
                | inr around ↦
                    copy_inside (n - (s - idx)) obj (s - idx) inner 0 x (omega arith) (omega arith)
                    ∙ ap obj (omega arith)
              ]))

    -- The other cells keep what they hold.
    pub enqueue_ptrs_old : n ≤ d → d < r.slots → enqueue_ptrs r obj h n x ≡ r.ring x
    unfolding enqueue_ptrs
    enqueue_ptrs_old old near =
        let s = r.slots in
        let idx = h % r.slots in
        let below = idx_lt h in
        let inner = copy (s - idx) obj 0 r.ring idx in
        rw (masked h) (
          if_split (λ (m : Memory A). m x ≡ r.ring x) (ltb (u32 (idx + n)) s)
            (λ straight.
              let room = straight_fits h n fits straight in
              ap (λ m. m x) (copy_straight_lem n obj 0 r.ring idx (short h n fits))
              ∙ copy_outside n obj 0 r.ring idx x (omega arith))
            (λ wraps.
              let over = wraps_over h n fits wraps in
              copy_outside (n - (s - idx)) obj (s - idx) inner 0 x (omega arith)
              ∙ copy_outside (s - idx) obj 0 r.ring idx x (omega arith)))

    -- `obj_table` takes the cells from the head on, in order.
    pub dequeue_ptrs_taken : d < n → dequeue_ptrs r obj h n d ≡ r.ring x
    unfolding dequeue_ptrs
    dequeue_ptrs_taken taken =
        let s = r.slots in
        let idx = h % r.slots in
        let below = idx_lt h in
        let inner = copy (s - idx) r.ring idx obj 0 in
        rw (masked h) (
          if_split (λ (m : Memory A). m d ≡ r.ring x) (ltb (u32 (idx + n)) s)
            (λ straight.
              let room = straight_fits h n fits straight in
              ap (λ m. m d) (copy_straight_lem n r.ring idx obj 0 (short h n fits))
              ∙ copy_inside n r.ring idx obj 0 d (omega arith) (omega arith)
              ∙ ap r.ring (omega arith))
            (λ wraps.
              let over = wraps_over h n fits wraps in
              elim (cell.1) [
                | inl ahead ↦
                    copy_outside (n - (s - idx)) r.ring 0 inner (s - idx) d (omega arith)
                    ∙ copy_inside (s - idx) r.ring idx obj 0 d (omega arith) (omega arith)
                    ∙ ap r.ring (omega arith)
                | inr around ↦
                    copy_inside (n - (s - idx)) r.ring 0 inner (s - idx) d (omega arith)
                      (omega arith)
                    ∙ ap r.ring (omega arith)
              ]))
