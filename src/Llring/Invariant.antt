-- ===== src/Llring/Invariant.antt =====
-- core/kmod/llring.h: a ring at rest, and the queue that it stands for.
use native.Mathlib.Nat.{mod-add-mod, mod-eq_of_lt, mod-eq-sub-mod, add_assoc}
use native.Mathlib.Decide.{dec_lt}
use nfv.Base.{
  ℕ, ◌+◌, ◌-◌, ◌%◌, ◌^◌, ◌≤◌, ◌<◌, ◌≡◌, sym, ap, subst, ◌∙◌, ◌⊎◌, inl, inr, arith, List, tabulate,
}
use nfv.Base.Words.{u32, sub32, u32-mod}
use nfv.Llring.{Llring}
use nfv.Llring.Contents.{IsSized, IsCell, slots_bounds}

-- The number of objects in the ring.
abbrev pub stored : {A : Type 0} → Llring A → ℕ
stored r = sub32 r.prod_tail r.cons_tail

-- No operation is under way, and at least one cell is free.
pub record IsRing {A : Type 0} (k : ℕ) (r : Llring A) : Type 0 where
  pub sized : IsSized k r
  pub prod_rests : r.prod_head ≡ r.prod_tail
  pub cons_rests : r.cons_head ≡ r.cons_tail
  pub prod_word : r.prod_tail < 2 ^ 32
  pub cons_word : r.cons_tail < 2 ^ 32
  pub room : stored r ≤ r.mask

-- The objects, oldest first.
unfoldable pub contents : {A : Type 0} → Llring A → List A
contents r = tabulate (stored r) (λ i. r.ring ((r.cons_tail + i) % r.slots))

-- The `d`-th cell from a free-running index.
pub IsCell-from : (s h d : ℕ) → 0 < s → d < s → IsCell s (h % s) d ((h + d) % s)
IsCell-from s h d pos near =
    let c : h % s < s = omega arith in
    let e : (h + d) % s ≡ (h % s + d) % s = sym (mod-add-mod h s d) in
    elim (dec_lt (h % s + d) s) [
      | yes below ↦ (omega arith, inl (sym (e ∙ mod-eq_of_lt below)))
      | no over ↦
          let f : (h % s + d) % s ≡ (h % s + d - s) % s =
            mod-eq-sub-mod {n = h % s + d} {m = s} (omega arith) in
          let g : (h % s + d - s) % s ≡ h % s + d - s =
            mod-eq_of_lt {n = h % s + d - s} {m = s} (omega arith) in
          (omega arith, inr (omega arith))
    ]

-- From a head that is `n` cells ahead of `c`, the cell `i < n` behind it is `s - n + i` on.
behind :
    (s c n i x p : ℕ)
    → n < s
    → i < n
    → x < s
    → p < s
    → c < s
    → ((c + i ≡ x) ⊎ (c + i ≡ x + s))
    → ((c + n ≡ p) ⊎ (c + n ≡ p + s))
    → (p + (s - n + i) ≡ x) ⊎ (p + (s - n + i) ≡ x + s)
behind s c n i x p few near hx hp hc here head = grind arith

-- Wrapping an index to 32 bits does not change the cells that follow it.
pub wrapped_index :
    {A : Type 0} {k : ℕ} (r : Llring A)
    → IsSized k r
    → (h m j : ℕ) → (u32 (h + m) + j) % r.slots ≡ (h + (m + j)) % r.slots
wrapped_index {k = k} r sized h m j =
    let s = r.slots in
    let f : u32 (h + m) % s ≡ (h + m) % s =
      subst (λ t. u32 (h + m) % t ≡ (h + m) % t) (sym sized.slots)
        (u32-mod k (h + m) (omega (arith, sized.small))) in
    sym (mod-add-mod (u32 (h + m)) s j)
    ∙ ap (λ t. (t + j) % s) f
    ∙ mod-add-mod (h + m) s j
    ∙ ap (λ t. t % s) (add_assoc h m j)

module _ {A : Type 0} {k : ℕ} (r : Llring A) (v : IsRing k r) where
  -- The producer's index is the consumer's and the number stored, up to wrap-around.
  pub prod_index : (j : ℕ) → (r.cons_tail + (stored r + j)) % r.slots ≡ (r.prod_head + j) % r.slots
  prod_index j =
      let e : u32 (r.cons_tail + stored r) ≡ r.prod_head =
        omega (arith, v.prod_rests, v.prod_word, v.cons_word) in
      sym (wrapped_index r v.sized r.cons_tail (stored r) j) ∙ ap (λ t. (t + j) % r.slots) e

  pub slots_pos : 0 < r.slots
  slots_pos = (slots_bounds r v.sized).0

  -- A stored object's cell, as seen from the producer's index.
  pub stored-IsCell :
      (i : ℕ)
      → i < stored r
      → IsCell r.slots
          (r.prod_head % r.slots)
          (r.slots - stored r + i)
          ((r.cons_tail + i) % r.slots)
  stored-IsCell i h =
      let s = r.slots in
      let few : stored r < s = omega (arith, v.room, v.sized.mask, slots_pos) in
      let here = IsCell-from s r.cons_tail i slots_pos (omega arith) in
      let head = IsCell-from s r.cons_tail (stored r) slots_pos few in
      let meets : (r.cons_tail + stored r) % s ≡ r.prod_head % s =
        ap (λ t. (r.cons_tail + t) % s) (omega arith)
        ∙ prod_index 0
        ∙ ap (λ t. t % s) (omega arith) in
      (
        here.0,
        behind s (r.cons_tail % s) (stored r) i ((r.cons_tail + i) % s) (r.prod_head % s) few h
            here.0 (omega arith) (omega arith) here.1 (omega (arith, meets, head.1)),
      )
