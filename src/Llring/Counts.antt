-- ===== src/Llring/Counts.antt =====
-- core/kmod/llring.h: the initial state and the tests of a ring at rest.
use nfv.Base.{
  ℕ, ◌+◌, ◌-◌, ◌%◌, ◌^◌, ◌≤◌, ◌<◌, ◌≡◌, refl, sym, ap, ◌∙◌, ◌↔◌, Bool, true, bit_and, subst, ◌==◌,
  ==→eq, ==→ne, eq→==, if_split, arith, [], length, length-tabulate,
}
use native.Mathlib.Nat.{one-le-pow, pow-le-pow_right, mod-eq_of_lt, mod_self, add-mod_right}
use nfv.Base.Bits.{bit_and-low_mask}
use nfv.Base.Int.{ℤ, pos}
use nfv.Base.Words.{u32, sub32, u32-mod}
use nfv.Llring.{Llring, init, full, empty, count, free_count, free_entries}
use nfv.Llring.Contents.{slots_bounds, masked}
use nfv.Llring.Enqueue.{free_entries_lem, mask_slots}
use nfv.Llring.Invariant.{stored, IsRing, contents}

module _ {A : Type 0} where
  -- llring_init with 2^k slots, k at most 31, returns 0 and gives an empty ring at rest, whatever
  -- the memory held.
  pub init-IsRing :
      (null : A) (k : ℕ) (sp sc : Bool) (r : Llring A)
      → k ≤ 31
      → let (ret, r') = init null (2 ^ k) sp sc r in
        (ret ≡ pos 0) × IsRing k r' × (contents r' ≡ [])
  unfolding init contents
  init-IsRing null k sp sc r h =
      let low : 1 ≤ 2 ^ k = one-le-pow k 2 (omega arith) in
      let high : 2 ^ k ≤ 2 ^ 31 = pow-le-pow_right {n = 2} (omega arith) h in
      let mask : sub32 (2 ^ k) 1 ≡ 2 ^ k - 1 = omega arith in
      let power : bit_and (2 ^ k) (sub32 (2 ^ k) 1) ≡ 0 =
        ap (bit_and (2 ^ k)) mask ∙ bit_and-low_mask k (2 ^ k) ∙ mod_self (2 ^ k) in
      if_split (λ (x : ℤ × Llring A). (x.0 ≡ pos 0) × IsRing k x.1 × (contents x.1 ≡ []))
        (bit_and (2 ^ k) (sub32 (2 ^ k) 1) == 0)
        (λ _. (
          refl,
          record {
            sized = record { small = h; slots = refl; mask = mask };
            prod_rests = refl;
            cons_rests = refl;
            prod_word = omega arith;
            cons_word = omega arith;
            room = omega arith;
          },
          refl,
        ))
        (λ other. absurd (==→ne _ _ other power))

module _ {A : Type 0} {k : ℕ} (r : Llring A) (v : IsRing k r) where
  masked_small : (x : ℕ) → x < r.slots → bit_and x r.mask ≡ x
  masked_small x h = masked r v.sized x ∙ mod-eq_of_lt h

  count-stored : count r ≡ stored r
  unfolding count
  count-stored = masked_small (stored r) (omega (arith, v.room, mask_slots r v))

  -- The producer's distance to the consumer, less one, in 32 bits.
  distance-free : u32 (sub32 r.cons_tail r.prod_tail + (2 ^ 32 - 1)) % r.slots ≡ free_entries r
  distance-free =
      let s = r.slots in
      let x : ℕ = u32 (sub32 r.cons_tail r.prod_tail + (2 ^ 32 - 1)) in
      let b = slots_bounds r v.sized in
      let few = free_entries_lem r v in
      let size = mask_slots r v in
      let around : x + s ≡ free_entries r + 2 ^ 32 =
        omega (arith, v.prod_word, v.cons_word, v.room) in
      let wraps : u32 (x + s) ≡ free_entries r = omega arith in
      sym (add-mod_right x s)
      ∙ sym (
          subst (λ t. u32 (x + s) % t ≡ (x + s) % t) (sym v.sized.slots)
            (u32-mod k (x + s) (omega (arith, v.sized.small))))
      ∙ ap (λ t. t % s) wraps
      ∙ mod-eq_of_lt (omega arith)

  free_count-free : free_count r ≡ free_entries r
  unfolding free_count
  free_count-free = masked r v.sized _ ∙ distance-free

  pub length-contents : length (contents r) ≡ stored r
  unfolding contents
  length-contents = length-tabulate (stored r) _

  -- On a ring at rest llring_count is the length of the queue, and with llring_free_count makes up
  -- `mask`; llring_free_count is the number of free entries that an enqueue computes.
  pub counts_lem :
      (count r ≡ length (contents r))
      × (count r + free_count r ≡ r.mask)
      × (free_count r ≡ free_entries r)
  counts_lem = (
    count-stored ∙ sym length-contents,
    omega (arith, count-stored, free_count-free, free_entries_lem r v),
    free_count-free,
  )

  -- On a ring at rest llring_empty holds exactly if the queue is empty, and llring_full exactly if
  -- the queue has `mask` objects.
  pub empty_full_lem :
      ((empty r ≡ true) ↔ (length (contents r) ≡ 0))
      × ((full r ≡ true) ↔ (length (contents r) ≡ r.mask))
  unfolding empty full
  empty_full_lem =
      let held = length-contents in
      let free = free_entries_lem r v in
      let gap = masked r v.sized _ ∙ distance-free in
      (
        (λ e. omega (arith, ==→eq _ _ e), λ e. eq→== _ _ (omega (arith, v.prod_word, v.cons_word))),
        (λ e. omega (arith, ==→eq _ _ e), λ e. eq→== _ _ (omega arith)),
      )
