-- ===== src/Llring/Returns.antt =====
-- core/kmod/llring.h: what an enqueue returns.
use native.Mathlib.Nat.{le_refl}
use nfv.Base.{
  ap₂, ℕ, suc, ◌+◌, ◌-◌, ◌*◌, ◌^◌, ◌≤◌, ◌<◌, ◌≡◌, refl, ◌∙◌, bit_or, leb, lt→ltb, le→ltb, ◌==◌,
  arith, if◌then◌else◌, if_split, Memory,
}
use nfv.Base.Bits.{bit_or_fields, bit_or-zero, zero-bit_or}
use nfv.Base.Int.{ℤ, pos, neg}
use nfv.Base.Words.{u32}
use nfv.Llring.{
  Llring, QueueBehavior, fixed, variable, enqueue_result, free_entries, sp_commit, sp_full,
  sp_do_enqueue, err_nobuf, err_quot, quot_exceed,
}
use nfv.Llring.Contents.{slots_bounds}
use nfv.Llring.Enqueue.{free_entries_lem, mask_slots}
use nfv.Llring.Invariant.{stored, IsRing}

-- The answer when `m` objects have joined `before` others: a burst returns their number, with bit
-- 31 set if the ring then holds the watermark's number or more.
abbrev pub answer : QueueBehavior → (watermark before m : ℕ) → ℤ
answer fixed watermark before m = if leb watermark (before + m) then neg err_quot else pos 0
answer variable watermark before m = if leb watermark (before + m) then neg (2 ^ 31 - m) else pos m

-- The answer when there are fewer free cells than objects.
abbrev pub answer_full : QueueBehavior → (watermark before free : ℕ) → ℤ
answer_full fixed watermark before free = neg err_nobuf
answer_full variable watermark before free =
    if free == 0 then pos 0 else answer variable watermark before free

marked : (m : ℕ) → m < 2 ^ 31 → bit_or m quot_exceed ≡ m + 2 ^ 31
marked m h =
    ap₂ bit_or (fields m) (fields_mark 0)
    ∙ bit_or_fields 31 0 m 1 0 h (omega arith)
    ∙ omega (arith, bit_or-zero m, zero-bit_or 1)
  where
    fields : (m : ℕ) → m ≡ 0 * 2 ^ 31 + m
    fields m = omega arith

    fields_mark : (z : ℕ) → quot_exceed ≡ 1 * 2 ^ 31 + 0
    fields_mark z = refl

module _ {A : Type 0} {k : ℕ} (r : Llring A) (v : IsRing k r) where
  level :
      (m : ℕ)
      → m ≤ free_entries r
      → u32 (r.mask + 1 + 2 ^ 32 - free_entries r + m) ≡ suc (stored r + m)
  level m h = omega (arith, free_entries_lem r v, slots_bounds r v.sized, mask_slots r v)

  result-answer :
      (m : ℕ) (b : QueueBehavior)
      → m ≤ free_entries r
      → enqueue_result r (free_entries r) m b ≡ answer b r.watermark (stored r) m
  unfolding enqueue_result
  result-answer m fixed h = let z = level m h in ground arith
  result-answer m variable h =
      let z = level m h in
      let few : m < 2 ^ 31 =
        omega (arith, free_entries_lem r v, slots_bounds r v.sized, mask_slots r v) in
      ground (arith, marked m few)

  full-answer :
      (obj : Memory A) (b : QueueBehavior)
      → (sp_full r obj (free_entries r) b).0 ≡ answer_full b r.watermark (stored r) (free_entries r)
  unfolding sp_full sp_commit
  full-answer obj fixed = refl
  full-answer obj variable =
      if_split
        (λ (x : ℤ × Llring A). x.0 ≡ answer_full variable r.watermark (stored r) (free_entries r))
        (free_entries r == 0) (λ none. rw none)
        (λ some. rw some (result-answer (free_entries r) variable (le_refl _)))

  -- On a ring at rest, if the objects fit, a bulk enqueue returns 0 and a burst their number,
  -- unless the ring then holds at least the watermark: then the bulk enqueue returns
  -- -LLRING_ERR_QUOT and the burst the number with bit 31 set, as an int. If they do not fit, a
  -- bulk enqueue returns -LLRING_ERR_NOBUF, and a burst answers 0 on a full ring and otherwise for
  -- the objects that fit.
  pub sp_do_enqueue-answer :
      (obj : Memory A) (n : ℕ) (b : QueueBehavior)
      → (n ≤ free_entries r → (sp_do_enqueue r obj n b).0 ≡ answer b r.watermark (stored r) n)
        × (free_entries r < n
            → (sp_do_enqueue r obj n b).0 ≡ answer_full b r.watermark (stored r) (free_entries r))
  unfolding sp_do_enqueue sp_commit
  sp_do_enqueue-answer obj n b = (
    λ fits. rw (le→ltb _ _ fits) (result-answer n b fits),
    λ over. rw (lt→ltb _ _ over) (full-answer obj b),
  )
