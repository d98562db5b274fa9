-- ===== src/PriorityQueue/Top.antt =====
-- core/utils/extended_priority_queue.h: the top of a heap, and what becomes of it when its key changes.
use nfv.Base.{
  ℕ, zero, suc, ◌-◌, ◌/◌, ◌≤◌, ◌<◌, ◌≡◌, ◌≢◌, ap, ap₂, ◌∙◌, inl, inr, arith, Bool, false, Memory,
  update, update_off, Bool-cases, ◌==◌, ==→eq, ==→ne,
}
use nfv.PriorityQueue.{decrease_key_top}
use nfv.PriorityQueue.Heap.{
  IsRanking, IsHeap, IsHeapFrom, IsHeapBut, Permutes, sift_down-IsHeapFrom,
}

module _ {ℓ} {T : Type ℓ} (cmp : T → T → Bool) (ranking : IsRanking cmp) (len : ℕ) where
  irreflexive : (a : T) → cmp a a ≡ false
  irreflexive a = elim (Bool-cases (cmp a a)) [
    | inl yes_less ↦ ranking.one_way a a yes_less
    | inr not_less ↦ not_less
  ]

  -- The top of a heap is not less than any element.
  pub top_largest :
      (fuel i : ℕ) (v : Memory T) → i ≤ fuel → IsHeap cmp len v → i < len → cmp (v 0) (v i) ≡ false
  unfolding IsHeap
  top_largest zero i v near h low =
      let e : i ≡ 0 = omega arith in ap (λ x. cmp (v 0) (v x)) e ∙ irreflexive (v 0)
  top_largest (suc fuel) i v near h low = elim (Bool-cases (i == 0)) [
    | inl at ↦ ap (λ x. cmp (v 0) (v x)) (==→eq i 0 at) ∙ irreflexive (v 0)
    | inr inner ↦
        let ne : i ≢ 0 = ==→ne i 0 inner in
        let p = (i - 1) / 2 in
        ranking.through (v 0) (v p) (v i) (top_largest fuel p v (omega arith) h (omega arith))
          (h p i (omega arith) low)
  ]

  changed_top : (v : Memory T) (x : T) → IsHeap cmp len v → IsHeapBut cmp 0 len 0 (update v 0 x)
  unfolding IsHeap
  changed_top v x h = record {
    others = λ p i high down low ne.
        ap₂ cmp (update_off v 0 x p ne) (update_off v 0 x i (omega arith)) ∙ h p i down low;
    above = λ p i high up down low. absurd (omega arith);
  }

  -- When the top element of a heap is replaced by any other, decrease_key_top gives a heap again
  -- that has the same elements, reached by swaps, and whose top is not less than any of them. The
  -- comparison ranks the elements: it holds at most one way round, and not being less is
  -- transitive.
  pub decrease_key_top-IsHeap :
      (v : Memory T) (x : T)
      → IsHeap cmp len v
      → IsHeap cmp len (decrease_key_top cmp len (update v 0 x))
        × Permutes len (update v 0 x) (decrease_key_top cmp len (update v 0 x))
        × ((i : ℕ)
            → i < len
            → cmp
                (decrease_key_top cmp len (update v 0 x) 0)
                (decrease_key_top cmp len (update v 0 x) i)
              ≡ false)
  unfolding decrease_key_top IsHeap IsHeapFrom
  decrease_key_top-IsHeap v x h =
      let (heap, perm) =
        sift_down-IsHeapFrom cmp ranking len len 0 0 (update v 0 x) (omega arith) (omega arith)
          (changed_top v x h) in
      let whole : IsHeap cmp len (decrease_key_top cmp len (update v 0 x)) =
        λ p i down low. heap p i (omega arith) down low in
      (whole, perm, λ i low. top_largest i i _ (omega arith) whole low)
