-- ===== src/PriorityQueue/Push.antt =====
-- core/utils/extended_priority_queue.h: a new element moves up to its place.
use nfv.Base.{
  ℕ, zero, suc, ◌-◌, ◌/◌, ◌≤◌, ◌<◌, ◌≡◌, ◌≢◌, ap, ap₂, ◌∙◌, subst, inl, inr, arith, Bool, true,
  false, Memory, if_split, Bool-cases, ◌==◌, ==→eq, ==→ne,
}
use nfv.PriorityQueue.{swap, sift_up}
use nfv.PriorityQueue.Heap.{
  IsChild, IsRanking, IsHeap, Permutes, same, swapped, swap_left, swap_right, swap_off,
}

-- A heap, except that the element at `node` may be too great for its place.
pub record IsHeapUpTo {ℓ} {T : Type ℓ} (cmp : T → T → Bool) (len node : ℕ) (v : Memory T)
    : Type 0 where
  pub others : (p i : ℕ) → IsChild p i → i < len → i ≢ node → cmp (v p) (v i) ≡ false
  pub below : (p i : ℕ) → IsChild p node → IsChild node i → i < len → cmp (v p) (v i) ≡ false

module _ {ℓ} {T : Type ℓ} (cmp : T → T → Bool) (ranking : IsRanking cmp) (len : ℕ) where
  -- One level: the element changes places with its parent.
  climb :
      (v : Memory T) (node p : ℕ)
      → IsHeapUpTo cmp len node v
      → IsChild p node
      → node < len
      → cmp (v p) (v node) ≡ true
      → IsHeapUpTo cmp len p (swap v p node)
  climb v node p h is low less =
      let more = ranking.one_way (v p) (v node) less in
      let at_p = swap_left v p node (omega arith) in
      let at_node = swap_right v p node in
      record {
        others = λ q i down near ne. elim (Bool-cases (i == node)) [
          | inl here ↦
              let e : i ≡ node = ==→eq i node here in
              let f : q ≡ p = omega arith in
              ap₂ cmp (ap (swap v p node) f ∙ at_p) (ap (swap v p node) e ∙ at_node) ∙ more
          | inr away ↦
              let off = swap_off v p node i ne (==→ne i node away) in
              elim (Bool-cases (q == p)) [
                | inl sibling ↦
                    let f : q ≡ p = ==→eq q p sibling in
                    ap₂ cmp (ap (swap v p node) f ∙ at_p) off
                    ∙ ranking.through (v node) (v p) (v i) more
                        (h.others p i (subst (λ q. IsChild q i) f down) near (==→ne i node away))
                | inr elsewhere ↦ elim (Bool-cases (q == node)) [
                  | inl under ↦
                      let f : q ≡ node = ==→eq q node under in
                      ap₂ cmp (ap (swap v p node) f ∙ at_node) off
                      ∙ h.below p i is (subst (λ q. IsChild q i) f down) near
                  | inr far ↦
                      ap₂ cmp (swap_off v p node q (==→ne q p elsewhere) (==→ne q node far)) off
                      ∙ h.others q i down near (==→ne i node away)
                ]
              ]
        ];
        below = λ q i up down near.
            let start = swap_off v p node q (omega arith) (omega arith) in
            let upper = h.others q p up (omega arith) (omega arith) in
            elim (Bool-cases (i == node)) [
              | inl here ↦ ap₂ cmp start (ap (swap v p node) (==→eq i node here) ∙ at_node) ∙ upper
              | inr away ↦
                  ap₂ cmp start (swap_off v p node i (omega arith) (==→ne i node away))
                  ∙ ranking.through (v q) (v p) (v i) upper
                      (h.others p i down near (==→ne i node away))
            ];
      }

  pub sift_up-IsHeap :
      (fuel node : ℕ) (v : Memory T)
      → node ≤ fuel
      → node < len
      → IsHeapUpTo cmp len node v
      → IsHeap cmp len (sift_up cmp fuel node v) × Permutes len v (sift_up cmp fuel node v)
  unfolding sift_up IsHeap
  sift_up-IsHeap zero node v enough low h =
      (λ p i down near. h.others p i down near (omega arith), same)
  sift_up-IsHeap (suc fuel) node v enough low h =
      let parent = (node - 1) / 2 in
      if_split (λ w. IsHeap cmp len w × Permutes len v w) (node == 0)
        (λ root. (λ p i down near. h.others p i down near (omega (arith, ==→eq node 0 root)), same))
        (λ inner.
          let ne : node ≢ 0 = ==→ne node 0 inner in
          let is : IsChild parent node = omega arith in
          if_split (λ w. IsHeap cmp len w × Permutes len v w) (cmp (v parent) (v node))
            (λ less.
              let (heap, perm) =
                sift_up-IsHeap fuel parent (swap v parent node) (omega arith) (omega arith)
                  (climb v node parent h is low less) in
              (heap, swapped parent node (omega arith) low perm))
            (λ done. (stays v node parent h is done, same)))
    where
      stays :
          (v : Memory T) (node parent : ℕ)
          → IsHeapUpTo cmp len node v
          → IsChild parent node
          → cmp (v parent) (v node) ≡ false
          → (p i : ℕ) → IsChild p i
          → i < len
          → cmp (v p) (v i) ≡ false
      stays v node parent h is done p i down near = elim (Bool-cases (i == node)) [
        | inl here ↦
            let e : i ≡ node = ==→eq i node here in
            let f : p ≡ parent = omega arith in ap₂ (λ a b. cmp (v a) (v b)) f e ∙ done
        | inr away ↦ h.others p i down near (==→ne i node away)
      ]
