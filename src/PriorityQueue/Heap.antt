-- ===== src/PriorityQueue/Heap.antt =====
-- core/utils/extended_priority_queue.h: `decrease_key_top` puts the heap in order again.
use nfv.Base.{
  ℕ, zero, suc, ◌+◌, ◌*◌, ◌≤◌, ◌<◌, ◌≡◌, ◌≢◌, refl, ap, ap₂, ◌∙◌, subst, ◌⊎◌, inl, inr, arith, Bool,
  true, false, not, leb, Memory, update, update_at, update_off, if◌then◌else◌, if_split, Bool-cases,
  ◌==◌, ==→eq, ==→ne,
}
use nfv.PriorityQueue.{swap, larger_child, sift_down}

abbrev pub IsChild : ℕ → ℕ → Type 0
IsChild p i = (i ≡ 2 * p + 1) ⊎ (i ≡ 2 * p + 2)

-- What the queue asks of its comparison: "is less than" in some ranking.
pub record IsRanking {ℓ} {T : Type ℓ} (cmp : T → T → Bool) : Type ℓ where
  pub one_way : (a b : T) → cmp a b ≡ true → cmp b a ≡ false
  pub through : (a b c : T) → cmp a b ≡ false → cmp b c ≡ false → cmp a c ≡ false

-- No element is less than one of its children.
unfoldable pub IsHeap {ℓ} : {T : Type ℓ} → (T → T → Bool) → ℕ → Memory T → Type 0
IsHeap cmp len v = (p i : ℕ) → IsChild p i → i < len → cmp (v p) (v i) ≡ false

-- The same from the element at `lo` on
unfoldable pub IsHeapFrom {ℓ} : {T : Type ℓ} → (T → T → Bool) → ℕ → ℕ → Memory T → Type 0
IsHeapFrom cmp lo len v = (p i : ℕ) → lo ≤ p → IsChild p i → i < len → cmp (v p) (v i) ≡ false

-- and except for the element at `node`
pub record IsHeapBut {ℓ} {T : Type ℓ} (cmp : T → T → Bool) (lo len node : ℕ) (v : Memory T)
    : Type 0 where
  pub others : (p i : ℕ) → lo ≤ p → IsChild p i → i < len → p ≢ node → cmp (v p) (v i) ≡ false
  pub above :
      (p i : ℕ) → lo ≤ p → IsChild p node → IsChild node i → i < len → cmp (v p) (v i) ≡ false

-- `w` is `v` after swaps of elements below `len`.
pub data Permutes {ℓ} {T : Type ℓ} (len : ℕ) : (ℕ → T) → (ℕ → T) → Type ℓ where
  same : {v : ℕ → T} → Permutes len v v
  swapped :
      {v w : ℕ → T} (i j : ℕ) → i < len → j < len → Permutes len (swap v i j) w → Permutes len v w

module _ {ℓ} {T : Type ℓ} (v : Memory T) (i j : ℕ) where
  pub swap_left : i ≢ j → swap v i j i ≡ v j
  swap_left ne = update_off (update v i (v j)) j (v i) i ne ∙ update_at v i (v j)

  pub swap_right : swap v i j j ≡ v i
  swap_right = update_at (update v i (v j)) j (v i)

  pub swap_off : (k : ℕ) → k ≢ i → k ≢ j → swap v i j k ≡ v k
  swap_off k a b = update_off (update v i (v j)) j (v i) k b ∙ update_off v i (v j) k a

chosen : (len r : ℕ) (b : Bool) → r < len → (if leb len r then true else b) ≡ true → b ≡ true
chosen len r true lt e = refl
chosen len r false lt e = absurd (ground arith)

unchosen :
    (len r : ℕ) (b : Bool) → (if leb len r then true else b) ≡ false → (r < len) × (b ≡ false)
unchosen len r true e = absurd (ground arith)
unchosen len r false e = (ground arith, refl)

module _ {ℓ} {T : Type ℓ} (cmp : T → T → Bool) (ranking : IsRanking cmp) (len : ℕ) where
  -- The larger child is a child, and not less than the other one.
  larger_child_lem :
      (v : Memory T) (node : ℕ)
      → 2 * node + 1 < len
      → IsChild node (larger_child cmp len v node)
        × (larger_child cmp len v node < len)
        × ((i : ℕ)
            → IsChild node i
            → i < len
            → i ≢ larger_child cmp len v node
            → cmp (v (larger_child cmp len v node)) (v i) ≡ false)
  larger_child_lem v node room =
      if_split
        (λ c.
          IsChild node c
          × (c < len)
          × ((i : ℕ) → IsChild node i → i < len → i ≢ c → cmp (v c) (v i) ≡ false))
        (if leb len (2 * node + 2) then true else cmp (v (2 * node + 2)) (v (2 * node + 1)))
        (λ left. (
          inl refl,
          room,
          λ i is lt ne.
              let right : i ≡ 2 * node + 2 = omega arith in
              ap (λ x. cmp (v (2 * node + 1)) (v x)) right
              ∙ ranking.one_way (v (2 * node + 2)) (v (2 * node + 1)) (
                  chosen len (2 * node + 2) (cmp (v (2 * node + 2)) (v (2 * node + 1)))
                    (omega arith) left),
        ))
        (λ right.
          let (there, not_less) =
            unchosen len (2 * node + 2) (cmp (v (2 * node + 2)) (v (2 * node + 1))) right in
          (
            inr refl,
            there,
            λ i is lt ne.
                let left : i ≡ 2 * node + 1 = omega arith in
                ap (λ x. cmp (v (2 * node + 2)) (v x)) left ∙ not_less,
          ))

  -- One round: the larger child moves up, and its place is where the heap may be out of order.
  round :
      (v : Memory T) (lo node child : ℕ)
      → lo ≤ node
      → IsHeapBut cmp lo len node v
      → IsChild node child
      → child < len
      → ((i : ℕ) → IsChild node i → i < len → i ≢ child → cmp (v child) (v i) ≡ false)
      → cmp (v node) (v child) ≡ true
      → IsHeapBut cmp lo len child (swap v node child)
  round v lo node child from h is below largest less = record {
    others = λ p i high down low ne. elim (Bool-cases (p == node)) [
      | inl at ↦
          let here : p ≡ node = ==→eq p node at in
          elim (Bool-cases (i == child)) [
            | inl moved ↦
                let e : i ≡ child = ==→eq i child moved in
                ap₂ cmp (ap (swap v node child) here ∙ swap_left v node child (omega arith))
                  (ap (swap v node child) e ∙ swap_right v node child)
                ∙ ranking.one_way (v node) (v child) less
            | inr sibling ↦
                let apart : i ≢ child = ==→ne i child sibling in
                ap₂ cmp (ap (swap v node child) here ∙ swap_left v node child (omega arith))
                  (swap_off v node child i (omega arith) apart)
                ∙ largest i (subst (λ p. IsChild p i) here down) low apart
          ]
      | inr away ↦
          let off : p ≢ node = ==→ne p node away in
          elim (Bool-cases (i == node)) [
            | inl at ↦
                let e : i ≡ node = ==→eq i node at in
                ap₂ cmp (swap_off v node child p off ne)
                  (ap (swap v node child) e ∙ swap_left v node child (omega arith))
                ∙ h.above p child high (omega arith) is below
            | inr else_where ↦
                ap₂ cmp (swap_off v node child p off ne)
                  (swap_off v node child i (==→ne i node else_where) (omega arith))
                ∙ h.others p i high down low off
          ]
    ];
    above = λ p i high up down low.
        let e : p ≡ node = omega arith in
        ap₂ cmp (ap (swap v node child) e ∙ swap_left v node child (omega arith))
          (swap_off v node child i (omega arith) (omega arith))
        ∙ h.others child i (omega arith) down low (omega arith);
  }

  -- Without a round the heap is in order: there is no child, or the larger one is not larger.
  settled :
      (v : Memory T) (lo node : ℕ)
      → IsHeapBut cmp lo len node v
      → ((i : ℕ) → IsChild node i → i < len → cmp (v node) (v i) ≡ false)
      → IsHeapFrom cmp lo len v
  unfolding IsHeapFrom
  settled v lo node h here p i high down low = elim (Bool-cases (p == node)) [
    | inl at ↦
        let e : p ≡ node = ==→eq p node at in
        ap (λ x. cmp (v x) (v i)) e ∙ here i (subst (λ p. IsChild p i) e down) low
    | inr away ↦ h.others p i high down low (==→ne p node away)
  ]

  pub sift_down-IsHeapFrom :
      (fuel lo node : ℕ) (v : Memory T)
      → lo ≤ node
      → len ≤ fuel + node
      → IsHeapBut cmp lo len node v
      → IsHeapFrom cmp lo len (sift_down cmp fuel len node v)
        × Permutes len v (sift_down cmp fuel len node v)
  unfolding sift_down
  sift_down-IsHeapFrom zero lo node v from enough h =
      (settled v lo node h (λ i is low. absurd (omega arith)), same)
  sift_down-IsHeapFrom (suc fuel) lo node v from enough h =
      let child = larger_child cmp len v node in
      if_split (λ w. IsHeapFrom cmp lo len w × Permutes len v w) (leb len (2 * node + 1))
        (λ leaf.
          let end : len ≤ 2 * node + 1 = ground arith in
          (settled v lo node h (λ i is low. absurd (omega arith)), same))
        (λ inner.
          let room : 2 * node + 1 < len = ground arith in
          let (is, below, largest) = larger_child_lem v node room in
          if_split (λ w. IsHeapFrom cmp lo len w × Permutes len v w) (not (cmp (v node) (v child)))
            (λ stop.
              (settled v lo node h (in_order v node child is largest (not_true _ stop)), same))
            (λ less.
              let (heap, perm) =
                sift_down-IsHeapFrom fuel lo child (swap v node child) (omega arith) (omega arith)
                  (round v lo node child from h is below largest (not_false _ less)) in
              (heap, swapped node child (omega arith) below perm)))
    where
      not_true : (b : Bool) → not b ≡ true → b ≡ false
      not_true b e = ground arith

      not_false : (b : Bool) → not b ≡ false → b ≡ true
      not_false b e = ground arith

      in_order :
          (v : Memory T) (node child : ℕ)
          → IsChild node child
          → ((i : ℕ) → IsChild node i → i < len → i ≢ child → cmp (v child) (v i) ≡ false)
          → cmp (v node) (v child) ≡ false
          → (i : ℕ) → IsChild node i
          → i < len
          → cmp (v node) (v i) ≡ false
      in_order v node child is largest e i down low = elim (Bool-cases (i == child)) [
        | inl at ↦ ap (λ x. cmp (v node) (v x)) (==→eq i child at) ∙ e
        | inr other ↦
            ranking.through (v node) (v child) (v i) e (largest i down low (==→ne i child other))
      ]
