-- ===== src/PriorityQueue/Operations.antt =====
-- core/utils/extended_priority_queue.h: every operation leaves a heap with the elements it should have.
use nfv.Base.{
  ℕ, zero, suc, ◌+◌, ◌-◌, ◌<◌, sym, ap₂, ◌∙◌, subst, inl, inr, arith, Bool, Memory, update,
  update_off, Option, none, some, if_split, Bool-cases, ◌==◌, ==→eq, ==→ne,
}
use nfv.PriorityQueue.{
  swap, sift_down, make_heap_below, Queue, push, pop, set_top, find_if, erase,
  delete_single_element,
}
use nfv.PriorityQueue.Heap.{
  IsRanking, IsHeap, IsHeapFrom, IsHeapBut, Permutes, same, swapped, swap_left, swap_right,
  swap_off, sift_down-IsHeapFrom,
}
use nfv.PriorityQueue.Top.{decrease_key_top-IsHeap}
use nfv.PriorityQueue.Push.{sift_up-IsHeap}

abbrev pub IsQueue {ℓ} : {T : Type ℓ} → (T → T → Bool) → Queue T → Type 0
IsQueue cmp q = IsHeap cmp q.len q.v

-- What holds of all elements holds of them in another order.
pub Permutes-all {ℓ κ} :
    {T : Type ℓ} (P : T → Type κ) (len : ℕ) {v w : ℕ → T}
    → Permutes len v w
    → ((i : ℕ) → i < len → P (v i))
    → (i : ℕ) → i < len
    → P (w i)
Permutes-all P len same all = all
Permutes-all P len (swapped {v} i j hi hj rest) all = Permutes-all P len rest (λ k low.
    if_split P (k == j) (λ _. all i hi) (λ _. if_split P (k == i) (λ _. all j hj) (λ _. all k low)))

-- An element that stood somewhere stands somewhere.
pub Permutes-any {ℓ κ} :
    {T : Type ℓ} (P : T → Type κ) (len : ℕ) {v w : ℕ → T}
    → Permutes len v w
    → (i : ℕ) → i < len
    → P (v i)
    → (j : ℕ) × (j < len) × P (w j)
Permutes-any P len same i low x = (i, low, x)
Permutes-any P len (swapped {v} a b ha hb rest) i low x = elim (Bool-cases (i == b)) [
  | inl at_b ↦ elim (Bool-cases (a == b)) [
    | inl both ↦ Permutes-any P len rest b hb (
        subst P (sym (swap_right v a b))
          (subst (λ n. P (v n)) (==→eq i b at_b ∙ sym (==→eq a b both)) x))
    | inr apart ↦ Permutes-any P len rest a ha (
        subst P (sym (swap_left v a b (==→ne a b apart))) (subst (λ n. P (v n)) (==→eq i b at_b) x))
  ]
  | inr off_b ↦ elim (Bool-cases (i == a)) [
    | inl at_a ↦
        Permutes-any P len rest b hb
          (subst P (sym (swap_right v a b)) (subst (λ n. P (v n)) (==→eq i a at_a) x))
    | inr off_a ↦
        Permutes-any P len rest i low
          (subst P (sym (swap_off v a b i (==→ne i a off_a) (==→ne i b off_b))) x)
  ]
]

Permutes-trans {ℓ} :
    {T : Type ℓ} {len : ℕ} {u v w : ℕ → T} → Permutes len u v → Permutes len v w → Permutes len u w
Permutes-trans same q = q
Permutes-trans (swapped i j hi hj p) q = swapped i j hi hj (Permutes-trans p q)

module _ {ℓ} {T : Type ℓ} (cmp : T → T → Bool) (ranking : IsRanking cmp) where
  pub push-IsQueue :
      (x : T) (q : Queue T)
      → IsQueue cmp q
      → IsQueue cmp (push cmp x q) × Permutes (q.len + 1) (update q.v q.len x) (push cmp x q).v
  unfolding push IsHeap
  push-IsQueue x q h =
      sift_up-IsHeap cmp ranking (q.len + 1) q.len q.len (update q.v q.len x) (omega arith)
        (omega arith)
        (record {
          others = λ p i down near ne.
              ap₂ cmp (update_off q.v q.len x p (omega arith)) (update_off q.v q.len x i ne)
              ∙ h p i down (omega arith);
          below = λ p i up down near. absurd (omega arith);
        })

  pub pop-IsQueue :
      (q : Queue T)
      → 0 < q.len
      → IsQueue cmp q
      → IsQueue cmp (pop cmp q) × Permutes (q.len - 1) (swap q.v 0 (q.len - 1)) (pop cmp q).v
  unfolding pop IsHeap IsHeapFrom
  pop-IsQueue q some_left h =
      let last = q.len - 1 in
      let v = swap q.v 0 last in
      let start : IsHeapBut cmp 0 last 0 v = record {
        others = λ p i high down near ne.
            ap₂ cmp (swap_off q.v 0 last p ne (omega arith))
              (swap_off q.v 0 last i (omega arith) (omega arith))
            ∙ h p i down (omega arith);
        above = λ p i high up down near. absurd (omega arith);
      } in
      let (heap, perm) =
        sift_down-IsHeapFrom cmp ranking last last 0 0 v (omega arith) (omega arith) start in
      (λ p i down near. heap p i (omega arith) down near, perm)

  pub set_top-IsQueue :
      (x : T) (q : Queue T)
      → IsQueue cmp q
      → IsQueue cmp (set_top cmp x q) × Permutes q.len (update q.v 0 x) (set_top cmp x q).v
  unfolding set_top
  set_top-IsQueue x q h =
      let (heap, perm, _) = decrease_key_top-IsHeap cmp ranking q.len q.v x h in (heap, perm)

  make_heap_below-IsHeap :
      (len k : ℕ) (v : Memory T)
      → IsHeapFrom cmp k len v
      → IsHeapFrom cmp 0 len (make_heap_below cmp len k v)
        × Permutes len v (make_heap_below cmp len k v)
  unfolding make_heap_below IsHeapFrom
  make_heap_below-IsHeap len zero v h = (h, same)
  make_heap_below-IsHeap len (suc k) v h =
      let (next, perm) =
        sift_down-IsHeapFrom cmp ranking len len k k v (omega arith) (omega arith) (record {
          others = λ p i high down near ne. h p i (omega arith) down near;
          above = λ p i high up down near. absurd (omega arith);
        }) in
      let (heap, rest) = make_heap_below-IsHeap len k (sift_down cmp len len k v) next in
      (heap, Permutes-trans perm rest)

  pub whole-IsHeap :
      (len : ℕ) (v : Memory T)
      → IsHeap cmp len (make_heap_below cmp len len v)
        × Permutes len v (make_heap_below cmp len len v)
  unfolding IsHeap IsHeapFrom
  whole-IsHeap len v =
      let (heap, perm) =
        make_heap_below-IsHeap len len v (λ p i high down near. absurd (omega arith)) in
      (λ p i down near. heap p i (omega arith) down near, perm)

  pub delete_single_element-IsQueue :
      (func : T → Bool) (q : Queue T)
      → IsQueue cmp q
      → IsQueue cmp (delete_single_element cmp func q).1
  unfolding delete_single_element
  delete_single_element-IsQueue func q h =
      elim (find_if func q.len 0 q.v)
        as (λ o.
          IsQueue cmp
            (elim o as (λ _. Option T × Queue T) [
              | none ↦ (none, q)
              | some i ↦ (
                some (q.v i),
                record {
                  len = q.len - 1;
                  v = make_heap_below cmp (q.len - 1) (q.len - 1) (erase i q.v);
                },
              )
            ]).1) [ none ↦ h | some i ↦ (whole-IsHeap (q.len - 1) (erase i q.v)).0 ]
