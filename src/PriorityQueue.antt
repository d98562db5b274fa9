-- ===== src/PriorityQueue.antt =====
-- core/utils/extended_priority_queue.h: a heap whose top element may have lost rank.
pub mod Heap
pub mod Top
pub mod Push
pub mod Operations
mod Examples
use nfv.Base.{
  ℕ, zero, suc, ◌+◌, ◌-◌, ◌*◌, ◌/◌, Bool, true, false, not, leb, ltb, ◌==◌, Memory, update,
  if◌then◌else◌, Option, none, some,
}

-- `std::swap(v[i], v[j])`
abbrev pub swap {ℓ} : {T : Type ℓ} → Memory T → ℕ → ℕ → Memory T
swap v i j = update (update v i (v j)) j (v i)

-- `larger_child`: the left child, if there is no right one or it is less.
abbrev pub larger_child {ℓ} : {T : Type ℓ} → (T → T → Bool) → ℕ → Memory T → ℕ → ℕ
larger_child cmp len v node =
    if if leb len (2 * node + 2) then true else cmp (v (2 * node + 2)) (v (2 * node + 1))
    then 2 * node + 1
    else 2 * node + 2

-- The loop of `decrease_key_top` at `node`, at most `fuel` rounds; `v` has `len` elements.
unfoldable pub sift_down {ℓ} : {T : Type ℓ} → (T → T → Bool) → ℕ → ℕ → ℕ → Memory T → Memory T
sift_down cmp zero len node v = v
sift_down cmp (suc fuel) len node v =
    let child = larger_child cmp len v node in
    let rest = sift_down cmp fuel len child (swap v node child) in
    if leb len (2 * node + 1) then v else if not (cmp (v node) (v child)) then v else rest

-- Each round goes down a level, so there are fewer rounds than elements.
unfoldable pub decrease_key_top {ℓ} : {T : Type ℓ} → (T → T → Bool) → ℕ → Memory T → Memory T
decrease_key_top cmp len v = sift_down cmp len len 0 v

-- The new last element moves up past the parents that are less, at most `fuel` levels.
unfoldable pub sift_up {ℓ} : {T : Type ℓ} → (T → T → Bool) → ℕ → ℕ → Memory T → Memory T
sift_up cmp zero node v = v
sift_up cmp (suc fuel) node v =
    let parent = (node - 1) / 2 in
    let rest = sift_up cmp fuel parent (swap v parent node) in
    if node == 0 then v else if cmp (v parent) (v node) then rest else v

-- `std::make_heap` below `k`: the elements from `k` on are in order already.
unfoldable pub make_heap_below {ℓ} : {T : Type ℓ} → (T → T → Bool) → ℕ → ℕ → Memory T → Memory T
make_heap_below cmp len zero v = v
make_heap_below cmp len (suc k) v = make_heap_below cmp len k (sift_down cmp len len k v)

-- The queue's container: `len` elements.
pub record Queue {ℓ} (T : Type ℓ) : Type ℓ where
  pub len : ℕ
  pub v : Memory T

-- `push`, `pop` of std::priority_queue
unfoldable pub push {ℓ} : {T : Type ℓ} → (T → T → Bool) → T → Queue T → Queue T
push cmp x q = record { len = q.len + 1; v = sift_up cmp q.len q.len (update q.v q.len x) }

unfoldable pub pop {ℓ} : {T : Type ℓ} → (T → T → Bool) → Queue T → Queue T
pop cmp q = record {
  len = q.len - 1;
  v = sift_down cmp (q.len - 1) (q.len - 1) 0 (swap q.v 0 (q.len - 1));
}

-- `mutable_top`, assigned to, and `decrease_key_top`
unfoldable pub set_top {ℓ} : {T : Type ℓ} → (T → T → Bool) → T → Queue T → Queue T
set_top cmp x q = record q { v = decrease_key_top cmp q.len (update q.v 0 x) }

-- `std::find_if` from `i` on, where `n` elements are left
unfoldable pub find_if {ℓ} : {T : Type ℓ} → (T → Bool) → ℕ → ℕ → Memory T → Option ℕ
find_if func zero i v = none
find_if func (suc n) i v =
    let rest = find_if func n (i + 1) v in if func (v i) then some i else rest

-- `v.erase(it)`
abbrev pub erase {ℓ} : {T : Type ℓ} → ℕ → Memory T → Memory T
erase i v j = if ltb j i then v j else v (j + 1)

-- The element that is deleted, if there is one, and the queue.
unfoldable pub delete_single_element {ℓ} :
    {T : Type ℓ} → (T → T → Bool) → (T → Bool) → Queue T → Option T × Queue T
delete_single_element cmp func q = elim (find_if func q.len 0 q.v) [
  | none ↦ (none, q)
  | some i ↦ (
    some (q.v i),
    record { len = q.len - 1; v = make_heap_below cmp (q.len - 1) (q.len - 1) (erase i q.v) },
  )
]
