-- ===== src/Llring/Multi/Shape.antt =====
-- core/kmod/llring.h: the four indices of a shared ring, and where its objects stand.
use nfv.Base.{ℕ, ◌+◌, ◌-◌, ◌%◌, ◌^◌, ◌≤◌, ◌<◌, ◌≡◌, ◌≢◌, sym, ap, subst, ◌∙◌, arith}
use nfv.Base.Words.{u32}
use nfv.Llring.{Llring}
use nfv.Llring.Contents.{IsSized, slots_bounds, masked}
use nfv.Llring.Invariant.{IsCell-from, wrapped_index}
use nfv.Llring.Multi.{Shared, cell}

-- The order of the indices of a ring with 2^k cells: what is handed out was published, and a cell
-- always stays free.
pub record IsOrdered {A : Type 0} (k : ℕ) (s : Shared A) : Type 0 where
  pub sized : IsSized k s.r
  pub prod_head : s.r.prod_head ≡ u32 s.reserved
  pub prod_tail : s.r.prod_tail ≡ u32 s.published
  pub cons_head : s.r.cons_head ≡ u32 s.claimed
  pub cons_tail : s.r.cons_tail ≡ u32 s.released
  pub taking : s.released ≤ s.claimed
  pub ready : s.claimed ≤ s.published
  pub putting : s.published ≤ s.reserved
  pub room : s.reserved < s.released + 2 ^ k

-- The cell of the object at a position
abbrev pub place : ℕ → ℕ → ℕ
place k x = x % 2 ^ k

-- Published objects that no dequeue has released stand in their cells.
abbrev pub IsStored : {A : Type 0} → ℕ → Shared A → Type 0
IsStored k s = (x : ℕ) → s.released ≤ x → x < s.published → s.r.ring (place k x) ≡ s.put x

-- What a step may change: nothing that was reserved is taken back.
pub record Grows {A : Type 0} (s s' : Shared A) : Type 0 where
  pub reserved : s.reserved ≤ s'.reserved
  pub published : s.published ≤ s'.published
  pub claimed : s.claimed ≤ s'.claimed
  pub released : s.released ≤ s'.released
  pub put : (x : ℕ) → x < s.reserved → s'.put x ≡ s.put x

module _ {A : Type 0} {k : ℕ} (r : Llring A) (sized : IsSized k r) where
  pub IsSized-same : (x : Llring A) → x.slots ≡ r.slots → x.mask ≡ r.mask → IsSized k x
  IsSized-same x e f = record {
    small = sized.small;
    slots = e ∙ sized.slots;
    mask = f ∙ sized.mask ∙ ap (λ n. n - 1) (sym e);
  }

  pub size_bounds : (0 < 2 ^ k) × (2 ^ k ≤ 2 ^ 31) × (r.slots ≡ 2 ^ k) × (r.mask + 1 ≡ 2 ^ k)
  size_bounds =
      let b = slots_bounds r sized in
      let e = sized.slots in (omega arith, omega arith, e, omega (arith, sized.mask))

  pub cell-place : (h p i : ℕ) → h ≡ u32 p → i < 2 ^ k → cell r h i ≡ place k (p + i)
  cell-place h p i e near =
      let b = slots_bounds r sized in
      let z = sized.slots in
      let c = IsCell-from r.slots h i b.0 (omega arith) in
      let m = masked r sized h in
      let w : (h + i) % r.slots ≡ (p + (0 + i)) % r.slots =
        subst (λ t. (t + i) % r.slots ≡ (p + (0 + i)) % r.slots) {x = u32 (p + 0)} {y = h}
          (omega arith) (wrapped_index r sized p 0 i) in
      let v : (p + (0 + i)) % r.slots ≡ place k (p + i) =
        ap (λ t. t % r.slots) {x = p + (0 + i)} {y = p + i} (omega arith)
        ∙ ap (λ t. (p + i) % t) z in
      ground (arith, c)

  -- Positions less than the ring's size apart have different cells.
  pub place_apart : (x y : ℕ) → x < y → y < x + 2 ^ k → place k x ≢ place k y
  place_apart x y lt near e =
      let b = size_bounds in
      let c = IsCell-from (2 ^ k) x (y - x) b.0 (omega arith) in
      let v : (x + (y - x)) % 2 ^ k ≡ y % 2 ^ k = ap (λ t. t % 2 ^ k) (omega arith) in
      omega (arith, c)
