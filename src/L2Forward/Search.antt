-- ===== src/L2Forward/Search.antt =====
-- core/modules/l2_forward.cc: the linear searches over the slots of a bucket.
use nfv.Base.{
  ℕ, zero, suc, ◌+◌, ◌≤◌, ◌<◌, ◌≡◌, refl, sym, ap, true, false, Option, none, some, if_split, arith,
  Memory, subst,
}
use native.Mathlib.Decide.{ℕ_discrete}
use nfv.L2Forward.{L2Entry, L2Table, holds, search, free_slot, l2_ib_to_offset}

module _ (addr : ℕ) where
  -- No slot of the range holds the address.
  abbrev pub Absent : Memory L2Entry → (offset n : ℕ) → Type 0
  Absent tbl offset n = (x : ℕ) → offset ≤ x → x < offset + n → holds (tbl x) addr ≡ false

  -- What a search over `n` slots comes to.
  pub data Found (tbl : Memory L2Entry) (offset n : ℕ) : Option ℕ → Type 0 where
    at :
        (x : ℕ)
        → offset ≤ x
        → x < offset + n
        → holds (tbl x) addr ≡ true
        → Found tbl offset n (some x)
    nowhere : Absent tbl offset n → Found tbl offset n none

  pub search-Found :
      (n : ℕ) (tbl : Memory L2Entry) (offset : ℕ) → Found tbl offset n (search n tbl addr offset)
  unfolding search
  search-Found zero tbl offset = nowhere (λ x low high. absurd (omega arith))
  search-Found (suc n) tbl offset =
      if_split (Found tbl offset (suc n)) (holds (tbl offset) addr)
        (λ here. at offset (omega arith) (omega arith) here)
        (λ other. later (search n tbl addr (offset + 1)) other (search-Found n tbl (offset + 1)))
    where
      later :
          (r : Option ℕ)
          → holds (tbl offset) addr ≡ false
          → Found tbl (offset + 1) n r
          → Found tbl offset (suc n) r
      later _ other (at x low high h) = at x (omega arith) (omega arith) h
      later _ other (nowhere rest) = nowhere (λ x low high. elim (ℕ_discrete x offset) [
        | yes e ↦ subst (λ y. holds (tbl y) addr ≡ false) (sym e) other
        | no ne ↦ rest x (omega arith) (omega arith)
      ])

  pub search-Absent :
      (n : ℕ) (tbl : Memory L2Entry) (offset : ℕ)
      → search n tbl addr offset ≡ none
      → Absent tbl offset n
  search-Absent n tbl offset e = from (search n tbl addr offset) (search-Found n tbl offset) e
    where
      from : (r : Option ℕ) → Found tbl offset n r → r ≡ none → Absent tbl offset n
      from _ (at x low high h) e = cc
      from _ (nowhere rest) e = rest

  -- A search sees only which slots hold the address.
  pub search_congr :
      (n : ℕ) (s t : Memory L2Entry) (offset : ℕ)
      → ((x : ℕ) → holds (s x) addr ≡ holds (t x) addr)
      → search n s addr offset ≡ search n t addr offset
  unfolding search
  search_congr zero s t offset h = refl
  search_congr (suc n) s t offset h = rw (h offset, search_congr n s t (offset + 1) h)

  -- A slot that alone holds the address is found.
  pub search_only :
      (n : ℕ) (tbl : Memory L2Entry) (offset x : ℕ)
      → offset ≤ x
      → x < offset + n
      → holds (tbl x) addr ≡ true
      → ((y : ℕ) → offset ≤ y → y < x → holds (tbl y) addr ≡ false)
      → search n tbl addr offset ≡ some x
  unfolding search
  search_only zero tbl offset x low high h only = absurd (omega arith)
  search_only (suc n) tbl offset x low high h only = elim (ℕ_discrete offset x) [
    | yes e ↦ rw (subst (λ y. holds (tbl y) addr ≡ true) (sym e) h) (ap some e)
    | no ne ↦ rw (only offset (omega arith) (omega arith)) (
        search_only n tbl (offset + 1) x (omega arith) (omega arith) h
          (λ y below above. only y (omega arith) above))
  ]

-- What the search for a free slot of bucket `idx` comes to.
pub data FreeSlot (t : L2Table) (idx i n : ℕ) : Option ℕ → Type 0 where
  free :
      (j : ℕ)
      → i ≤ j
      → j < i + n
      → (t.table (l2_ib_to_offset t idx j)).occupied ≡ false
      → FreeSlot t idx i n (some j)
  full :
      ((j : ℕ) → i ≤ j → j < i + n → (t.table (l2_ib_to_offset t idx j)).occupied ≡ true)
      → FreeSlot t idx i n none

pub free_slot-FreeSlot :
    (n : ℕ) (t : L2Table) (idx i : ℕ) → FreeSlot t idx i n (free_slot n t idx i)
unfolding free_slot
free_slot-FreeSlot zero t idx i = full (λ j low high. absurd (omega arith))
free_slot-FreeSlot (suc n) t idx i =
    if_split (FreeSlot t idx i (suc n)) ((t.table (l2_ib_to_offset t idx i)).occupied)
      (λ taken. later (free_slot n t idx (i + 1)) taken (free_slot-FreeSlot n t idx (i + 1)))
      (λ open_slot. free i (omega arith) (omega arith) open_slot)
  where
    later :
        (r : Option ℕ)
        → (t.table (l2_ib_to_offset t idx i)).occupied ≡ true
        → FreeSlot t idx (i + 1) n r
        → FreeSlot t idx i (suc n) r
    later _ taken (free j low high h) = free j (omega arith) (omega arith) h
    later _ taken (full rest) = full (λ j low high. elim (ℕ_discrete j i) [
      | yes e ↦ subst (λ y. (t.table (l2_ib_to_offset t idx y)).occupied ≡ true) (sym e) taken
      | no ne ↦ rest j (omega arith) (omega arith)
    ])
