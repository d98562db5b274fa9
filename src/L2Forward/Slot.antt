-- ===== src/L2Forward/Slot.antt =====
-- core/modules/l2_forward.cc: the slot that l2_find_slot hands out.
use nfv.Base.{
  ℕ, zero, suc, ◌+◌, ◌*◌, ◌≤◌, ◌<◌, ◌≡◌, refl, false, Option, none, some, if_split, ◌==◌, arith,
  Memory, update,
}
use nfv.L2Forward.{
  Cpu, L2Entry, L2Table, holds, free_slot, l2_ib_to_offset, index_1, index_2, move_entry,
  try_moving, l2_find_slot,
}
use nfv.L2Forward.Search.{Absent, FreeSlot, free_slot-FreeSlot}
use nfv.L2Forward.Layout.{IsTable, offset_lem, index_1-lt}
use nfv.L2Forward.Frame.{update_all}

module _ (cpu : Cpu) {k : ℕ} (t : L2Table) (v : IsTable k t) (addr : ℕ) where
  -- What `l2_find_slot` gives when the address is not in its first bucket: a slot of that bucket in
  -- a table which does not hold the address there.
  pub data SlotFor : Option (L2Table × ℕ × ℕ) → Type 0 where
    slot :
        (tbl : Memory L2Entry) (b : ℕ)
        → b < t.bucket
        → Absent addr tbl (l2_ib_to_offset t (index_1 cpu t addr) 0) t.bucket
        → SlotFor (some (record t { table = tbl }, index_1 cpu t addr, b))
    no_slot : SlotFor none

  module _ (absent : Absent addr t.table (l2_ib_to_offset t (index_1 cpu t addr) 0) t.bucket) where
    base : ℕ
    base = index_1 cpu t addr * t.bucket

    slot_offset : (b : ℕ) → b < t.bucket → l2_ib_to_offset t (index_1 cpu t addr) b ≡ base + b
    unfolding base
    slot_offset b h = (offset_lem v (index_1 cpu t addr) b (index_1-lt v cpu addr) h).0

    moved-Absent :
        (b x : ℕ)
        → b < t.bucket
        → Absent addr
            (move_entry t (l2_ib_to_offset t (index_1 cpu t addr) b) x).table
            (l2_ib_to_offset t (index_1 cpu t addr) 0)
            t.bucket
    unfolding move_entry
    moved-Absent b x h y low high =
        update_all (λ e. holds e addr ≡ false) (update t.table x (t.table from)) from y
          (record (update t.table x (t.table from) from) { occupied = false }) (λ _. refl)
          (λ _.
            update_all (λ e. holds e addr ≡ false) t.table x y (t.table from)
              (λ _.
                absent from (omega (arith, slot_offset b h, slot_offset 0 (omega arith)))
                  (omega (arith, slot_offset b h, slot_offset 0 (omega arith))))
              (λ _. absent y low high))
      where
        from : ℕ
        from = l2_ib_to_offset t (index_1 cpu t addr) b

    try_moving-SlotFor :
        (n i : ℕ) → i + n ≤ t.bucket → SlotFor (try_moving cpu n t (index_1 cpu t addr) i)
    unfolding try_moving move_entry
    try_moving-SlotFor zero i h = no_slot
    try_moving-SlotFor (suc n) i h =
        let pivot = (t.table (l2_ib_to_offset t (index_1 cpu t addr) i)).addr in
        if_split SlotFor (index_1 cpu t pivot == index_2 cpu t pivot) (λ _. no_slot)
          (λ _.
            if_split SlotFor (index_1 cpu t addr == index_2 cpu t pivot) (λ _. no_slot)
              (λ _.
                next (index_2 cpu t pivot) (free_slot t.bucket t (index_2 cpu t pivot) 0)
                  (try_moving-SlotFor n (i + 1) (omega arith))))
      where
        next :
            (other : ℕ) (o : Option ℕ) {rest : Option (L2Table × ℕ × ℕ)}
            → SlotFor rest
            → SlotFor (elim o [
              | some j ↦ some (
                move_entry t (l2_ib_to_offset t (index_1 cpu t addr) i) (l2_ib_to_offset t other j),
                index_1 cpu t addr,
                0,
              )
              | none ↦ rest
            ])
        next other none rest = rest
        next other (some j) rest =
            slot _ 0 (omega arith) (moved-Absent i (l2_ib_to_offset t other j) (omega arith))

    pub l2_find_slot-SlotFor : SlotFor (l2_find_slot cpu t addr)
    unfolding l2_find_slot
    l2_find_slot-SlotFor =
        from (free_slot t.bucket t (index_1 cpu t addr) 0)
          (free_slot-FreeSlot t.bucket t (index_1 cpu t addr) 0)
      where
        from :
            (o : Option ℕ)
            → FreeSlot t (index_1 cpu t addr) 0 t.bucket o
            → SlotFor (elim o [
              | some i ↦ some (t, index_1 cpu t addr, i)
              | none ↦ try_moving cpu t.bucket t (index_1 cpu t addr) 0
            ])
        from _ (FreeSlot.free j low high unused) = slot t.table j (omega arith) absent
        from _ (FreeSlot.full taken) = try_moving-SlotFor t.bucket 0 (omega arith)
