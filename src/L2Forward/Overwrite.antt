-- ===== src/L2Forward/Overwrite.antt =====
-- core/modules/l2_forward.cc: which slot is written when an addition moves another entry away.
use nfv.Base.{ℕ, ◌≡◌, ◌≢◌, Option, some}
use nfv.L2Forward.{Cpu, L2Table, free_slot, l2_ib_to_offset, index_1, index_2, move_entry}

module _ (cpu : Cpu) (t : L2Table) (idx : ℕ) where
  -- The address in slot `i` of bucket `idx`
  abbrev pub address : ℕ → ℕ
  address i = (t.table (l2_ib_to_offset t idx i)).addr

  -- The entry in slot `i` could go to another bucket than this one; and the slot there that is
  -- free, if one is.
  pub data Goes (i : ℕ) (free : Option ℕ) : Type 0 where
    goes :
        index_1 cpu t (address i) ≢ index_2 cpu t (address i)
        → idx ≢ index_2 cpu t (address i)
        → free_slot t.bucket t (index_2 cpu t (address i)) 0 ≡ free
        → Goes i free

  handed_out : ℕ → ℕ → Option (L2Table × ℕ × ℕ)
  handed_out i j = some (
    move_entry t (l2_ib_to_offset t idx i) (l2_ib_to_offset t (index_2 cpu t (address i)) j),
    idx,
    0,
  )

module _ (cpu : Cpu) (t : L2Table) (addr : ℕ) where
  abbrev first : ℕ
  first = l2_ib_to_offset t (index_1 cpu t addr) 0
