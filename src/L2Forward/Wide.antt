-- ===== src/L2Forward/Wide.antt =====
-- core/modules/l2_forward.cc: lookups in buckets of four slots, which find_index makes.
use nfv.Base.{
  ℕ, ◌+◌, ◌-◌, ◌^◌, ◌<◌, ◌≡◌, refl, ap, ◌∙◌, Option, Bool, true, false, ◌&&◌, none, some,
  if◌then◌else◌, if_split, ◌==◌, arith, eq→==, not,
}
use nfv.L2Forward.{
  Cpu, L2Entry, L2Table, holds, find_index, find_four, l2_find, l2_ib_to_offset, index_1, index_2,
}
use nfv.L2Forward.Words.{IsEntry, find_index-first, find_index-zero, both}

module _ (cpu : Cpu) (t : L2Table) (addr : ℕ) where
  abbrev first_slot : L2Entry
  first_slot = t.table (l2_ib_to_offset t (index_1 cpu t addr) 0)

  abbrev second_slot : L2Entry
  second_slot = t.table (l2_ib_to_offset t (index_2 cpu t addr) 0)

  -- What address 0 is taken for if zeros of either sign are the same
  abbrev zero_slot : L2Entry
  zero_slot =
      t.table (l2_ib_to_offset t (index_1 cpu t addr) 0 + (if first_slot.addr == 0 then 0 else 1))

  zero_found :
      t.bucket ≡ 4
      → (cpu.avx && addr == 0) ≡ true
      → ((x : ℕ) → IsEntry (t.table x))
      → l2_find cpu t addr ≡ some zero_slot.gate
  unfolding l2_find find_four
  zero_found wide zero entries =
      let offset = l2_ib_to_offset t (index_1 cpu t addr) 0 in
      let (avx, none_set) = both cpu.avx addr zero in
      let found : find_index cpu.avx addr t.table offset ≡ (if first_slot.addr == 0 then 1 else 2) =
        ap (λ a. find_index cpu.avx a t.table offset) none_set
        ∙ ap (λ b. find_index b 0 t.table offset) avx
        ∙ find_index-zero t.table offset (entries offset) in
      rw (eq→== t.bucket 4 wide, found) (at_slot _ offset (first_slot.addr == 0))
    where
      at_slot :
          (other : Option ℕ) (x : ℕ) (b : Bool)
          → (if not ((if b then 1 else 2) == 0)
              then some (t.table (x + (if b then 1 else 2) - 1)).gate
              else other)
            ≡ some (t.table (x + (if b then 0 else 1))).gate
      at_slot other x true =
          ap (λ y. some (t.table y).gate) {x = x + 1 - 1} {y = x + 0} (omega arith)
      at_slot other x false =
          ap (λ y. some (t.table y).gate) {x = x + 2 - 1} {y = x + 1} (omega arith)

  by_slots :
      (x y : ℕ) (p q : Bool)
      → (if not ((if p then 1 else 0) == 0)
          then some (t.table (x + (if p then 1 else 0) - 1)).gate
          else if not ((if q then 1 else 0) == 0)
          then some (t.table (y + (if q then 1 else 0) - 1)).gate
          else none)
        ≡ (if p then some (t.table x).gate else if q then some (t.table y).gate else none)
  by_slots x y true q = ap (λ z. some (t.table z).gate) {x = x + 1 - 1} {y = x} (omega arith)
  by_slots x y false true = ap (λ z. some (t.table z).gate) {x = y + 1 - 1} {y = y} (omega arith)
  by_slots x y false false = refl

  exact_slots :
      t.bucket ≡ 4
      → (cpu.avx && addr == 0) ≡ false
      → addr < 2 ^ 48
      → ((x : ℕ) → IsEntry (t.table x))
      → l2_find cpu t addr ≡ (
          if holds first_slot addr
          then some first_slot.gate
          else if holds second_slot addr
          then some second_slot.gate
          else none)
  unfolding l2_find find_four
  exact_slots wide more h entries =
      rw
        (
          eq→== t.bucket 4 wide,
          find_index-first cpu.avx addr t.table (l2_ib_to_offset t (index_1 cpu t addr) 0) more h
              (entries _),
          find_index-first cpu.avx addr t.table (l2_ib_to_offset t (index_2 cpu t addr) 0) more h
              (entries _),
        )
        (by_slots _ _ (holds first_slot addr) (holds second_slot addr))

  -- With buckets of four and entries whose fields are in range, l2_find looks for an address below
  -- 2^48 in the first slots of its two buckets and nowhere else; but built with AVX, it finds
  -- address 0 in every such table, with the gate of the first slot of its first bucket if that
  -- slot has address 0 and otherwise with the gate of the second slot.
  pub l2_find_first_slots :
      t.bucket ≡ 4
      → addr < 2 ^ 48
      → ((x : ℕ) → IsEntry (t.table x))
      → l2_find cpu t addr ≡ (
          if cpu.avx && addr == 0
          then some zero_slot.gate
          else if holds first_slot addr
          then some first_slot.gate
          else if holds second_slot addr
          then some second_slot.gate
          else none)
  l2_find_first_slots wide h entries =
      if_split (λ o. l2_find cpu t addr ≡ o) (cpu.avx && addr == 0)
        (λ zero. zero_found wide zero entries) (λ exact. exact_slots wide exact h entries)
