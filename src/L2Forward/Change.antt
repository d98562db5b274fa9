-- ===== src/L2Forward/Change.antt =====
-- core/modules/l2_forward.cc: l2_add_entry.
use nfv.Base.{
  ℕ, ◌+◌, ◌%◌, ◌^◌, ◌<◌, ◌≡◌, refl, sym, ap, ◌∙◌, ◌≢◌, true, Option, none, some, arith, Memory,
  update, eq→==, ne→==,
}
use nfv.Base.Int.{ℤ, pos, neg}
use nfv.L2Forward.{
  Cpu, L2Entry, L2Table, holds, search, l2_find_offset, l2_ib_to_offset, index_1, index_2, gate_at,
  or_else, find_any, l2_find_slot, put_entry, add_at, l2_add_entry, l2_find, eexist, enomem,
}
use nfv.L2Forward.Search.{Absent, search-Absent, search_only}
use nfv.L2Forward.Layout.{IsTable, offset_lem, index_1-lt}
use nfv.L2Forward.Slot.{SlotFor, slot, no_slot, l2_find_slot-SlotFor}
use nfv.L2Forward.Frame.{update-at, update-off}

-- Only the sizes matter.
same_shape :
    {k : ℕ} (t : L2Table)
    → IsTable k t
    → (t' : L2Table) → t'.size ≡ t.size
    → t'.size_power ≡ t.size_power
    → t'.bucket ≡ t.bucket
    → IsTable k t'
same_shape t v t' s p b = record {
  more_than_one = v.more_than_one;
  in_range = v.in_range;
  size = s ∙ v.size;
  size_power = p ∙ v.size_power;
  bucket_pos = omega (arith, b, v.bucket_pos);
  bucket_le = omega (arith, b, v.bucket_le);
}

first_found :
    (t : L2Table) {x : ℕ} (r s : Option ℕ)
    → r ≡ some x
    → gate_at t (or_else r s) ≡ some (t.table x).gate
first_found t r s h = ap (λ (o : Option ℕ). gate_at t (or_else o s)) h

module _ (cpu : Cpu) {k : ℕ} (t : L2Table) (v : IsTable k t) (addr : ℕ) where
  -- Smaller buckets are searched slot by slot.
  l2_find-any : (s : L2Table) (a : ℕ) → s.bucket ≢ 4 → l2_find cpu s a ≡ find_any cpu s a
  unfolding l2_find
  l2_find-any s a h = rw (ne→== s.bucket 4 h) refl

  -- An address that is not found is not in its first bucket.
  find_any-Absent :
      find_any cpu t addr ≡ none
      → Absent addr t.table (l2_ib_to_offset t (index_1 cpu t addr) 0) t.bucket
  unfolding find_any l2_find_offset
  find_any-Absent e =
      from (search t.bucket t.table addr (l2_ib_to_offset t (index_1 cpu t addr) 0))
        (search t.bucket t.table addr (l2_ib_to_offset t (index_2 cpu t addr) 0)) refl e
    where
      from :
          (o s : Option ℕ)
          → search t.bucket t.table addr (l2_ib_to_offset t (index_1 cpu t addr) 0) ≡ o
          → gate_at t (or_else o s) ≡ none
          → Absent addr t.table (l2_ib_to_offset t (index_1 cpu t addr) 0) t.bucket
      from none s o e = search-Absent addr t.bucket t.table _ o
      from (some x) s o e = absurd cc

  -- An address just put into its first bucket is found with its gate.
  stored_lem :
      (tbl : Memory L2Entry) (b gate : ℕ)
      → b < t.bucket
      → addr < 2 ^ 48
      → Absent addr tbl (l2_ib_to_offset t (index_1 cpu t addr) 0) t.bucket
      → find_any cpu
          (put_entry
            (record t { table = tbl })
            (l2_ib_to_offset t (index_1 cpu t addr) b)
            addr
            gate)
          addr
        ≡ some (gate % 2 ^ 15)
  unfolding find_any l2_find_offset put_entry index_1 l2_ib_to_offset
  stored_lem tbl b gate h small absent =
      first_found (put_entry (record t { table = tbl }) x addr gate) _ _ found
      ∙ ap (λ d. some d.gate) (update-at tbl x x e refl)
    where
      x : ℕ
      x = l2_ib_to_offset t (index_1 cpu t addr) b

      first : ℕ
      first = l2_ib_to_offset t (index_1 cpu t addr) 0

      e : L2Entry
      e = record { addr = addr % 2 ^ 48; gate = gate % 2 ^ 15; occupied = true }

      place : x ≡ first + b
      place = omega (
        arith,
        (offset_lem v (index_1 cpu t addr) b (index_1-lt v cpu addr) h).0,
        (offset_lem v (index_1 cpu t addr) 0 (index_1-lt v cpu addr) (omega arith)).0,
      )

      found : search t.bucket (update tbl x e) addr first ≡ some x
      found =
          search_only addr t.bucket (update tbl x e) first x (omega (arith, place))
            (omega (arith, place))
            (ap (λ d. holds d addr) (update-at tbl x x e refl)
              ∙ eq→== addr (addr % 2 ^ 48) (omega arith))
            (λ y low high.
              ap (λ d. holds d addr) (update-off tbl x y e (λ p. absurd (omega arith)))
              ∙ absent y low (omega (arith, place)))

  -- What an addition comes to.
  pub data Added (gate : ℕ) : ℤ × L2Table → Type 0 where
    present : (g : ℕ) → l2_find cpu t addr ≡ some g → Added gate (neg eexist, t)
    no_room : l2_find cpu t addr ≡ none → Added gate (neg enomem, t)
    stored :
        (t' : L2Table)
        → IsTable k t'
        → t'.bucket ≡ t.bucket
        → l2_find cpu t addr ≡ none
        → l2_find cpu t' addr ≡ some (gate % 2 ^ 15)
        → Added gate (pos 0, t')

  -- In a well-formed table with buckets smaller than four, adding an address below 2^48 returns
  -- -EEXIST or -ENOMEM and leaves the table as it was, the first exactly for an address that
  -- l2_find finds; or it returns 0, and then l2_find gives the new gate, modulo 2^15, for the
  -- address, and the table is well-formed.
  pub l2_add_entry-Added :
      (gate : ℕ) → t.bucket ≢ 4 → addr < 2 ^ 48 → Added gate (l2_add_entry cpu t addr gate)
  unfolding l2_add_entry add_at l2_ib_to_offset put_entry
  l2_add_entry-Added gate other small = from (l2_find cpu t addr) refl
    where
      put :
          (o : Option (L2Table × ℕ × ℕ))
          → l2_find cpu t addr ≡ none
          → SlotFor cpu t v addr o
          → Added gate (add_at t addr gate o)
      put _ e no_slot = no_room e
      put _ e (slot tbl b h absent) =
          stored
            (put_entry (record t { table = tbl }) (l2_ib_to_offset t (index_1 cpu t addr) b) addr
              gate)
            (same_shape t v _ refl refl refl) refl e
            (l2_find-any _ addr other ∙ stored_lem tbl b gate h small absent)

      from :
          (o : Option ℕ)
          → l2_find cpu t addr ≡ o
          → Added gate (elim o [
            | some _ ↦ (neg eexist, t)
            | none ↦ add_at t addr gate (l2_find_slot cpu t addr)
          ])
      from (some g) e = present g e
      from none e =
          put _ e (
            l2_find_slot-SlotFor cpu t v addr
              (find_any-Absent (sym (l2_find-any t addr other) ∙ e)))
