-- ===== src/L2Forward/Preserve.antt =====
-- core/modules/l2_forward.cc: what additions and deletions do to the other addresses.
use nfv.Base.{
  ℕ, ◌+◌, ◌-◌, ◌%◌, ◌^◌, ◌<◌, ◌≤◌, ◌≡◌, refl, sym, ap, ◌∙◌, ◌≢◌, true, false, ◌&&◌, Option, none,
  some, ◌==◌, arith, Memory, subst, update, ne→==,
}
use nfv.Base.Int.{ℤ, pos, neg}
use nfv.Base.Words.{u64}
use nfv.L2Forward.{
  Cpu, L2Entry, L2Table, holds, search, free_slot, l2_find_offset, l2_ib_to_offset, index_1,
  index_2, gate_at, find_any, l2_find_slot, put_entry, add_at, del_at, l2_add_entry, l2_del_entry,
  l2_find, enoent, zero_entry,
}
use nfv.L2Forward.Search.{Found, search-Found, FreeSlot, free_slot-FreeSlot}
use nfv.L2Forward.Frame.{holds_one, update_all, l2_find_offset-holds, find_any-changed}

search_nowhere :
    (n : ℕ) (tbl : Memory L2Entry) (addr offset : ℕ)
    → ((y : ℕ) → holds (tbl y) addr ≡ false)
    → search n tbl addr offset ≡ none
search_nowhere n tbl addr offset h =
    from (search n tbl addr offset) (search-Found addr n tbl offset)
  where
    from : (o : Option ℕ) → Found addr tbl offset n o → o ≡ none
    from _ (Found.at x low high held) = absurd (let no = h x in cc)
    from _ (Found.nowhere rest) = refl

-- The slot that `free_slot` gives is free.
free_slot_unused :
    (n : ℕ) (t : L2Table) (idx i : ℕ)
    → free_slot n t idx 0 ≡ some i
    → (t.table (l2_ib_to_offset t idx i)).occupied ≡ false
free_slot_unused n t idx i e = from (free_slot n t idx 0) (free_slot-FreeSlot n t idx 0) e
  where
    from :
        (o : Option ℕ)
        → FreeSlot t idx 0 n o
        → o ≡ some i
        → (t.table (l2_ib_to_offset t idx i)).occupied ≡ false
    from _ (FreeSlot.free j low high unused) e =
        subst (λ x. (t.table (l2_ib_to_offset t idx x)).occupied ≡ false) {x = j} {y = i} (cc)
          unused
    from _ (FreeSlot.full taken) e = absurd (cc)

module _ (cpu : Cpu) (t : L2Table) (addr : ℕ) where
  -- An address that no slot holds is not found.
  pub held_nowhere : ((y : ℕ) → holds (t.table y) addr ≡ false) → l2_find_offset cpu t addr ≡ none
  unfolding l2_find_offset
  held_nowhere h =
      rw
        (
          search_nowhere t.bucket t.table addr (l2_ib_to_offset t (index_1 cpu t addr) 0) h,
          search_nowhere t.bucket t.table addr (l2_ib_to_offset t (index_2 cpu t addr) 0) h,
        )
        refl

  any_find : t.bucket ≢ 4 → l2_find cpu t addr ≡ find_any cpu t addr
  unfolding l2_find
  any_find h = rw (ne→== t.bucket 4 h) refl

module _ (cpu : Cpu) (t : L2Table) (addr : ℕ) where
  -- What a deletion comes to, in a table of buckets smaller than four.
  pub data Deleted : ℤ × L2Table → Type 0 where
    missing : l2_find cpu t addr ≡ none → Deleted (neg enoent, t)
    deleted :
        (t' : L2Table) (x : ℕ)
        → l2_find cpu t addr ≡ some (t.table x).gate
        → holds (t.table x) addr ≡ true
        → (((y : ℕ) → y ≢ x → holds (t.table y) addr ≡ false) → l2_find cpu t' addr ≡ none)
        → ((a : ℕ) → a ≢ addr → l2_find cpu t' a ≡ l2_find cpu t a)
        → Deleted (pos 0, t')

  -- In a table with buckets smaller than four and more than one entry, deleting an address that
  -- l2_find does not find returns -ENOENT and leaves the table as it was. For an address that
  -- l2_find finds it returns 0, every other address keeps its gate, and the address is not found
  -- any more if the slot whose gate l2_find gave was the only one that held it.
  pub l2_del_entry-Deleted : t.bucket ≢ 4 → 1 ≤ t.size_power → Deleted (l2_del_entry cpu t addr)
  unfolding l2_del_entry del_at find_any
  l2_del_entry-Deleted small two = from (l2_find_offset cpu t addr) refl
    where
      vacated : ℕ → L2Table
      vacated x = record t {
        table = update t.table x zero_entry;
        count = u64 (t.count + 2 ^ 64 - 1);
      }

      from : (o : Option ℕ) → l2_find_offset cpu t addr ≡ o → Deleted (del_at t o)
      from none o = missing (any_find cpu t addr small ∙ ap (gate_at t) o)
      from (some x) o =
          let held = l2_find_offset-holds cpu t addr x o in
          deleted (vacated x) x (any_find cpu t addr small ∙ ap (gate_at t) o) held
            (λ once.
              any_find cpu (vacated x) addr small
              ∙ ap (gate_at (vacated x)) (
                  held_nowhere cpu (vacated x) addr (λ y.
                    update_all (λ d. holds d addr ≡ false) t.table x y zero_entry (λ _. refl)
                      (λ ne. once y (λ p. ne (sym p))))))
            (λ a ne.
              any_find cpu (vacated x) a small
              ∙ find_any-changed cpu t a x (u64 (t.count + 2 ^ 64 - 1)) zero_entry
                  (holds_one (t.table x) addr a held (λ p. ne (sym p))) refl
              ∙ sym (any_find cpu t a small))

  -- The new entry holds no other address.
  pub put_holds : (gate a : ℕ) → addr < 2 ^ 48 → a ≢ addr → (a == addr % 2 ^ 48) ≡ false
  put_holds gate a h ne = ne→== a (addr % 2 ^ 48) (λ p. ne (omega (arith, p)))

  -- In a table with buckets smaller than four whose first bucket for the address has a free slot,
  -- an addition leaves the gates of all other addresses as they were.
  pub l2_add_entry_others :
      (gate i a : ℕ)
      → t.bucket ≢ 4
      → addr < 2 ^ 48
      → free_slot t.bucket t (index_1 cpu t addr) 0 ≡ some i
      → a ≢ addr
      → l2_find cpu (l2_add_entry cpu t addr gate).1 a ≡ l2_find cpu t a
  unfolding l2_add_entry l2_find_slot add_at put_entry
  l2_add_entry_others gate i a small h open_slot ne = from (l2_find cpu t addr) refl
    where
      offset : ℕ
      offset = l2_ib_to_offset t (index_1 cpu t addr) i

      entry : L2Entry
      entry = record { addr = addr % 2 ^ 48; gate = gate % 2 ^ 15; occupied = true }

      outcome :
          l2_find cpu t addr ≡ none
          → l2_add_entry cpu t addr gate ≡ (pos 0, put_entry t offset addr gate)
      outcome e = rw (l2_add_entry, e, l2_find_slot, open_slot) refl

      from :
          (o : Option ℕ)
          → l2_find cpu t addr ≡ o
          → l2_find cpu (l2_add_entry cpu t addr gate).1 a ≡ l2_find cpu t a
      from (some g) e = rw (l2_add_entry, e) refl
      from none e =
          ap (λ (r : ℤ × L2Table). l2_find cpu r.1 a) (outcome e)
          ∙ any_find cpu (put_entry t offset addr gate) a small
          ∙ find_any-changed cpu t a offset (u64 (t.count + 1)) entry
              (ap (λ u. u && a == (t.table offset).addr)
                (free_slot_unused t.bucket t (index_1 cpu t addr) i open_slot))
              (put_holds gate a h ne)
          ∙ sym (any_find cpu t a small)
