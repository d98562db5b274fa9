-- ===== src/Llring/Enqueue.antt =====
-- core/kmod/llring.h: an enqueue appends to the queue that the ring stands for.
use nfv.Base.{
  ℕ, suc, ◌+◌, ◌-◌, ◌%◌, ◌≤◌, ◌<◌, ◌≡◌, refl, sym, ap, ap₂, ◌∙◌, false, ◌++◌, ltb, ltb→lt, ltb→le,
  lt→ltb, subst, ◌==◌, ==→eq, arith, if◌then◌else◌, if_split, Memory, tabulate, tabulate_congr,
  tabulate-add, append-nil,
}
use nfv.Base.Int.{ℤ}
use nfv.Llring.{
  Llring, QueueBehavior, fixed, variable, enqueue_ptrs, free_entries, sp_commit, sp_full,
  sp_do_enqueue,
}
use nfv.Llring.Contents.{slots_bounds, enqueue_ptrs_new, enqueue_ptrs_old}
use nfv.Llring.Invariant.{
  stored, IsRing, contents, IsCell-from, prod_index, slots_pos, stored-IsCell,
}

-- How many of `n` objects a ring with `free` free cells takes.
abbrev pub accepted : QueueBehavior → ℕ → ℕ → ℕ
accepted fixed free n = if ltb free n then 0 else n
accepted variable free n = if ltb free n then free else n

pub accepted_all : (b : QueueBehavior) (free n : ℕ) → ltb free n ≡ false → accepted b free n ≡ n
accepted_all fixed free n h = rw h
accepted_all variable free n h = rw h

module _ {A : Type 0} {k : ℕ} (r : Llring A) (v : IsRing k r) where
  pub mask_slots : suc r.mask ≡ r.slots
  mask_slots = omega (arith, v.sized.mask, slots_pos r v)

  -- One cell stays unused.
  pub free_entries_lem : free_entries r + stored r ≡ r.mask
  unfolding free_entries
  free_entries_lem =
      let b = slots_bounds r v.sized in
      omega (arith, v.prod_rests, v.room, v.prod_word, v.cons_word, mask_slots)

  module _ (obj : Memory A) (n : ℕ) (fits : n ≤ free_entries r) (b : QueueBehavior) where
    abbrev next : Llring A
    next = (sp_commit r obj (free_entries r) n b).1

    stored-next : stored next ≡ stored r + n
    unfolding sp_commit
    stored-next =
        let z = slots_bounds r v.sized in
        omega (arith, v.prod_rests, v.room, v.prod_word, v.cons_word, mask_slots, free_entries_lem)

    commit-IsRing : IsRing k next
    unfolding sp_commit
    commit-IsRing = record {
      sized = record { small = v.sized.small; slots = v.sized.slots; mask = v.sized.mask };
      prod_rests = refl;
      cons_rests = v.cons_rests;
      prod_word = omega arith;
      cons_word = v.cons_word;
      room = omega (arith, stored-next, free_entries_lem);
    }

    commit-contents : contents next ≡ contents r ++ tabulate n obj
    unfolding sp_commit contents
    commit-contents =
        let s = r.slots in
        let cell = λ (m : Memory A) (i : ℕ). m ((r.cons_tail + i) % s) in
        let after = enqueue_ptrs r obj r.prod_head n in
        let room : stored r + n < s = omega (arith, free_entries_lem, mask_slots) in
        ap (λ c. tabulate c (cell after)) stored-next
        ∙ tabulate-add (stored r) n (cell after)
        ∙ ap₂ ◌++◌
            (tabulate_congr (stored r) (cell after) (cell r.ring) (λ i old.
              enqueue_ptrs_old r v.sized obj r.prod_head n (omega arith) (s - stored r + i) _
                (stored-IsCell r v i old) (omega arith) (omega arith)))
            (tabulate_congr n (λ j. cell after (stored r + j)) obj
              (λ j new.
                ap after (prod_index r v j)
                ∙ enqueue_ptrs_new r v.sized obj r.prod_head n (omega arith) j _
                    (IsCell-from s r.prod_head j (slots_pos r v) (omega arith)) new))

  -- `r'` holds the first `m` objects behind those of `r`, and is at rest.
  abbrev pub Appends : Memory A → ℕ → Llring A → Type 0
  Appends obj m r' = (contents r' ≡ contents r ++ tabulate m obj) × IsRing k r'

  nothing-Appends : (obj : Memory A) → Appends obj 0 r
  nothing-Appends obj = (sym (append-nil (contents r)), v)

  full-Appends :
      (obj : Memory A) (n : ℕ) (b : QueueBehavior)
      → free_entries r < n
      → Appends obj (accepted b (free_entries r) n) (sp_full r obj (free_entries r) b).1
  unfolding sp_full
  full-Appends obj n fixed over = rw (lt→ltb _ _ over) (nothing-Appends obj)
  full-Appends obj n variable over = rw (lt→ltb _ _ over) (
      if_split (λ (x : ℤ × Llring A). Appends obj (free_entries r) x.1) (free_entries r == 0)
        (λ none. subst (λ m. Appends obj m r) (sym (==→eq _ _ none)) (nothing-Appends obj))
        (λ some. (
          commit-contents obj (free_entries r) (omega arith) variable,
          commit-IsRing obj (free_entries r) (omega arith) variable,
        )))

  -- On a ring at rest an enqueue appends a prefix of the objects to the queue: all or none of them
  -- with the fixed behaviour, as many as there are free cells with the variable one. The ring is
  -- at rest afterwards.
  pub sp_do_enqueue-Appends :
      (obj : Memory A) (n : ℕ) (b : QueueBehavior)
      → Appends obj (accepted b (free_entries r) n) (sp_do_enqueue r obj n b).1
  unfolding sp_do_enqueue
  sp_do_enqueue-Appends obj n b =
      if_split (λ (x : ℤ × Llring A). Appends obj (accepted b (free_entries r) n) x.1)
        (ltb (free_entries r) n) (λ over. full-Appends obj n b (ltb→lt _ _ over))
        (λ fits.
          let f = ltb→le _ _ fits in
          subst (λ m. Appends obj m (sp_commit r obj (free_entries r) n b).1)
            (sym (accepted_all b (free_entries r) n fits))
            (commit-contents obj n f b, commit-IsRing obj n f b))
