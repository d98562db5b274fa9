-- ===== src/Llring/Dequeue.antt =====
-- core/kmod/llring.h: a dequeue takes from the front of the queue that the ring stands for.
use nfv.Base.{
  ℕ, ◌+◌, ◌%◌, ◌^◌, ◌≤◌, ◌<◌, ◌≡◌, refl, sym, ap, ap₂, ◌∙◌, ◌++◌, ltb, ltb→lt, ltb→le, lt→ltb,
  subst, ◌==◌, ==→eq, arith, if◌then◌else◌, if_split, Memory, tabulate, tabulate_congr,
  tabulate-add,
}
use nfv.Base.Int.{ℤ, pos, neg, int32}
use nfv.Base.Words.{u32, sub32}
use nfv.Llring.{
  Llring, QueueBehavior, fixed, variable, Dequeued, dequeue_ptrs, dequeue_result, entries,
  sc_commit, sc_short, sc_do_dequeue, err_noent,
}
use nfv.Llring.Contents.{slots_bounds, dequeue_ptrs_taken}
use nfv.Llring.Enqueue.{accepted, accepted_all, mask_slots}
use nfv.Llring.Invariant.{stored, IsRing, contents, IsCell-from, wrapped_index, slots_pos}

-- The answer of a dequeue of `n` objects from a ring that holds `held`.
abbrev pub dequeue_answer : QueueBehavior → (held n : ℕ) → ℤ
dequeue_answer fixed held n = if ltb held n then neg err_noent else pos 0
dequeue_answer variable held n = pos (if ltb held n then held else n)

module _ {A : Type 0} {k : ℕ} (r : Llring A) (v : IsRing k r) where
  pub entries-stored : entries r ≡ stored r
  unfolding entries
  entries-stored = ap (λ c. sub32 r.prod_tail c) v.cons_rests

  stored_small : stored r < r.slots
  stored_small = omega (arith, v.room, mask_slots r v)

  -- `m` objects, the oldest, went from the ring to the front of `obj_table`.
  pub record Removes (m : ℕ) (d : Dequeued A) : Type 0 where
    pub front : contents r ≡ tabulate m d.obj_table ++ contents d.after
    pub rests : IsRing k d.after

  module _ (obj : Memory A) (m : ℕ) (fits : m ≤ stored r) (b : QueueBehavior) where
    abbrev next : Llring A
    next = (sc_commit r obj m b).after

    stored-next : stored next + m ≡ stored r
    unfolding sc_commit
    stored-next =
        let z = slots_bounds r v.sized in
        omega (arith, v.cons_rests, v.room, v.prod_word, v.cons_word, mask_slots r v)

    commit-Removes : Removes m (sc_commit r obj m b)
    unfolding sc_commit contents
    commit-Removes = record {
      front =
          let s = r.slots in
          let cell = λ (i : ℕ). r.ring ((r.cons_tail + i) % s) in
          ap (λ c. tabulate c cell) (omega (arith, stored-next))
          ∙ tabulate-add m (stored next) cell
          ∙ ap₂ ◌++◌
              (tabulate_congr m cell (dequeue_ptrs r obj r.cons_head m) (λ i taken.
                ap (λ h. r.ring ((h + i) % s)) (sym v.cons_rests)
                ∙ sym (
                    dequeue_ptrs_taken r v.sized obj r.cons_head m (omega (arith, stored_small)) i _
                      (IsCell-from s r.cons_head i (slots_pos r v) (omega (arith, stored_small)))
                      taken)))
              (tabulate_congr (stored next) (λ i. cell (m + i)) _
                (λ i _. ap r.ring (
                  sym (wrapped_index r v.sized r.cons_tail m i)
                  ∙ ap (λ h. (u32 (h + m) + i) % s) (sym v.cons_rests))));
      rests = record {
        sized = record { small = v.sized.small; slots = v.sized.slots; mask = v.sized.mask };
        prod_rests = v.prod_rests;
        cons_rests = refl;
        prod_word = v.prod_word;
        cons_word = omega arith;
        room = omega (arith, stored-next, v.room);
      };
    }

  nothing-Removes :
      (ret : ℤ) (obj : Memory A) → Removes 0 (record { ret = ret; obj_table = obj; after = r })
  nothing-Removes ret obj = record { front = refl; rests = v }

  short-Removes :
      (obj : Memory A) (n : ℕ) (b : QueueBehavior)
      → entries r < n
      → Removes (accepted b (entries r) n) (sc_short r obj (entries r) b)
  unfolding sc_short
  short-Removes obj n fixed over = rw (lt→ltb _ _ over) (nothing-Removes _ obj)
  short-Removes obj n variable over = rw (lt→ltb _ _ over) (
      if_split (Removes (entries r)) (entries r == 0)
        (λ none.
          subst (λ m. Removes m (record { ret = pos 0; obj_table = obj; after = r }))
            (sym (==→eq _ _ none)) (nothing-Removes (pos 0) obj))
        (λ some. commit-Removes obj (entries r) (omega (arith, entries-stored)) variable))

  -- On a ring at rest a dequeue moves the oldest objects, in order, to the front of obj_table: all
  -- or none of those asked for with the fixed behaviour, as many as there are with the variable
  -- one. The others stay in order, and the ring is at rest afterwards.
  pub sc_do_dequeue-Removes :
      (obj : Memory A) (n : ℕ) (b : QueueBehavior)
      → Removes (accepted b (entries r) n) (sc_do_dequeue r obj n b)
  unfolding sc_do_dequeue
  sc_do_dequeue-Removes obj n b =
      if_split (Removes (accepted b (entries r) n)) (ltb (entries r) n)
        (λ over. short-Removes obj n b (ltb→lt _ _ over))
        (λ fits.
          subst (λ m. Removes m (sc_commit r obj n b)) (sym (accepted_all b (entries r) n fits))
            (commit-Removes obj n (omega (arith, ltb→le _ _ fits, entries-stored)) b))

  int32_small : (m : ℕ) → m ≤ stored r → int32 m ≡ pos m
  int32_small m h =
      let few : m < 2 ^ 31 = omega (arith, stored_small, slots_bounds r v.sized) in
      rw (lt→ltb m (2 ^ 31) few)

  -- On a ring at rest a bulk dequeue returns 0 if the ring holds enough objects and
  -- -LLRING_ERR_NOENT if not; a burst returns the number of objects that it moves.
  pub sc_do_dequeue-answer :
      (obj : Memory A) (n : ℕ) (b : QueueBehavior)
      → (sc_do_dequeue r obj n b).ret ≡ dequeue_answer b (stored r) n
  unfolding sc_do_dequeue sc_short sc_commit dequeue_result
  sc_do_dequeue-answer obj n fixed = ground (arith, entries-stored)
  sc_do_dequeue-answer obj n variable =
      ground (arith, entries-stored, int32_small n, int32_small (entries r))
