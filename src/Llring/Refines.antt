-- ===== src/Llring/Refines.antt =====
-- core/kmod/llring.h: the ring refines a bounded first-in first-out queue, over every history of
-- enqueues and dequeues.
use nfv.Base.{
  ℕ, ◌-◌, ◌≡◌, refl, sym, ap, ap₂, ◌∙◌, List, [], ◌∷◌, ◌++◌, arith, Memory, tabulate, length, take,
  drop, take-tabulate_append, drop-tabulate_append,
}
use nfv.Llring.{Llring, QueueBehavior, free_entries, entries, sp_do_enqueue, sc_do_dequeue}
use nfv.Llring.Enqueue.{accepted, free_entries_lem, sp_do_enqueue-Appends}
use nfv.Llring.Dequeue.{entries-stored, sc_do_dequeue-Removes}
use nfv.Llring.Counts.{length-contents}
use nfv.Llring.Invariant.{IsRing, contents}

-- A call, with the caller's array: the objects to enqueue, or where dequeued ones go.
pub data Op (A : Type 0) : Type 0 where
  enqueues dequeues : Memory A → ℕ → QueueBehavior → Op A

module _ {A : Type 0} where
  -- A call on the ring: the objects that it hands out, and the ring after.
  pub step : Llring A → Op A → List A × Llring A
  step r (enqueues obj n b) = ([], (sp_do_enqueue r obj n b).1)
  step r (dequeues obj n b) =
      let d = sc_do_dequeue r obj n b in (tabulate (accepted b (entries r) n) d.obj_table, d.after)

  -- The same on a queue of at most `room` objects.
  pub queue_step : ℕ → List A → Op A → List A × List A
  queue_step room xs (enqueues obj n b) = ([], xs ++ tabulate (accepted b (room - length xs) n) obj)
  queue_step room xs (dequeues obj n b) = let m = accepted b (length xs) n in (take m xs, drop m xs)

  pub run : Llring A → List (Op A) → List A
  run r [] = []
  run r (op ∷ ops) = let (out, r') = step r op in out ++ run r' ops

  pub queue_run : ℕ → List A → List (Op A) → List A
  queue_run room xs [] = []
  queue_run room xs (op ∷ ops) =
      let (out, xs') = queue_step room xs op in out ++ queue_run room xs' ops

-- The two steps agree, and the ring is at rest again with the same size.
record Agrees {A : Type 0} (k : ℕ) (r : Llring A) (op : Op A) : Type 0 where
  out : (step r op).0 ≡ (queue_step r.mask (contents r) op).0
  after : contents (step r op).1 ≡ (queue_step r.mask (contents r) op).1
  rests : IsRing k (step r op).1

module _ {A : Type 0} {k : ℕ} where
  same_mask : (r s : Llring A) → IsRing k r → IsRing k s → s.mask ≡ r.mask
  same_mask r s v w = omega (arith, v.sized.mask, v.sized.slots, w.sized.mask, w.sized.slots)

  enqueue-Agrees :
      (r : Llring A) (obj : Memory A) (n : ℕ) (b : QueueBehavior)
      → IsRing k r
      → Agrees k r (enqueues obj n b)
  unfolding step queue_step
  enqueue-Agrees r obj n b v =
      let (appended, rests) = sp_do_enqueue-Appends r v obj n b in
      let free : free_entries r ≡ r.mask - length (contents r) =
        omega (arith, free_entries_lem r v, length-contents r v) in
      record {
        out = refl;
        after = appended ∙ ap (λ f. contents r ++ tabulate (accepted b f n) obj) free;
        rests = rests;
      }

  dequeue-Agrees :
      (r : Llring A) (obj : Memory A) (n : ℕ) (b : QueueBehavior)
      → IsRing k r
      → Agrees k r (dequeues obj n b)
  unfolding step queue_step
  dequeue-Agrees r obj n b v =
      let s = sc_do_dequeue-Removes r v obj n b in
      let d = sc_do_dequeue r obj n b in
      let m = accepted b (entries r) n in
      let held : length (contents r) ≡ entries r = length-contents r v ∙ sym (entries-stored r v) in
      record {
        out =
            sym (take-tabulate_append m d.obj_table (contents d.after))
            ∙ ap₂ (λ e xs. take (accepted b e n) xs) (sym held) (sym s.front);
        after =
            sym (drop-tabulate_append m d.obj_table (contents d.after))
            ∙ ap₂ (λ e xs. drop (accepted b e n) xs) (sym held) (sym s.front);
        rests = s.rests;
      }

  step-Agrees : (r : Llring A) (op : Op A) → IsRing k r → Agrees k r op
  step-Agrees r (enqueues obj n b) v = enqueue-Agrees r obj n b v
  step-Agrees r (dequeues obj n b) v = dequeue-Agrees r obj n b v

  -- On a ring at rest whose number of slots is 2^k, k at most 31, every history of single-producer
  -- enqueues and single-consumer dequeues (bulk or burst) hands out exactly the objects, in order,
  -- that a first-in first-out queue with `mask` places hands out, wherever the 32-bit indices
  -- stand and whether or not they wrap around.
  pub run-queue_run :
      (r : Llring A) (ops : List (Op A))
      → IsRing k r
      → run r ops ≡ queue_run r.mask (contents r) ops
  unfolding run queue_run
  run-queue_run r [] v = refl
  run-queue_run r (op ∷ ops) v =
      let a = step-Agrees r op v in
      ap₂ ◌++◌ a.out (
        run-queue_run (step r op).1 ops a.rests
        ∙ ap₂ (λ m xs. queue_run m xs ops) (same_mask r _ v a.rests) a.after)
