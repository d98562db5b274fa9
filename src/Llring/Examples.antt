-- ===== src/Llring/Examples.antt =====
-- Runs of the ring of core/kmod/llring.h, and its theorems at concrete rings.
use nfv.Base.{ℕ, ◌+◌, ◌-◌, ◌^◌, ◌≡◌, refl, true, List, [], ◌∷◌, ◌++◌, tabulate, arith, Memory}
use nfv.Base.Int.{neg}
use nfv.Llring.{
  Llring, fixed, variable, copy, copy_quads, copy_straight, enqueue_ptrs, free_entries, sp_commit,
  sp_do_enqueue, entries, sc_do_dequeue,
}
use nfv.Llring.Invariant.{IsRing, contents}
use nfv.Llring.Enqueue.{sp_do_enqueue-Appends}
use nfv.Llring.Returns.{sp_do_enqueue-answer}
use nfv.Llring.Dequeue.{Removes, sc_do_dequeue-Removes, sc_do_dequeue-answer}
use nfv.Llring.Refines.{Op, enqueues, dequeues, run, queue_run, run-queue_run}

-- Eight cells, with four objects (15 to 18) and both indices about to wrap around.
abbrev wrapping : Llring ℕ
wrapping = record {
  slots = 8;
  mask = 7;
  sp_enqueue = true;
  sc_dequeue = true;
  watermark = 8;
  prod_head = 1;
  prod_tail = 1;
  cons_head = 2 ^ 32 - 3;
  cons_tail = 2 ^ 32 - 3;
  ring = λ i. i + 10;
}

wrapping-IsRing : IsRing 3 wrapping
wrapping-IsRing = record {
  sized = record { small = omega arith; slots = refl; mask = refl };
  prod_rests = refl;
  cons_rests = refl;
  prod_word = omega arith;
  cons_word = omega arith;
  room = omega arith;
}

abbrev from_hundred : Memory ℕ
from_hundred = λ i. i + 100

-- Three more objects fit, and the queue keeps its order over the end of the array.
push_three :
    contents (sp_do_enqueue wrapping from_hundred 3 fixed).1
    ≡ 15 ∷ 16 ∷ 17 ∷ 10 ∷ 100 ∷ 101 ∷ 102 ∷ []
unfolding contents sp_do_enqueue free_entries sp_commit enqueue_ptrs copy_straight copy copy_quads
push_three = refl

abbrev history : List (Op ℕ)
history = enqueues from_hundred 5 variable ∷ dequeues from_hundred 2 fixed ∷ []

sp_do_enqueue-Appends_example :
    contents (sp_do_enqueue wrapping from_hundred 3 fixed).1
    ≡ contents wrapping ++ tabulate 3 from_hundred
unfolding free_entries
sp_do_enqueue-Appends_example =
    (sp_do_enqueue-Appends wrapping wrapping-IsRing from_hundred 3 fixed).0

sp_do_enqueue-answer_example : (sp_do_enqueue wrapping from_hundred 5 fixed).0 ≡ neg 1
unfolding free_entries
sp_do_enqueue-answer_example =
    (sp_do_enqueue-answer wrapping wrapping-IsRing from_hundred 5 fixed).1 (omega arith)

sc_do_dequeue-Removes_example :
    Removes wrapping wrapping-IsRing 4 (sc_do_dequeue wrapping from_hundred 6 variable)
unfolding entries
sc_do_dequeue-Removes_example =
    sc_do_dequeue-Removes wrapping wrapping-IsRing from_hundred 6 variable

sc_do_dequeue-answer_example : (sc_do_dequeue wrapping from_hundred 6 fixed).ret ≡ neg 3
sc_do_dequeue-answer_example = sc_do_dequeue-answer wrapping wrapping-IsRing from_hundred 6 fixed

run-queue_run_example : run wrapping history ≡ queue_run 7 (contents wrapping) history
run-queue_run_example = run-queue_run wrapping history wrapping-IsRing
