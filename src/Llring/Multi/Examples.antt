-- ===== src/Llring/Multi/Examples.antt =====
-- core/kmod/llring.h: a producer puts two objects into a ring of four cells, and a consumer takes one.
use nfv.Base.{
  ℕ, ◌≤◌, ◌≡◌, ◌≢◌, refl, arith, true, Memory, update, List, ◌++◌, length, some, ◌==◌,
  if◌then◌else◌,
}
use nfv.Llring.{Llring, variable, fixed, enqueue_result, dequeue_result}
use nfv.Llring.Multi.{
  Shared, Producer, called, saw_head, saw_tail, copying, returned, Consumer, reserve, store,
  publish, claim, release, call, load_head, load_tail, win, copy, finish,
}
use nfv.Llring.Multi.Threads.{System, produce, consume, start, Reach, here, later}
use nfv.Llring.Multi.Reached.{IsNew, accepted, Reach-in_order}
use nfv.Llring.Multi.Races.{writes, reads, Reach-race_free}
use nfv.Llring.Multi.Settles.{Reach-settles}

abbrev four : Llring ℕ
four = record {
  slots = 4;
  mask = 3;
  sp_enqueue = true;
  sc_dequeue = true;
  watermark = 4;
  prod_head = 0;
  prod_tail = 0;
  cons_head = 0;
  cons_tail = 0;
  ring = λ _. 0;
}

four-IsNew : IsNew 2 four
four-IsNew = record {
  sized = record { small = omega arith; slots = refl; mask = refl };
  prod_head = refl;
  prod_tail = refl;
  cons_head = refl;
  cons_tail = refl;
}

abbrev none_yet : Memory ℕ
none_yet = λ _. 0

abbrev two : Memory ℕ
two = λ i. if i == 0 then 5 else 7

abbrev produced : System ℕ → Shared ℕ → Producer ℕ → System ℕ
produced s m p = record s { shared = m; producers = update s.producers 0 p }

abbrev consumed : System ℕ → Shared ℕ → Consumer ℕ → System ℕ
consumed s m c = record s { shared = m; consumers = update s.consumers 0 c }

abbrev begun : System ℕ
begun = start four none_yet

abbrev called_in : System ℕ
called_in = produced begun begun.shared (called two 2 variable)

abbrev head_in : System ℕ
head_in = produced called_in begun.shared (saw_head two 2 variable 0 0)

abbrev tail_in : System ℕ
tail_in = produced head_in begun.shared (saw_tail two 2 variable 0 0 0 0)

-- Two places are reserved and nothing is written.
abbrev won_in : System ℕ
won_in = produced tail_in (reserve 2 two begun.shared) (copying two 2 variable 3 0 0 0)

won_in-Reach : Reach begun won_in
won_in-Reach =
    later
      (later (later (later here (produce 0 (call (omega arith)))) (produce 0 load_head))
        (produce 0 load_tail))
      (produce 0 (win refl refl refl))

abbrev one_in : System ℕ
one_in = produced won_in (store 0 5 won_in.shared) (copying two 2 variable 3 0 0 1)

abbrev two_in : System ℕ
two_in = produced one_in (store 1 7 one_in.shared) (copying two 2 variable 3 0 0 2)

abbrev done_in : System ℕ
done_in =
    produced two_in (publish 0 2 two_in.shared)
      (returned (enqueue_result two_in.shared.r 3 2 variable))

done_in-Reach : Reach begun done_in
done_in-Reach =
    later
      (later (later won_in-Reach (produce 0 (copy (omega arith)))) (produce 0 (copy (omega arith))))
      (produce 0 (finish refl refl))

abbrev called_out : System ℕ
called_out = consumed done_in done_in.shared (called none_yet 1 fixed)

abbrev head_out : System ℕ
head_out = consumed called_out done_in.shared (saw_head none_yet 1 fixed 0 0)

abbrev tail_out : System ℕ
tail_out = consumed head_out done_in.shared (saw_tail none_yet 1 fixed 0 0 2 2)

abbrev won_out : System ℕ
won_out = consumed tail_out (claim 1 done_in.shared) (copying none_yet 1 fixed 0 0 0)

abbrev one_out : System ℕ
one_out = consumed won_out won_out.shared (copying (update none_yet 0 5) 1 fixed 0 0 1)

abbrev done_out : System ℕ
done_out =
    consumed one_out (release 0 1 (update none_yet 0 5) won_out.shared)
      (returned (dequeue_result 1 fixed) (update none_yet 0 5))

done_out-Reach : Reach begun done_out
done_out-Reach =
    later
      (later
        (later
          (later
            (later (later done_in-Reach (consume 0 (call (omega arith)))) (consume 0 load_head))
            (consume 0 load_tail))
          (consume 0 (win refl refl refl)))
        (consume 0 (copy (omega arith))))
      (consume 0 (finish refl refl))

Reach-in_order_example :
    (rest : List ℕ) × (accepted done_out ≡ done_out.shared.taken ++ rest) × (length rest ≤ 3)
Reach-in_order_example = Reach-in_order four none_yet four-IsNew done_out done_out-Reach

Reach-race_free_example :
    ((j : ℕ) → 0 ≢ j → writes won_in.shared.r (won_in.producers j) ≢ some 0)
    × ((j : ℕ) → reads won_in.shared.r (won_in.consumers j) ≢ some 0)
Reach-race_free_example = Reach-race_free four none_yet four-IsNew won_in won_in-Reach 0 0 refl

Reach-settles_example :
    (t : System ℕ) × Reach won_in t
    × (t.shared.reserved ≡ 2)
    × (t.shared.published ≡ 2)
    × (t.shared.claimed ≡ 0)
    × (t.shared.released ≡ 0)
Reach-settles_example = Reach-settles four none_yet four-IsNew won_in won_in-Reach
