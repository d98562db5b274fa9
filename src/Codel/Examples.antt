-- ===== src/Codel/Examples.antt =====
-- Runs of the queue of core/utils/codel.h, and its theorems at concrete queues.
use nfv.Base.{ℕ, ◌+◌, ◌*◌, ◌/◌, ◌≡◌, refl, true, false, none, some, [], ◌∷◌, arith}
use nfv.Base.Int.{negsuc}
use nfv.Codel.{
  Platform, Wrapper, Codel, tick, drop_entry, count_drop, judge, hand_out, push_all, dequeue_from,
  ring_dequeue, next_drop, after_drop, drop_loop, drop_fuel, drop_dequeue, pop_entry, pop_taken,
  pop,
}
use nfv.Codel.Loss.{Pops, pop-Pops}
use nfv.Codel.Steps.{objects}
use nfv.Codel.Latency.{HandsOut, pop-HandsOut}
use nfv.Codel.Pacing.{Paced, drop_dequeue-Paced}
use nfv.Codel.Bounds.{Bounded, pushes, pops, resizes, run, run-Bounded, Takes, push_all-Takes}

-- The clock moves by 10 with each reading.
abbrev slow : Platform
slow = record { clock = λ i. i * 10; drop_after = λ t w n. t + w / n; deque_max = 100 }

abbrev at_time : ℕ → ℕ → Wrapper ℕ
at_time t n = record { first = t; second = n }

-- In the dropping state, with three entries that waited for long.
abbrev late : Codel ℕ
late = record {
  delay_target = 5;
  window = 100;
  time_above_target = 20;
  next_drop_time = 400;
  drop_count = 1;
  dropping = true;
  max_size = 4;
  queue = at_time 10 1 ∷ at_time 20 2 ∷ at_time 539 3 ∷ [];
  has_drop_func = true;
  dropped = [];
  reads = 50;
}

abbrev fresh : Codel ℕ
fresh = record late { queue = at_time 498 1 ∷ at_time 499 2 ∷ [] }

-- Drops are due up to time 500, so all three entries go, though the last one waited for 1 only.
pop-late :
    pop slow late
    ≡ some (record {
      err = negsuc 0;
      obj = none;
      after = record late {
        queue = [];
        dropping = false;
        time_above_target = 0;
        dropped = 1 ∷ 2 ∷ 3 ∷ [];
        drop_count = 4;
        next_drop_time = 483;
        reads = 55;
      };
    })
unfolding pop pop_taken pop_entry drop_dequeue drop_loop after_drop count_drop drop_entry
    ring_dequeue dequeue_from judge tick hand_out next_drop drop_fuel
pop-late = refl

pop-Pops_example : Pops slow (objects late) late (negsuc 0) (pop slow late)
pop-Pops_example = pop-Pops slow late

pop-HandsOut_example : HandsOut slow (at_time 498 1) (at_time 499 2 ∷ []) [] (pop slow fresh)
pop-HandsOut_example =
    pop-HandsOut slow fresh (at_time 498 1) (at_time 499 2 ∷ []) refl (omega arith)

drop_dequeue-Paced_example : Paced slow 500 (drop_dequeue slow (at_time 0 0) true late)
drop_dequeue-Paced_example = drop_dequeue-Paced slow (at_time 0 0) late refl

run-Bounded_example : Bounded (run slow late (pushes 4 ∷ pushes 5 ∷ pops ∷ resizes 9 ∷ []))
run-Bounded_example =
    run-Bounded slow late (pushes 4 ∷ pushes 5 ∷ pops ∷ resizes 9 ∷ []) (λ _. omega arith)

push_all-Takes_example : Takes slow late (4 ∷ 5 ∷ []) (push_all slow (4 ∷ 5 ∷ []) late)
push_all-Takes_example = push_all-Takes slow (4 ∷ 5 ∷ []) late
