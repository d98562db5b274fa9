-- ===== src/TrafficClass/WeightedFair/Examples.antt =====
-- Runs of the weighted-fair class of core/traffic_class.cc.
use nfv.Base.{◌+◌, ◌^◌, ◌≤◌, ◌≡◌, refl, arith, false, some, [], ◌∷◌, if◌then◌else◌, ◌==◌}
use nfv.PriorityQueue.{
  push, set_top, sift_up, sift_down, decrease_key_top, find_if, delete_single_element,
  make_heap_below,
}
use nfv.PriorityQueue.Heap.{IsHeap}
use nfv.TrafficClass.{Classes}
use nfv.TrafficClass.WeightedFair.{
  ChildData, WeightedFair, block, unblock, unblock_loop, finish_and_account, pick_next_child,
}
use nfv.TrafficClass.WeightedFair.Fair.{nil, IsFair}
use nfv.TrafficClass.WeightedFair.History.{Turns, none_yet, then_turn, finishes, Turns-fair}

-- Children 1 and 2, at passes 5000 and 7000; child 1 has twice the share.
abbrev one : ChildData
one = record { stride = 2 ^ 19; pass = 5000; c = 1 }

abbrev two : ChildData
two = record { stride = 2 ^ 20; pass = 7000; c = 2 }

abbrev pair : WeightedFair
pair = record {
  runnable_children = record { len = 2; v = λ i. if i == 0 then one else two };
  blocked_children = [];
  all_children = (1, 2) ∷ (2, 1) ∷ [];
}

abbrev all_run : Classes
all_run = record { parent = λ _. some 0; blocked = λ _. false }

abbrev second_blocked : Classes
second_blocked = record { parent = λ _. some 0; blocked = λ x. x == 2 }

pair-IsFair : IsFair 5000 pair
unfolding IsHeap
pair-IsFair = record {
  close = record {
    heap = λ p i down low. ground arith;
    close = λ i low. ground arith;
    small = λ i low. ground arith;
  };
  owed = nil;
}

served : Turns 5000 0 pair (finish_and_account 0 1 8 all_run pair).1
unfolding pick_next_child
served = then_turn none_yet (finishes all_run 1 8 refl (omega arith) (omega arith, omega arith))

-- Child 1 ran for 8 units, and child 2 is next.
second_next : pick_next_child (finish_and_account 0 1 8 all_run pair).1 ≡ some 2
unfolding finish_and_account pick_next_child set_top decrease_key_top sift_down
second_next = refl

Turns-fair_example :
    let x = (finish_and_account 0 1 8 all_run pair).1.runnable_children in
    ((x.v 0).pass ≤ (x.v 1).pass + 5000) × ((x.v 0).pass ≤ (x.v 0).pass)
unfolding finish_and_account set_top
Turns-fair_example =
    Turns-fair 5000 0 pair (finish_and_account 0 1 8 all_run pair).1 served pair-IsFair 0 1
      (omega arith) (omega arith)

-- Child 2 is blocked by a call from below and unblocked: its own pass is added to the next one.
counted_twice :
    (unblock 0 all_run (block 0 second_blocked pair).2).2.runnable_children.v 1
    ≡ record two { pass = 12000 }
unfolding unblock unblock_loop block delete_single_element find_if make_heap_below sift_down push
    sift_up
counted_twice = refl
