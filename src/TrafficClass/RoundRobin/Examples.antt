-- ===== src/TrafficClass/RoundRobin/Examples.antt =====
-- Theorems on the round-robin class of core/traffic_class.cc at a concrete class.
use nfv.Base.{◌≡◌, refl, true, false, [], ◌∷◌, arith, some, update, inl}
use nfv.TrafficClass.{Classes}
use nfv.TrafficClass.RoundRobin.{RoundRobin, block, unblock, finish_and_account, pick_next_child}
use nfv.TrafficClass.RoundRobin.Order.{order, IsIndex}
use nfv.TrafficClass.RoundRobin.Blocking.{block-order, unblock-order}
use nfv.TrafficClass.RoundRobin.Finish.{finish_and_account-order}

-- Class 0 has the children 1 to 4; 2 has become blocked, and 4 is not blocked any more.
abbrev classes : Classes
classes = record { parent = λ child. some 0; blocked = update (λ child. false) 2 true }

abbrev round_robin : RoundRobin
round_robin = record {
  next_child = 1;
  runnable_children = 1 ∷ 2 ∷ 3 ∷ [];
  blocked_children = 4 ∷ [];
  all_children = 1 ∷ 2 ∷ 3 ∷ 4 ∷ [];
}

block-order_example :
    (order (block 0 classes round_robin).2 ≡ 3 ∷ 1 ∷ [])
    × IsIndex
        (block 0 classes round_robin).2.next_child
        (block 0 classes round_robin).2.runnable_children
block-order_example = block-order 0 classes round_robin (inl (omega arith))

unblock-order_example :
    (order (unblock 0 classes round_robin).2 ≡ 2 ∷ 3 ∷ 4 ∷ 1 ∷ [])
    × ((unblock 0 classes round_robin).2.blocked_children ≡ [])
    × IsIndex
        (unblock 0 classes round_robin).2.next_child
        (unblock 0 classes round_robin).2.runnable_children
unblock-order_example = unblock-order 0 classes round_robin (inl (omega arith))

finish_and_account-order_example :
    (order round_robin ≡ 2 ∷ 3 ∷ 1 ∷ [])
    × (order (finish_and_account 0 2 1 classes round_robin).1 ≡ 3 ∷ 1 ∷ [])
unfolding pick_next_child
finish_and_account-order_example =
    finish_and_account-order 0 2 classes round_robin refl (omega arith)
