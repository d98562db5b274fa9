-- ===== src/TrafficClass/Priority/Examples.antt =====
-- Theorems on the priority class of core/traffic_class.cc at a concrete class.
use nfv.Base.{refl, true, false, List, [], ◌∷◌, arith, some, update}
use mathlib.Core.List.{Perm}
use nfv.TrafficClass.{Classes}
use nfv.TrafficClass.Priority.{
  Priority, ChildData, insert_sorted, has_priority, block, unblock, pick_next_child,
}
use nfv.TrafficClass.Priority.Sorted.{Ascends, nil, cons, insert_sorted-Ascends}
use nfv.TrafficClass.Priority.Pick.{start, next, Picked, unblock-Picked, block-Picked}

-- Children 5, 6 and 7 with priorities 1, 4 and 9, of which 5 is blocked.
abbrev classes : Classes
classes = record { parent = λ child. some 0; blocked = update (λ child. false) 5 true }

abbrev children : List ChildData
children =
    record { priority = 1; c = 5 }
    ∷ record { priority = 4; c = 6 }
    ∷ record { priority = 9; c = 7 }
    ∷ []

abbrev class : Priority
class = record { first_runnable = 1; children = children }

children-Ascends : Ascends 0 children
children-Ascends = cons (omega arith) (cons (omega arith) (cons (omega arith) nil))

insert_sorted-Ascends_example :
    Ascends 0 (insert_sorted children (record { priority = 3; c = 8 }))
    × Perm
        (insert_sorted children (record { priority = 3; c = 8 }))
        (record { priority = 3; c = 8 } ∷ children)
unfolding has_priority
insert_sorted-Ascends_example =
    insert_sorted-Ascends children (record { priority = 3; c = 8 }) children-Ascends refl

block-Picked_example : Picked classes.blocked children (pick_next_child (block 0 classes class).2)
block-Picked_example = block-Picked 0 classes class children-Ascends (next refl start)

unblock-Picked_example :
    Picked classes.blocked children (pick_next_child (unblock 0 classes class).2)
unblock-Picked_example = unblock-Picked 0 classes class children-Ascends
