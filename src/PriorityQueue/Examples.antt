-- ===== src/PriorityQueue/Examples.antt =====
-- core/utils/extended_priority_queue.h at a heap of five numbers, the least on top.
use nfv.Base.{ℕ, ◌+◌, ◌<◌, ◌≡◌, refl, arith, Bool, false, Memory, update, ltb, [], ◌∷◌, tabulate}
use nfv.PriorityQueue.{sift_down, decrease_key_top}
use nfv.PriorityQueue.Heap.{IsRanking, IsHeap, Permutes}
use nfv.PriorityQueue.Top.{decrease_key_top-IsHeap}

-- The queue's comparison: greater numbers are less.
abbrev after : ℕ → ℕ → Bool
after a b = ltb b a

after-IsRanking : IsRanking after
after-IsRanking = record { one_way = λ a b e. ground arith; through = λ a b c e f. ground arith }

-- 1, 2, 3, 4, 5
abbrev five : Memory ℕ
five i = i + 1

five-IsHeap : IsHeap after 5 five
unfolding IsHeap
five-IsHeap p i down low = ground arith

-- The top goes from 1 to 9 and sinks to the bottom.
sunk : tabulate 5 (decrease_key_top after 5 (update five 0 9)) ≡ 2 ∷ 4 ∷ 3 ∷ 9 ∷ 5 ∷ []
unfolding decrease_key_top sift_down
sunk = refl

decrease_key_top-IsHeap_example :
    IsHeap after 5 (decrease_key_top after 5 (update five 0 9))
    × Permutes 5 (update five 0 9) (decrease_key_top after 5 (update five 0 9))
    × ((i : ℕ)
        → i < 5
        → after
            (decrease_key_top after 5 (update five 0 9) 0)
            (decrease_key_top after 5 (update five 0 9) i)
          ≡ false)
decrease_key_top-IsHeap_example = decrease_key_top-IsHeap after after-IsRanking 5 five 9 five-IsHeap
