-- ===== src/TrafficClass/WeightedFair/Fair.antt =====
-- core/traffic_class.cc: the passes of the runnable children of a weighted-fair class stay close.
use nfv.Base.{
  ℕ, ◌+◌, ◌-◌, ◌^◌, ◌≤◌, ◌<◌, ◌≡◌, ◌≢◌, sym, subst, ◌⊎◌, inl, inr, arith, Bool, not, Memory, List,
  [], ◌∷◌, ◌++◌, if_split, ◌==◌, ==→eq, ==→ne, Bool-cases,
}
use nfv.Base.Words.{u64}
use nfv.PriorityQueue.{Queue, push, pop, set_top}
use nfv.PriorityQueue.Heap.{IsRanking}
use nfv.PriorityQueue.Top.{top_largest}
use nfv.PriorityQueue.Operations.{
  IsQueue, Permutes-all, Permutes-any, push-IsQueue, pop-IsQueue, set_top-IsQueue,
}
use nfv.TrafficClass.WeightedFair.{ChildData, less, WeightedFair, next_pass, unblock_loop}

less-IsRanking : IsRanking less
less-IsRanking = record { one_way = λ a b e. ground arith; through = λ a b c e f. ground arith }

-- Passes in order: none is less than the first, and none is more than `d` ahead of it. No pass
-- reaches 2^63, where the signed comparison would turn.
pub record IsClose (d : ℕ) (q : Queue ChildData) : Type 0 where
  pub heap : IsQueue less q
  pub close : (i : ℕ) → i < q.len → (q.v i).pass ≤ next_pass q + d
  pub small : (i : ℕ) → i < q.len → (q.v i).pass < 2 ^ 63

-- The first pass is the least.
first_least :
    (q : Queue ChildData)
    → IsQueue less q
    → ((i : ℕ) → i < q.len → (q.v i).pass < 2 ^ 63)
    → (i : ℕ) → i < q.len
    → (q.v 0).pass ≤ (q.v i).pass
first_least q heap small i low =
    let e = top_largest less less-IsRanking q.len i i q.v (omega arith) heap low in
    let a = small i low in let b = small 0 (omega arith) in ground arith

-- A queue whose passes lie in a window of `d` is close.
window :
    (d base : ℕ) (q : Queue ChildData)
    → base + d < 2 ^ 63
    → IsQueue less q
    → ((i : ℕ) → i < q.len → (base ≤ (q.v i).pass) × ((q.v i).pass ≤ base + d))
    → IsClose d q
window d base q room heap within = record {
  heap = heap;
  close = λ i low.
      let a = within i low in
      let b = within 0 (omega arith) in
      subst (λ n. (q.v i).pass ≤ n + d) (sym (next_pass_some q (omega arith))) (omega arith);
  small = λ i low. let a = within i low in omega arith;
}
  where
    next_pass_some : (q : Queue ChildData) → q.len ≢ 0 → next_pass q ≡ (q.v 0).pass
    next_pass_some q ne = ground arith

pub next_pass_first : (q : Queue ChildData) → q.len ≢ 0 → next_pass q ≡ (q.v 0).pass
next_pass_first q ne = ground arith

next_pass_empty : (q : Queue ChildData) → q.len ≡ 0 → next_pass q ≡ 0
next_pass_empty q e = ground arith

-- The passes of a close queue start at the next one.
pub least :
    (d : ℕ) (q : Queue ChildData) → IsClose d q → (i : ℕ) → i < q.len → next_pass q ≤ (q.v i).pass
least d q v i low =
    let a = first_least q v.heap v.small i low in
    let e = next_pass_first q (omega arith) in omega arith

-- A child that comes in is at most `d` behind the next one.
module _ (d : ℕ) (y : ChildData) (q : Queue ChildData) (v : IsClose d q)
    (room : next_pass q + d < 2 ^ 63) (low : next_pass q ≤ y.pass)
    (high : y.pass ≤ next_pass q + d) where
  within :
      (i : ℕ)
      → i < q.len + 1
      → (next_pass q ≤ ((push less y q).v i).pass) × (((push less y q).v i).pass ≤ next_pass q + d)
  within =
      Permutes-all (λ (z : ChildData). (next_pass q ≤ z.pass) × (z.pass ≤ next_pass q + d))
        (q.len + 1) (push-IsQueue less less-IsRanking y q v.heap).1
        (λ i near.
          if_split (λ (z : ChildData). (next_pass q ≤ z.pass) × (z.pass ≤ next_pass q + d))
            (i == q.len) (λ _. (low, high))
            (λ old.
              let ne = ==→ne i q.len old in (least d q v i (omega arith), v.close i (omega arith))))

  pub push-IsClose : IsClose d (push less y q)
  unfolding push
  push-IsClose =
      window d (next_pass q) (push less y q) room (push-IsQueue less less-IsRanking y q v.heap).0
        within

  -- The next pass stays, unless the queue was empty.
  pub next_pass-push : (next_pass (push less y q) ≤ next_pass q) ⊎ (next_pass (push less y q) ≤ d)
  unfolding push
  next_pass-push = elim (Bool-cases (q.len == 0)) [
    | inl none_there ↦
        let e = next_pass_empty q (==→eq q.len 0 none_there) in
        let f = next_pass_first (push less y q) (omega arith) in
        let w = within 0 (omega arith) in inr (omega arith)
    | inr there ↦
        let ne = ==→ne q.len 0 there in
        let e = next_pass_first q ne in
        let f = next_pass_first (push less y q) (omega arith) in
        let (j, near, least_one) =
          Permutes-any (λ (z : ChildData). z.pass ≤ next_pass q) (q.len + 1)
            (push-IsQueue less less-IsRanking y q v.heap).1 0 (omega arith)
            (if_split (λ (z : ChildData). z.pass ≤ next_pass q) (0 == q.len)
              (λ at. absurd (ne (sym (==→eq 0 q.len at)))) (λ _. omega arith)) in
        let g = least d (push less y q) push-IsClose j near in inl (omega arith)
  ]

-- All blocked children have at most `d` to make up for.
pub data AllOwe (d : ℕ) : List ChildData → Type 0 where
  nil : AllOwe d []
  cons : {x : ChildData} {xs : List ChildData} → x.pass ≤ d → AllOwe d xs → AllOwe d (x ∷ xs)

pub AllOwe-append :
    {d : ℕ} {xs ys : List ChildData} → AllOwe d xs → AllOwe d ys → AllOwe d (xs ++ ys)
AllOwe-append nil b = b
AllOwe-append (cons h a) b = cons h (AllOwe-append a b)

-- The passes of the runnable children are close, and so is what the blocked ones owe.
pub record IsFair (d : ℕ) (w : WeightedFair) : Type 0 where
  pub close : IsClose d w.runnable_children
  pub owed : AllOwe d w.blocked_children

pub unblock_loop-IsClose :
    (d n : ℕ) (blocked : Memory Bool) (xs : List ChildData) (q : Queue ChildData)
    → d ≤ n
    → n + d < 2 ^ 63
    → AllOwe d xs
    → IsClose d q
    → next_pass q ≤ n
    → AllOwe d (unblock_loop blocked xs q).0
      × IsClose d (unblock_loop blocked xs q).1
      × (next_pass (unblock_loop blocked xs q).1 ≤ n)
unfolding unblock_loop
unblock_loop-IsClose d n blocked [] q some room owe v low = (nil, v, low)
unblock_loop-IsClose d n blocked (x ∷ xs) q some room (cons h owe) v low =
    if_split
      (λ (r : List ChildData × Queue ChildData). AllOwe d r.0 × IsClose d r.1 × (next_pass r.1 ≤ n))
      (not (blocked x.c))
      (λ _.
        let y : ChildData = record x { pass = u64 (next_pass q + x.pass) } in
        let fits : y.pass ≡ next_pass q + x.pass = omega arith in
        let w = push-IsClose d y q v (omega arith) (omega arith) (omega arith) in
        let e = next_pass-push d y q v (omega arith) (omega arith) (omega arith) in
        unblock_loop-IsClose d n blocked xs (push less y q) some room owe w (omega arith))
      (λ _.
        let (a, b, c) = unblock_loop-IsClose d n blocked xs q some room owe v low in
        (cons h a, b, c))

-- The child that was served is charged `delta`, at most `d`.
module _ (d delta : ℕ) (q : Queue ChildData) (v : IsClose d q) (some_left : 0 < q.len)
    (room : next_pass q + d < 2 ^ 63) (most : delta ≤ d) where
  inside : (i : ℕ) → i < q.len → (next_pass q ≤ (q.v i).pass) × ((q.v i).pass ≤ next_pass q + d)
  inside i low = (least d q v i low, v.close i low)

  pub set_top-IsClose :
      IsClose d (set_top less (record (q.v 0) { pass = u64 ((q.v 0).pass + delta) }) q)
  unfolding set_top
  set_top-IsClose =
      let item : ChildData = record (q.v 0) { pass = u64 ((q.v 0).pass + delta) } in
      let first = next_pass_first q (omega arith) in
      let (heap, perm) = set_top-IsQueue less less-IsRanking item q v.heap in
      window d (next_pass q) (set_top less item q) room heap (
        Permutes-all (λ (z : ChildData). (next_pass q ≤ z.pass) × (z.pass ≤ next_pass q + d)) q.len
          perm
          (λ i low.
            if_split (λ (z : ChildData). (next_pass q ≤ z.pass) × (z.pass ≤ next_pass q + d))
              (i == 0) (λ _. (omega arith, omega arith)) (λ _. inside i low)))

  pub pop-IsClose : IsClose d (pop less q)
  unfolding pop
  pop-IsClose =
      let (heap, perm) = pop-IsQueue less less-IsRanking q some_left v.heap in
      window d (next_pass q) (pop less q) room heap (
        Permutes-all (λ (z : ChildData). (next_pass q ≤ z.pass) × (z.pass ≤ next_pass q + d))
          (q.len - 1) perm
          (λ i low.
            if_split (λ (z : ChildData). (next_pass q ≤ z.pass) × (z.pass ≤ next_pass q + d))
              (i == q.len - 1) (λ _. inside 0 (omega arith))
              (λ _.
                if_split (λ (z : ChildData). (next_pass q ≤ z.pass) × (z.pass ≤ next_pass q + d))
                  (i == 0) (λ _. inside (q.len - 1) (omega arith)) (λ _. inside i (omega arith)))))
