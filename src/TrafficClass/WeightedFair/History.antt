-- ===== src/TrafficClass/WeightedFair/History.antt =====
-- core/traffic_class.cc: whatever is served, blocked and unblocked, a weighted-fair class stays fair.
use nfv.Base.{
  ℕ, ◌+◌, ◌*◌, ◌/◌, ◌^◌, ◌==◌, update, subst, ◌≤◌, ◌<◌, ◌≡◌, arith, Bool, true, false, [], ◌∷◌,
  ◌++◌, max, Option, none, some, if◌then◌else◌, if_split,
}
use nfv.PriorityQueue.{push}
use nfv.TrafficClass.{Classes, Notice}
use nfv.TrafficClass.WeightedFair.{
  ChildData, stride1, less, WeightedFair, next_pass, unblock, add_child, pick_next_child,
  pass_delta, finish_and_account,
}
use nfv.TrafficClass.WeightedFair.Fair.{
  nil, cons, AllOwe-append, IsFair, push-IsClose, next_pass-push, unblock_loop-IsClose,
  set_top-IsClose, pop-IsClose, least, next_pass_first,
}

-- Room for one more turn below 2^63
abbrev pub HasRoom : ℕ → WeightedFair → Type 0
HasRoom d w = (next_pass w.runnable_children + d < 2 ^ 63) × (2 * d < 2 ^ 63)

-- What happens to a class `self`: the child that was picked is accounted for and runs on or is
-- blocked; a child that can run is added; children that run again are unblocked. The flags in `c` may change in between.
pub data Turn (d self : ℕ) (w : WeightedFair) : WeightedFair → Type 0 where
  finishes :
      (c : Classes) (child consumed : ℕ)
      → pick_next_child w ≡ some child
      → pass_delta (w.runnable_children.v 0) consumed ≤ d
      → HasRoom d w
      → Turn d self w (finish_and_account self child consumed c w).1
  adds :
      (c : Classes) (child share : ℕ) (r : Notice × Classes × WeightedFair)
      → c.blocked child ≡ false
      → add_child self child share c w ≡ some r
      → HasRoom d w
      → Turn d self w r.2
  unblocks : (c : Classes) → HasRoom d w → Turn d self w (unblock self c w).2

pub data Turns (d self : ℕ) (w : WeightedFair) : WeightedFair → Type 0 where
  none_yet : Turns d self w w
  then_turn : {x y : WeightedFair} → Turns d self w x → Turn d self x y → Turns d self w y

unblock-IsFair :
    (d self : ℕ) (c : Classes) (w : WeightedFair)
    → HasRoom d w
    → IsFair d w
    → IsFair d (unblock self c w).2
unfolding unblock
unblock-IsFair d self c w room v =
    let n = max (next_pass w.runnable_children) d in
    let (owe, close, _) =
      unblock_loop-IsClose d n c.blocked w.blocked_children w.runnable_children (omega arith)
        (omega arith) v.owed v.close (omega arith) in
    record { close = close; owed = owe }

picked-runs :
    (w : WeightedFair) (child : ℕ) → pick_next_child w ≡ some child → 0 < w.runnable_children.len
unfolding pick_next_child
picked-runs w child e = ground arith

finish-IsFair :
    (d self child consumed : ℕ) (c : Classes) (w : WeightedFair)
    → pick_next_child w ≡ some child
    → pass_delta (w.runnable_children.v 0) consumed ≤ d
    → HasRoom d w
    → IsFair d w
    → IsFair d (finish_and_account self child consumed c w).1
unfolding finish_and_account
finish-IsFair d self child consumed c w picked most room v =
    let q = w.runnable_children in
    let delta = pass_delta (q.v 0) consumed in
    let some_left : 0 < q.len = picked-runs w child picked in
    if_split (λ (r : Classes × WeightedFair). IsFair d r.1) (c.blocked child)
      (λ _. record {
        close = pop-IsClose d delta q v.close some_left room.0 most;
        owed = AllOwe-append v.owed (cons most nil);
      })
      (λ _. record {
        close = set_top-IsClose d delta q v.close some_left room.0 most;
        owed = v.owed;
      })

added :
    (parent : Option ℕ) (zero_share blocked : Bool) (waits runs r : Notice × Classes × WeightedFair)
    → blocked ≡ false
    → (elim parent as (λ _. Option (Notice × Classes × WeightedFair)) [
      | some _ ↦ none
      | none ↦ if zero_share then none else if blocked then some waits else some runs
    ])
      ≡ some r
    → runs ≡ r
added none false false waits runs r b e = cc
added none true false waits runs r b e = absurd (cc)
added none z true waits runs r b e = absurd (cc)
added (some x) z b waits runs r f e = absurd (cc)

add-IsFair :
    (d self child share : ℕ) (c : Classes) (w : WeightedFair) (r : Notice × Classes × WeightedFair)
    → c.blocked child ≡ false
    → add_child self child share c w ≡ some r
    → HasRoom d w
    → IsFair d w
    → IsFair d r.2
unfolding add_child
add-IsFair d self child share c w r runs done room v =
    let q = w.runnable_children in
    let y : ChildData = record { stride = stride1 / share; pass = next_pass q; c = child } in
    let listed : WeightedFair = record w {
      all_children = w.all_children ++ ((child, share) ∷ []);
      runnable_children = push less y q;
    } in
    let close = push-IsClose d y q v.close room.0 (omega arith) (omega arith) in
    let next = next_pass-push d y q v.close room.0 (omega arith) (omega arith) in
    let c' = record c { parent = update c.parent child (some self) } in
    subst (λ (r : Notice × Classes × WeightedFair). IsFair d r.2)
      (added (c.parent child) (share == 0) (c.blocked child) _ (unblock self c' listed) r runs done)
      (unblock-IsFair d self c' listed (omega arith, room.1)
        (record { close = close; owed = v.owed }))

Turns-IsFair : {d self : ℕ} {w x : WeightedFair} → Turns d self w x → IsFair d w → IsFair d x
Turns-IsFair none_yet v = v
Turns-IsFair (then_turn ts (finishes c child consumed picked most room)) v =
    finish-IsFair _ _ child consumed c _ picked most room (Turns-IsFair ts v)
Turns-IsFair (then_turn ts (adds c child share r runs done room)) v =
    add-IsFair _ _ child share c _ r runs done room (Turns-IsFair ts v)
Turns-IsFair (then_turn ts (unblocks c room)) v = unblock-IsFair _ _ c _ room (Turns-IsFair ts v)

-- Let the runnable children of a weighted-fair class form a heap, with passes below 2^63 and at
-- most d ahead of the next one, and let no blocked child owe more than d. Then, after any turns in
-- which the picked child is accounted for with a charge of at most d (and runs on or is blocked),
-- a child that is not blocked is added, or UnblockTowardsRoot is called, each while the next pass
-- plus d, and 2d, are below 2^63, no runnable child is more than d ahead of any other, and none
-- has a lesser pass than the one to be picked.
pub Turns-fair :
    (d self : ℕ) (w x : WeightedFair)
    → Turns d self w x
    → IsFair d w
    → (i j : ℕ) → i < x.runnable_children.len
    → j < x.runnable_children.len
    → ((x.runnable_children.v i).pass ≤ (x.runnable_children.v j).pass + d)
      × ((x.runnable_children.v 0).pass ≤ (x.runnable_children.v i).pass)
Turns-fair d self w x ts v i j hi hj =
    let u = Turns-IsFair ts v in
    let q = x.runnable_children in
    let first = next_pass_first q (omega arith) in
    (
      omega (arith, u.close.close i hi, least d q u.close j hj),
      omega (arith, least d q u.close i hi),
    )
