-- ===== src/TrafficClass/WeightedFair.antt =====
-- core/traffic_class.cc: the weighted-fair traffic class, a stride scheduler.
pub mod Fair
pub mod History
mod Examples
use nfv.Base.{
  ℕ, ◌+◌, ◌-◌, ◌*◌, ◌/◌, ◌^◌, Bool, true, false, not, Option, none, some, Memory, update,
  if◌then◌else◌, List, [], ◌∷◌, ◌++◌, ltb, ◌==◌,
}
use nfv.Base.Words.{u64}
use nfv.PriorityQueue.{Queue, push, pop, set_top, delete_single_element}
use nfv.TrafficClass.{Classes, Notice, quiet, unblock_set_blocked, block_set_blocked}
use nfv.TrafficClass.RoundRobin.{is_parent}

-- STRIDE1, QUANTUM
abbrev pub stride1 : ℕ
stride1 = 2 ^ 20

abbrev pub quantum : ℕ
quantum = 2 ^ 10

-- `pass` is the union of pass and remain; both are 64-bit words of two's complement.
pub record ChildData : Type 0 where
  pub stride : ℕ
  pub pass : ℕ
  pub c : ℕ

-- `a < b` on int64_t
abbrev pub signed_lt : ℕ → ℕ → Bool
signed_lt a b = ltb (u64 (a + 2 ^ 63)) (u64 (b + 2 ^ 63))

-- `operator<`, reversed
abbrev pub less : ChildData → ChildData → Bool
less x y = signed_lt y.pass x.pass

pub record WeightedFair : Type 0 where
  pub runnable_children : Queue ChildData
  pub blocked_children : List ChildData
  pub all_children : List (ℕ × ℕ)

-- `runnable_children_.empty()`
abbrev pub is_empty : Queue ChildData → Bool
is_empty q = q.len == 0

abbrev pub next_pass : Queue ChildData → ℕ
next_pass q = if q.len == 0 then 0 else (q.v 0).pass

-- The blocked children that stay, and the runnable ones, after the loop of UnblockTowardsRoot
unfoldable pub unblock_loop :
    Memory Bool → List ChildData → Queue ChildData → List ChildData × Queue ChildData
unblock_loop blocked [] q = ([], q)
unblock_loop blocked (x ∷ xs) q =
    let moved =
      unblock_loop blocked xs (push less (record x { pass = u64 (next_pass q + x.pass) }) q) in
    let stays = unblock_loop blocked xs q in
    if not (blocked x.c) then moved else (x ∷ stays.0, stays.1)

unfoldable pub unblock : ℕ → Classes → WeightedFair → Notice × Classes × WeightedFair
unblock self c w =
    let lists = unblock_loop c.blocked w.blocked_children w.runnable_children in
    let set = unblock_set_blocked self (is_empty lists.1) c in
    (set.0, set.1, record w { blocked_children = lists.0; runnable_children = lists.1 })

abbrev pub append_blocked : Option ChildData → List ChildData → List ChildData
append_blocked none xs = xs
append_blocked (some x) xs = xs ++ (x ∷ [])

unfoldable pub block : ℕ → Classes → WeightedFair → Notice × Classes × WeightedFair
block self c w =
    let deleted = delete_single_element less (λ x. c.blocked x.c) w.runnable_children in
    let set = block_set_blocked self (is_empty deleted.1) c in
    (
      set.0,
      set.1,
      record w {
        runnable_children = deleted.1;
        blocked_children = append_blocked deleted.0 w.blocked_children;
      },
    )

-- `none` is the result false.
pub add_child : ℕ → ℕ → ℕ → Classes → WeightedFair → Option (Notice × Classes × WeightedFair)
add_child self child share c w =
    let c' = record c { parent = update c.parent child (some self) } in
    let child_data : ChildData = record {
      stride = stride1 / share;
      pass = next_pass w.runnable_children;
      c = child;
    } in
    let listed = record w { all_children = w.all_children ++ ((child, share) ∷ []) } in
    let waits = record listed { blocked_children = w.blocked_children ++ (child_data ∷ []) } in
    let runs =
      unblock self c'
        (record listed { runnable_children = push less child_data w.runnable_children }) in
    elim (c.parent child) [
      | some _ ↦ none
      | none ↦
          if share == 0
          then none
          else if c.blocked child
          then some (quiet, c', waits)
          else some runs
    ]

abbrev pub erase_pair : ℕ → List (ℕ × ℕ) → List (ℕ × ℕ)
erase_pair child [] = []
erase_pair child (x ∷ xs) = let rest = erase_pair child xs in if x.0 == child then xs else x ∷ rest

abbrev pub mem_data : ℕ → List ChildData → Bool
mem_data child [] = false
mem_data child (x ∷ xs) = let rest = mem_data child xs in if x.c == child then true else rest

abbrev pub erase_data : ℕ → List ChildData → List ChildData
erase_data child [] = []
erase_data child (x ∷ xs) = let rest = erase_data child xs in if x.c == child then xs else x ∷ rest

pub remove_child : ℕ → ℕ → Classes → WeightedFair → Option (Notice × Classes × WeightedFair)
remove_child self child c w =
    let c' = record c { parent = update c.parent child none } in
    let unlisted = record w { all_children = erase_pair child w.all_children } in
    let deleted = delete_single_element less (λ x. x.c == child) w.runnable_children in
    let left = block self c' (record unlisted { runnable_children = deleted.1 }) in
    if not (is_parent (c.parent child) self)
    then none
    else if mem_data child w.blocked_children
    then some
        (quiet, c', record unlisted { blocked_children = erase_data child w.blocked_children })
    else elim (deleted.0) [ none ↦ none | some _ ↦ some left ]

-- The top of an empty queue, which is undefined, is `none`.
unfoldable pub pick_next_child : WeightedFair → Option ℕ
pick_next_child w = if is_empty w.runnable_children then none else some (w.runnable_children.v 0).c

-- `item.stride * consumed / QUANTUM`, in 64 bits
abbrev pub pass_delta : ChildData → ℕ → ℕ
pass_delta item consumed = u64 (item.stride * consumed) / quantum

-- FinishAndAccountTowardsRoot, without the usage statistics and the parent's call that follows it:
-- `consumed` is usage[resource_].
unfoldable pub finish_and_account : ℕ → ℕ → ℕ → Classes → WeightedFair → Classes × WeightedFair
finish_and_account self child consumed c w =
    let item = w.runnable_children.v 0 in
    let delta = pass_delta item consumed in
    let popped = pop less w.runnable_children in
    if c.blocked child
    then (
      record c { blocked = update c.blocked self (is_empty popped) },
      record w {
        blocked_children = w.blocked_children ++ (record item { pass = delta } ∷ []);
        runnable_children = popped;
      },
    )
    else (
      c,
      record w {
        runnable_children =
            set_top less (record item { pass = u64 (item.pass + delta) }) w.runnable_children;
      },
    )
