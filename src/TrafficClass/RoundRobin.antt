-- ===== src/TrafficClass/RoundRobin.antt =====
-- core/traffic_class.cc: the round-robin traffic class.
pub mod Order
pub mod Blocking
pub mod Finish
mod Examples
use nfv.Base.{
  ℕ, zero, suc, ◌+◌, ◌-◌, Bool, true, false, not, ◌&&◌, Option, none, some, Memory, update,
  if◌then◌else◌, List, [], ◌∷◌, ◌++◌, length, ltb, leb, ◌==◌, get_elem?, erase_at,
}
use nfv.Base.Words.{u64}
use nfv.TrafficClass.{Classes, Notice, quiet, unblock_set_blocked, block_set_blocked}

pub record RoundRobin : Type 0 where
  pub next_child : ℕ
  pub runnable_children : List ℕ
  pub blocked_children : List ℕ
  pub all_children : List ℕ

-- `runnable_children_.empty()`
abbrev pub is_empty : List ℕ → Bool
is_empty [] = true
is_empty (_ ∷ _) = false

-- The first occurrence of a child.
abbrev pub mem : ℕ → List ℕ → Bool
mem child [] = false
mem child (x ∷ xs) = let rest = mem child xs in if x == child then true else rest

abbrev pub erase : ℕ → List ℕ → List ℕ
erase child [] = []
erase child (x ∷ xs) = let rest = erase child xs in if x == child then xs else x ∷ rest

abbrev pub index_of : ℕ → List ℕ → ℕ
index_of child [] = 0
index_of child (x ∷ xs) = let rest = index_of child xs in if x == child then 0 else suc rest

-- Wrap around for round robin.
abbrev pub wrap_around : ℕ → ℕ → ℕ
wrap_around next size = if leb size next then 0 else next

-- `next_child_` after the child at `i` is erased and `size` children are left.
abbrev pub next_after : ℕ → ℕ → ℕ → ℕ
next_after i size next = wrap_around (if ltb i next then next - 1 else next) size

-- The children that stay blocked, and those that run, from the position of the iterator on.
pub unblock_loop : Memory Bool → List ℕ → List ℕ → List ℕ × List ℕ
unblock_loop blocked [] runnable = ([], runnable)
unblock_loop blocked (x ∷ xs) runnable =
    let stays = unblock_loop blocked xs runnable in
    let moves = unblock_loop blocked xs (runnable ++ (x ∷ [])) in
    if not (blocked x) then moves else (x ∷ stays.0, stays.1)

pub unblock : ℕ → Classes → RoundRobin → Notice × Classes × RoundRobin
unblock self c r =
    let lists = unblock_loop c.blocked r.blocked_children r.runnable_children in
    let set = unblock_set_blocked self (is_empty lists.1) c in
    (set.0, set.1, record r { blocked_children = lists.0; runnable_children = lists.1 })

-- The loop of BlockTowardsRoot at the child behind `done`, with the children `rest` from there on.
pub block_loop : Memory Bool → List ℕ → List ℕ → RoundRobin → RoundRobin
block_loop blocked done [] r = record r { runnable_children = done }
block_loop blocked done (x ∷ rest) r =
    let moved = block_loop blocked done rest (record r {
      blocked_children = r.blocked_children ++ (x ∷ []);
      next_child = next_after (length done) (length done + length rest) r.next_child;
    }) in
    let kept = block_loop blocked (done ++ (x ∷ [])) rest r in if blocked x then moved else kept

pub block : ℕ → Classes → RoundRobin → Notice × Classes × RoundRobin
block self c r =
    let r' = block_loop c.blocked [] r.runnable_children r in
    let set = block_set_blocked self (is_empty r'.runnable_children) c in (set.0, set.1, r')

-- `none` is the result false.
pub add_child : ℕ → ℕ → Classes → RoundRobin → Option (Notice × Classes × RoundRobin)
add_child self child c r =
    let c' = record c { parent = update c.parent child (some self) } in
    let listed =
      if c.blocked child
      then record r { blocked_children = r.blocked_children ++ (child ∷ []) }
      else record r { runnable_children = r.runnable_children ++ (child ∷ []) } in
    let result = unblock self c' listed in
    elim (c.parent child) [
      | some _ ↦ none
      | none ↦ some (
        result.0,
        result.1,
        record result.2 { all_children = result.2.all_children ++ (child ∷ []) },
      )
    ]

abbrev pub is_parent : Option ℕ → ℕ → Bool
is_parent none self = false
is_parent (some p) self = p == self

-- The removal of a runnable child.
pub remove_runnable : ℕ → ℕ → Classes → RoundRobin → Notice × Classes × RoundRobin
remove_runnable self child c r =
    let i = index_of child r.runnable_children in
    let left = erase_at i r.runnable_children in
    block self c
      (record r { runnable_children = left; next_child = next_after i (length left) r.next_child })

pub remove_child : ℕ → ℕ → Classes → RoundRobin → Option (Notice × Classes × RoundRobin)
remove_child self child c r =
    let c' = record c { parent = update c.parent child none } in
    let unlisted = record r { all_children = erase child r.all_children } in
    if not (is_parent (c.parent child) self)
    then none
    else if mem child r.blocked_children
    then some (quiet, c', record unlisted { blocked_children = erase child r.blocked_children })
    else if mem child r.runnable_children
    then some (remove_runnable self child c' unlisted)
    else none

-- An index out of range, which is undefined, is `none`.
pub pick_next_child : RoundRobin → Option ℕ
pick_next_child r = get_elem? r.runnable_children r.next_child

-- FinishAndAccountTowardsRoot, without the usage statistics and the parent's call that follows it:
-- `count` is usage[RESOURCE_COUNT].
pub finish_and_account : ℕ → ℕ → ℕ → Classes → RoundRobin → Classes × RoundRobin
finish_and_account self child count c r =
    let left = erase_at r.next_child r.runnable_children in
    if c.blocked child
    then (
      record c { blocked = update c.blocked self (is_empty left) },
      record r {
        runnable_children = left;
        blocked_children = r.blocked_children ++ (child ∷ []);
        next_child = wrap_around r.next_child (length left);
      },
    )
    else (
      c,
      record r {
        next_child = wrap_around (u64 (r.next_child + count)) (length r.runnable_children);
      },
    )
