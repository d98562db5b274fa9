-- ===== src/TrafficClass/Priority.antt =====
-- core/traffic_class.cc: the traffic class with static priorities, and core/utils/common.h:
-- InsertSorted.
pub mod Sorted
pub mod Pick
mod Examples
use nfv.Base.{
  ℕ, zero, suc, ◌+◌, ◌-◌, Bool, true, false, not, Option, none, some, Memory, update, if◌then◌else◌,
  List, [], ◌∷◌, length, ltb, leb, ◌==◌, get_elem?, erase_at, drop,
}
use nfv.TrafficClass.{Classes, Notice, unblock_set_blocked, block_set_blocked}

pub record ChildData : Type 0 where
  pub priority : ℕ
  pub c : ℕ

pub record Priority : Type 0 where
  pub first_runnable : ℕ
  pub children : List ChildData

-- The list of `before` backwards, then `after`.
abbrev pub rev_onto : List ChildData → List ChildData → List ChildData
rev_onto [] after = after
rev_onto (p ∷ before) after = rev_onto before (p ∷ after)

-- The loop of InsertSorted: `before`, from the nearest on, stands left of `item` and `after` right.
pub bubble : List ChildData → ChildData → List ChildData → List ChildData
bubble [] item after = item ∷ after
bubble (prev ∷ before) item after =
    let swapped = bubble before item (prev ∷ after) in
    if ltb item.priority prev.priority then swapped else rev_onto (prev ∷ before) (item ∷ after)

pub insert_sorted : List ChildData → ChildData → List ChildData
insert_sorted container item = bubble (rev_onto container []) item []

pub has_priority : ℕ → List ChildData → Bool
has_priority priority [] = false
has_priority priority (d ∷ children) =
    let rest = has_priority priority children in if d.priority == priority then true else rest

-- The number of blocked children before the first one that is not.
pub skip_blocked : Memory Bool → List ChildData → ℕ
skip_blocked blocked [] = 0
skip_blocked blocked (d ∷ children) =
    let rest = skip_blocked blocked children in if blocked d.c then suc rest else 0

-- `while (first_runnable_ < num_children && children_[first_runnable_].c_->blocked_)`
pub advance : Memory Bool → Priority → Priority
advance blocked r = record r {
  first_runnable = r.first_runnable + skip_blocked blocked (drop r.first_runnable r.children);
}

pub unblock : ℕ → Classes → Priority → Notice × Classes × Priority
unblock self c r =
    let r' : Priority = record r { first_runnable = skip_blocked c.blocked r.children } in
    let set = unblock_set_blocked self (leb (length r.children) r'.first_runnable) c in
    (set.0, set.1, r')

pub block : ℕ → Classes → Priority → Notice × Classes × Priority
block self c r =
    let r' = advance c.blocked r in
    let set = block_set_blocked self (r'.first_runnable == length r.children) c in
    (set.0, set.1, r')

-- `none` is the result false.
pub add_child : ℕ → ℕ → ℕ → Classes → Priority → Option (Notice × Classes × Priority)
add_child self child priority c r =
    let added =
      unblock self (record c { parent = update c.parent child (some self) })
        (record r {
          children = insert_sorted r.children (record { priority = priority; c = child });
        }) in
    elim (c.parent child) [
      | some _ ↦ none
      | none ↦ if has_priority priority r.children then none else some added
    ]

abbrev pub is_parent : Option ℕ → ℕ → Bool
is_parent none self = false
is_parent (some p) self = p == self

pub index_of : ℕ → List ChildData → Option ℕ
index_of child [] = none
index_of child (d ∷ children) =
    let rest = index_of child children in
    if d.c == child then some 0 else elim rest [ none ↦ none | some i ↦ some (suc i) ]

-- The vector without the child at `i`.
pub erase_child : ℕ → Priority → Priority
erase_child i r = record {
  children = erase_at i r.children;
  first_runnable = if ltb i r.first_runnable then r.first_runnable - 1 else r.first_runnable;
}

pub remove_child : ℕ → ℕ → Classes → Priority → Option (Notice × Classes × Priority)
remove_child self child c r =
    if not (is_parent (c.parent child) self) then none else elim (index_of child r.children) [
      | none ↦ none
      | some i ↦
          some (block self (record c { parent = update c.parent child none }) (erase_child i r))
    ]

-- An index out of range, which is undefined, is `none`.
pub pick_next_child : Priority → Option ℕ
pick_next_child r = elim (get_elem? r.children r.first_runnable) [ none ↦ none | some d ↦ some d.c ]

-- FinishAndAccountTowardsRoot, without the usage statistics and the parent's call that follows it.
pub finish_and_account : ℕ → ℕ → Classes → Priority → Classes × Priority
finish_and_account self child c r =
    let r' = advance c.blocked r in
    if c.blocked child
    then (record c { blocked = update c.blocked self (r'.first_runnable == length r.children) }, r')
    else (c, r)
