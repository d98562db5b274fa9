-- ===== src/TrafficClass/Priority/Sorted.antt =====
-- core/traffic_class.cc: the children of a priority class are sorted.
use nfv.Base.{
  ℕ, suc, ◌≤◌, ◌<◌, ◌≡◌, ◌≢◌, refl, Bool, true, false, if◌then◌else◌, if_split, List, [], ◌∷◌, ◌++◌,
  append-nil, ltb, ◌==◌, arith, ltb→lt, ltb→le, ==→ne,
}
use mathlib.Core.List.{Perm, perm_middle}
use mathlib.Core.List.Perm
use nfv.TrafficClass.Priority.{ChildData, rev_onto, bubble, insert_sorted, has_priority}

-- Priorities go up, from `low` on, and no two are the same.
pub data Ascends : ℕ → List ChildData → Type 0 where
  nil : {low : ℕ} → Ascends low []
  cons :
      {low : ℕ} {d : ChildData} {l : List ChildData}
      → low ≤ d.priority
      → Ascends (suc d.priority) l
      → Ascends low (d ∷ l)

-- Priorities go down, from below `high` on.
data Descends : ℕ → List ChildData → Type 0 where
  nil : {high : ℕ} → Descends high []
  cons :
      {high : ℕ} {d : ChildData} {l : List ChildData}
      → d.priority < high
      → Descends d.priority l
      → Descends high (d ∷ l)

-- No child has the priority.
data Lacks (priority : ℕ) : List ChildData → Type 0 where
  nil : Lacks priority []
  cons :
      {d : ChildData} {l : List ChildData}
      → d.priority ≢ priority
      → Lacks priority l
      → Lacks priority (d ∷ l)

pub lower : {low low' : ℕ} {l : List ChildData} → low' ≤ low → Ascends low l → Ascends low' l
lower h Ascends.nil = Ascends.nil
lower {low} {low'} h (Ascends.cons p a) = Ascends.cons (omega arith) a

raise : {high high' : ℕ} {l : List ChildData} → high ≤ high' → Descends high l → Descends high' l
raise h Descends.nil = Descends.nil
raise h (Descends.cons p a) = Descends.cons (omega arith) a

rev_onto-Ascends :
    {high : ℕ} {before after : List ChildData}
    → Descends high before
    → Ascends high after
    → Ascends 0 (rev_onto before after)
rev_onto-Ascends Descends.nil a = lower (omega arith) a
rev_onto-Ascends (Descends.cons p b) a = rev_onto-Ascends b (Ascends.cons (omega arith) (lower p a))

rev_onto-Descends :
    {low : ℕ} {l acc : List ChildData}
    → Ascends low l
    → Descends low acc
    → (high : ℕ) × Descends high (rev_onto l acc)
rev_onto-Descends {low} Ascends.nil b = (low, b)
rev_onto-Descends (Ascends.cons p a) b =
    rev_onto-Descends a (Descends.cons (omega arith) (raise p b))

rev_onto-Lacks :
    {priority : ℕ} {l acc : List ChildData}
    → Lacks priority l
    → Lacks priority acc
    → Lacks priority (rev_onto l acc)
rev_onto-Lacks Lacks.nil b = b
rev_onto-Lacks (Lacks.cons p a) b = rev_onto-Lacks a (Lacks.cons p b)

has_priority-Lacks :
    (priority : ℕ) (l : List ChildData) → has_priority priority l ≡ false → Lacks priority l
unfolding has_priority
has_priority-Lacks priority [] h = Lacks.nil
has_priority-Lacks priority (d ∷ l) h =
    from (d.priority == priority) refl h (has_priority-Lacks priority l)
  where
    from :
        (b : Bool)
        → (d.priority == priority) ≡ b
        → (if b then true else has_priority priority l) ≡ false
        → (has_priority priority l ≡ false → Lacks priority l)
        → Lacks priority (d ∷ l)
    from true e h rest = absurd cc
    from false e h rest = Lacks.cons (==→ne _ _ e) (rest h)

bubble-Ascends :
    {high : ℕ} {before after : List ChildData} (item : ChildData)
    → Descends high before
    → Ascends high after
    → Ascends (suc item.priority) after
    → Lacks item.priority before
    → Ascends 0 (bubble before item after)
unfolding bubble
bubble-Ascends item Descends.nil a above n = Ascends.cons (omega arith) above
bubble-Ascends item (Descends.cons {d = prev} {l = before} p b) a above (Lacks.cons ne n) =
    if_split (Ascends 0) (ltb item.priority prev.priority)
      (λ t.
        bubble-Ascends item b (Ascends.cons (omega arith) (lower p a))
          (Ascends.cons (ltb→lt _ _ t) (lower p a)) n)
      (λ f.
        rev_onto-Ascends (Descends.cons (below (ltb→le _ _ f)) b)
          (Ascends.cons (omega arith) above))
  where
    below : prev.priority ≤ item.priority → prev.priority < item.priority
    below h = omega arith

rev_onto-perm : (before after : List ChildData) → Perm (rev_onto before after) (before ++ after)
rev_onto-perm [] after = Perm.rfl
rev_onto-perm (p ∷ before) after =
    Perm.trans (rev_onto-perm before (p ∷ after)) (perm_middle before after)

bubble-perm :
    (before : List ChildData) (item : ChildData) (after : List ChildData)
    → Perm (bubble before item after) (item ∷ before ++ after)
unfolding bubble
bubble-perm [] item after = Perm.rfl
bubble-perm (prev ∷ before) item after =
    if_split (λ l. Perm l (item ∷ prev ∷ before ++ after)) (ltb item.priority prev.priority)
      (λ _.
        Perm.trans (bubble-perm before item (prev ∷ after))
          (Perm.cons item (perm_middle before after)))
      (λ _.
        Perm.trans (rev_onto-perm (prev ∷ before) (item ∷ after))
          (perm_middle (prev ∷ before) after))

insert_sorted-perm :
    (container : List ChildData) (item : ChildData)
    → Perm (insert_sorted container item) (item ∷ container)
unfolding insert_sorted
insert_sorted-perm container item = Perm.trans (bubble-perm (rev_onto container []) item []) (
    Perm.cons item (
      Perm.trans (Perm.append_right [] (rev_onto-perm container []))
        (rw (append-nil (container ++ []), append-nil container) Perm.rfl)))

-- InsertSorted keeps the children of a priority class strictly sorted, if none of them has the new
-- priority, and leaves exactly the old children and the new one, in some order.
pub insert_sorted-Ascends :
    (children : List ChildData) (item : ChildData)
    → Ascends 0 children
    → has_priority item.priority children ≡ false
    → Ascends 0 (insert_sorted children item) × Perm (insert_sorted children item) (item ∷ children)
unfolding insert_sorted
insert_sorted-Ascends children item a h = (
  bubble-Ascends item (rev_onto-Descends a Descends.nil).1 Ascends.nil Ascends.nil
      (rev_onto-Lacks (has_priority-Lacks item.priority children h) Lacks.nil),
  insert_sorted-perm children item,
)
