-- ===== src/TrafficClass/Priority/Pick.antt =====
-- core/traffic_class.cc: which child a priority class picks.
use nfv.Base.{
  ℕ, zero, suc, ◌+◌, ◌-◌, ◌≤◌, ◌<◌, ◌≡◌, refl, ap, ◌∙◌, subst, Bool, true, false, if◌then◌else◌,
  if_split, List, [], ◌∷◌, ltb, arith, ltb→lt, ltb→le, Option, none, some, Memory, get_elem?,
  erase_at, drop,
}
use nfv.TrafficClass.{Classes}
use nfv.TrafficClass.Priority.{
  ChildData, Priority, skip_blocked, advance, pick_next_child, block, unblock, erase_child,
}
use nfv.TrafficClass.Priority.Sorted.{Ascends, nil, cons, lower}

get_elem?-Ascends :
    (i : ℕ) (e : ChildData) {low : ℕ} {l : List ChildData}
    → Ascends low l
    → get_elem? l i ≡ some e
    → low ≤ e.priority
get_elem?-Ascends i e nil h = absurd (cc)
get_elem?-Ascends zero e (cons {d = d} p a) h =
    let same : d.priority ≡ e.priority = ap (λ x. x.priority) {x = d} {y = e} (cc) in omega arith
get_elem?-Ascends (suc i) e (cons p a) h = let q = get_elem?-Ascends i e a h in omega arith

erase-Ascends : {low : ℕ} {l : List ChildData} (i : ℕ) → Ascends low l → Ascends low (erase_at i l)
erase-Ascends i nil = nil
erase-Ascends zero (cons p a) = lower (omega arith) a
erase-Ascends (suc i) (cons p a) = cons p (erase-Ascends i a)

module _ (blocked : Memory Bool) where
  -- The children before an index are blocked.
  pub data Leading : ℕ → List ChildData → Type 0 where
    start : {l : List ChildData} → Leading 0 l
    next :
        {n : ℕ} {d : ChildData} {l : List ChildData}
        → blocked d.c ≡ true
        → Leading n l
        → Leading (suc n) (d ∷ l)

  -- The unblocked child with the least priority, or none if all are blocked.
  pub data Picked (l : List ChildData) : Option ℕ → Type 0 where
    least :
        (at : ℕ) (d : ChildData)
        → get_elem? l at ≡ some d
        → blocked d.c ≡ false
        → ((i : ℕ) (e : ChildData)
            → get_elem? l i ≡ some e
            → blocked e.c ≡ false
            → d.priority ≤ e.priority)
        → Picked l (some d.c)
    all_blocked :
        ((i : ℕ) (e : ChildData) → get_elem? l i ≡ some e → blocked e.c ≡ true) → Picked l none

  blocked_first :
      (d : ChildData) (l : List ChildData) (o : Option ℕ)
      → blocked d.c ≡ true
      → Picked l o
      → Picked (d ∷ l) o
  blocked_first d l _ b (least at e there open_e best) = least (suc at) e there open_e from
    where
      from :
          (i : ℕ) (f : ChildData)
          → get_elem? (d ∷ l) i ≡ some f
          → blocked f.c ≡ false
          → e.priority ≤ f.priority
      from zero f h open_f =
          let same : blocked d.c ≡ blocked f.c = ap (λ x. blocked x.c) {x = d} {y = f} (cc) in
          absurd (cc)
      from (suc i) f h open_f = best i f h open_f
  blocked_first d l _ b (all_blocked all) = all_blocked from
    where
      from : (i : ℕ) (f : ChildData) → get_elem? (d ∷ l) i ≡ some f → blocked f.c ≡ true
      from zero f h = ap (λ x. blocked x.c) {x = f} {y = d} (cc) ∙ b
      from (suc i) f h = all i f h

  unblocked_first :
      (d : ChildData) (l : List ChildData)
      → blocked d.c ≡ false
      → Ascends (suc d.priority) l
      → Picked (d ∷ l) (some d.c)
  unblocked_first d l b a = least 0 d refl b from
    where
      from :
          (i : ℕ) (f : ChildData)
          → get_elem? (d ∷ l) i ≡ some f
          → blocked f.c ≡ false
          → d.priority ≤ f.priority
      from zero f h open_f =
          let same : d.priority ≡ f.priority = ap (λ x. x.priority) {x = d} {y = f} (cc) in
          omega arith
      from (suc i) f h open_f = let q = get_elem?-Ascends i f a h in omega arith

  abbrev at_index : List ChildData → ℕ → Option ℕ
  at_index l i = elim (get_elem? l i) [ none ↦ none | some d ↦ some d.c ]

  skip_blocked-Picked :
      {low : ℕ} (l : List ChildData)
      → Ascends low l
      → Picked l (at_index l (skip_blocked blocked l))
  unfolding skip_blocked
  skip_blocked-Picked [] a = all_blocked (λ i e h. absurd (cc))
  skip_blocked-Picked (d ∷ l) (cons p a) =
      if_split (λ n. Picked (d ∷ l) (at_index (d ∷ l) n)) (blocked d.c)
        (λ b. blocked_first d l _ b (skip_blocked-Picked l a)) (λ b. unblocked_first d l b a)

  -- The scan may start behind children that are known to be blocked.
  advance-Picked :
      {low n : ℕ} {l : List ChildData}
      → Leading n l
      → Ascends low l
      → Picked l (at_index l (n + skip_blocked blocked (drop n l)))
  advance-Picked {l = l} start a =
      subst (λ n. Picked l (at_index l n)) {y = 0 + skip_blocked blocked l} (omega arith)
        (skip_blocked-Picked l a)
  advance-Picked (next {n = n} {d = d} {l = l} b s) (cons p a) =
      subst (λ k. Picked (d ∷ l) (at_index (d ∷ l) k))
        {x = suc (n + skip_blocked blocked (drop n l))}
        {y = suc n + skip_blocked blocked (drop n l)} (omega arith)
        (blocked_first d l _ b (advance-Picked s a))

  -- Erasing a child.
  erase-Leading :
      {n : ℕ} {l : List ChildData} (i : ℕ)
      → Leading n l
      → Leading (if ltb i n then n - 1 else n) (erase_at i l)
  erase-Leading {n} {l} i s =
      if_split (λ m. Leading m (erase_at i l)) (ltb i n) (λ t. inside i s (ltb→lt i n t))
        (λ f. outside i s (ltb→le i n f))
    where
      inside :
          {n : ℕ} {l : List ChildData} (i : ℕ)
          → Leading n l
          → i < n
          → Leading (n - 1) (erase_at i l)
      inside i start h = absurd (omega arith)
      inside zero (next {n = n} {l = l} b s) h = subst (λ m. Leading m l) {x = n} (omega arith) s
      inside (suc i) (next {n = n} {d = d} {l = l} b s) h =
          subst (λ m. Leading m (d ∷ erase_at i l)) {x = suc (n - 1)} (omega arith)
            (next b (inside i s (omega arith)))

      outside :
          {n : ℕ} {l : List ChildData} (i : ℕ) → Leading n l → n ≤ i → Leading n (erase_at i l)
      outside i start h = start
      outside zero (next b s) h = absurd (omega arith)
      outside (suc i) (next b s) h = next b (outside i s (omega arith))

module _ (self : ℕ) (c : Classes) (r : Priority) (sorted : Ascends 0 r.children) where
  -- UnblockTowardsRoot looks at all children.
  pub unblock-Picked : Picked c.blocked r.children (pick_next_child (unblock self c r).2)
  unfolding pick_next_child unblock
  unblock-Picked = skip_blocked-Picked c.blocked r.children sorted

  module _ (leading : Leading c.blocked r.first_runnable r.children) where
    -- After BlockTowardsRoot of a priority class with sorted children, those before the first
    -- runnable one blocked, PickNextChild gives a child of the class that is not blocked and whose
    -- priority is the least of all those not blocked; the index is out of range exactly when all
    -- are blocked.
    pub block-Picked : Picked c.blocked r.children (pick_next_child (block self c r).2)
    unfolding pick_next_child block advance
    block-Picked = advance-Picked c.blocked leading sorted

    -- The same holds after a child at any index of such a class is erased, as RemoveChild does it,
    -- and BlockTowardsRoot has run.
    pub erase_child-Picked :
        (i : ℕ)
        → Picked c.blocked
            (erase_at i r.children)
            (pick_next_child (block self c (erase_child i r)).2)
    unfolding pick_next_child block advance erase_child
    erase_child-Picked i =
        advance-Picked c.blocked (erase-Leading c.blocked i leading) (erase-Ascends i sorted)
