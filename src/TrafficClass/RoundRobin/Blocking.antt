-- ===== src/TrafficClass/RoundRobin/Blocking.antt =====
-- core/traffic_class.cc: BlockTowardsRoot and UnblockTowardsRoot of a round-robin class.
use nfv.Base.{
  ℕ, zero, suc, ◌+◌, ◌-◌, ◌≤◌, inl, inr, ◌≡◌, refl, sym, ap, ap₂, ◌∙◌, subst, Bool, true, false,
  not, Memory, if◌then◌else◌, List, [], ◌∷◌, ◌++◌, length, ltb, take, drop, filter, arith,
  append_assoc, append-nil, length-append, if_split,
}
use nfv.TrafficClass.{Classes}
use nfv.TrafficClass.RoundRobin.{
  RoundRobin, block_loop, unblock_loop, block, unblock, next_after, wrap_around,
}
use nfv.TrafficClass.RoundRobin.Order.{
  rotation, order, IsIndex, block_loop-order, wrap_around-IsIndex,
}

module _ (p : ℕ → Bool) where
  -- Every child of the list passes the test.
  pub data AllPass : List ℕ → Type 0 where
    nil : AllPass []
    cons : {x : ℕ} {l : List ℕ} → p x ≡ true → AllPass l → AllPass (x ∷ l)

  pub append-AllPass : {l m : List ℕ} → AllPass l → AllPass m → AllPass (l ++ m)
  append-AllPass nil b = b
  append-AllPass (cons h a) b = cons h (append-AllPass a b)

  take-AllPass : (n : ℕ) {l : List ℕ} → AllPass l → AllPass (take n l)
  take-AllPass zero a = nil
  take-AllPass (suc n) nil = nil
  take-AllPass (suc n) (cons h a) = cons h (take-AllPass n a)

  drop-AllPass : (n : ℕ) {l : List ℕ} → AllPass l → AllPass (drop n l)
  drop-AllPass zero a = a
  drop-AllPass (suc n) nil = nil
  drop-AllPass (suc n) (cons h a) = drop-AllPass n a

  filter_pass : {l : List ℕ} → AllPass l → filter p l ≡ l
  filter_pass nil = refl
  filter_pass (cons {x} h a) = rw h (ap (◌∷◌ x) (filter_pass a))

  pub filter-rotation : (n : ℕ) {l : List ℕ} → AllPass l → filter p (rotation n l) ≡ rotation n l
  filter-rotation n a = filter_pass (append-AllPass (drop-AllPass n a) (take-AllPass n a))

module _ (blocked : Memory Bool) where
  abbrev runs : ℕ → Bool
  runs c = not (blocked c)

  block_loop-AllPass :
      (done rest : List ℕ) (r : RoundRobin)
      → AllPass runs done
      → AllPass runs (block_loop blocked done rest r).runnable_children
  unfolding block_loop
  block_loop-AllPass done [] r a = a
  block_loop-AllPass done (x ∷ rest) r a =
      if_split (λ (s : RoundRobin). AllPass runs s.runnable_children) (blocked x)
        (λ _. block_loop-AllPass done rest _ a)
        (λ h.
          block_loop-AllPass (done ++ (x ∷ [])) rest r
            (append-AllPass runs a (cons (ap not h) nil)))

  block_loop-IsIndex :
      (done rest : List ℕ) (r : RoundRobin)
      → IsIndex r.next_child (done ++ rest)
      → IsIndex
          (block_loop blocked done rest r).next_child
          (block_loop blocked done rest r).runnable_children
  unfolding block_loop
  block_loop-IsIndex done [] r i = subst (IsIndex r.next_child) (append-nil done) i
  block_loop-IsIndex done (x ∷ rest) r i =
      if_split (λ (s : RoundRobin). IsIndex s.next_child s.runnable_children) (blocked x)
        (λ _.
          block_loop-IsIndex done rest
            (record r {
              blocked_children = r.blocked_children ++ (x ∷ []);
              next_child = next_after (length done) (length done + length rest) r.next_child;
            })
            (subst (λ n. IsIndex (wrap_around shifted n) (done ++ rest)) (length-append done rest)
              (wrap_around-IsIndex shifted (done ++ rest))))
        (λ _.
          block_loop-IsIndex (done ++ (x ∷ [])) rest r
            (subst (IsIndex r.next_child) (sym (append_assoc done (x ∷ []) rest)) i))
    where
      shifted : ℕ
      shifted = if ltb (length done) r.next_child then r.next_child - 1 else r.next_child

-- BlockTowardsRoot of a round-robin class takes exactly the blocked children out of the serving
-- order (the runnable children from the next one on, around the end) and keeps the order of the
-- others; the next child stays in range, if it was in range before.
pub block-order :
    (self : ℕ) (c : Classes) (r : RoundRobin)
    → IsIndex r.next_child r.runnable_children
    → (order (block self c r).2 ≡ filter (λ child. not (c.blocked child)) (order r))
      × IsIndex (block self c r).2.next_child (block self c r).2.runnable_children
unfolding block
block-order self c r i = (
  sym (
        filter-rotation (runs c.blocked) _
          (block_loop-AllPass c.blocked [] r.runnable_children r nil))
      ∙ block_loop-order c.blocked [] r.runnable_children r,
  block_loop-IsIndex c.blocked [] r.runnable_children r i,
)

module _ (blocked : Memory Bool) where
  -- The children that UnblockTowardsRoot moves go behind the runnable ones, in order.
  unblock_loop_lists :
      (l runnable : List ℕ)
      → (unblock_loop blocked l runnable).1 ≡ runnable ++ filter (λ c. not (blocked c)) l
  unfolding unblock_loop
  unblock_loop_lists [] runnable = sym (append-nil runnable)
  unblock_loop_lists (x ∷ l) runnable =
      from (not (blocked x)) (unblock_loop blocked l runnable)
        (unblock_loop blocked l (runnable ++ (x ∷ []))) (filter (λ c. not (blocked c)) l)
        (unblock_loop_lists l runnable) (unblock_loop_lists l (runnable ++ (x ∷ [])))
    where
      from :
          (b : Bool) (s m : List ℕ × List ℕ) (k : List ℕ)
          → s.1 ≡ runnable ++ k
          → m.1 ≡ (runnable ++ (x ∷ [])) ++ k
          → (if b then m else (x ∷ s.0, s.1)).1 ≡ runnable ++ (if b then x ∷ k else k)
      from true s m k p q = q ∙ append_assoc runnable (x ∷ []) k
      from false s m k p q = p

  unblock_loop_stays :
      (l runnable : List ℕ) → (unblock_loop blocked l runnable).0 ≡ filter blocked l
  unfolding unblock_loop
  unblock_loop_stays [] runnable = refl
  unblock_loop_stays (x ∷ l) runnable =
      from (blocked x) (unblock_loop blocked l runnable)
        (unblock_loop blocked l (runnable ++ (x ∷ []))) (filter blocked l)
        (unblock_loop_stays l runnable) (unblock_loop_stays l (runnable ++ (x ∷ [])))
    where
      from :
          (b : Bool) (s m : List ℕ × List ℕ) (k : List ℕ)
          → s.0 ≡ k
          → m.0 ≡ k
          → (if not b then m else (x ∷ s.0, s.1)).0 ≡ (if b then x ∷ k else k)
      from true s m k p q = ap (◌∷◌ x) p
      from false s m k p q = q

drop-append : (n : ℕ) (l m : List ℕ) → n ≤ length l → drop n (l ++ m) ≡ drop n l ++ m
drop-append zero l m h = refl
drop-append (suc n) [] m h = absurd (omega arith)
drop-append (suc n) (x ∷ l) m h = drop-append n l m (omega arith)

take-append : (n : ℕ) (l m : List ℕ) → n ≤ length l → take n (l ++ m) ≡ take n l
take-append zero l m h = refl
take-append (suc n) [] m h = absurd (omega arith)
take-append (suc n) (x ∷ l) m h = ap (◌∷◌ x) (take-append n l m (omega arith))

rotation-append :
    (next : ℕ) (l m : List ℕ)
    → next ≤ length l
    → rotation next (l ++ m) ≡ drop next l ++ (m ++ take next l)
rotation-append next l m h =
    ap₂ ◌++◌ (drop-append next l m h) (take-append next l m h)
    ∙ append_assoc (drop next l) m (take next l)

in_range : (next : ℕ) (l : List ℕ) → IsIndex next l → next ≤ length l
in_range next l (inl h) = omega arith
in_range next l (inr e) = omega arith

-- UnblockTowardsRoot of a round-robin class whose next child is in range puts the children that
-- are no longer blocked, in their order, between the runnable children that are still to come in
-- this round and those before the next one; the others stay blocked in their order, and the next
-- child stays in range.
pub unblock-order :
    (self : ℕ) (c : Classes) (r : RoundRobin)
    → IsIndex r.next_child r.runnable_children
    → (order (unblock self c r).2
        ≡ drop r.next_child r.runnable_children
          ++ (filter (λ child. not (c.blocked child)) r.blocked_children
              ++ take r.next_child r.runnable_children))
      × ((unblock self c r).2.blocked_children ≡ filter c.blocked r.blocked_children)
      × IsIndex (unblock self c r).2.next_child (unblock self c r).2.runnable_children
unfolding unblock
unblock-order self c r i =
    let lists = unblock_loop_lists c.blocked r.blocked_children r.runnable_children in
    (
      ap (rotation r.next_child) lists
          ∙ rotation-append r.next_child r.runnable_children _
              (in_range r.next_child r.runnable_children i),
      unblock_loop_stays c.blocked r.blocked_children r.runnable_children,
      subst (IsIndex r.next_child) (sym lists) (longer _ i),
    )
  where
    longer :
        (m : List ℕ)
        → IsIndex r.next_child r.runnable_children
        → IsIndex r.next_child (r.runnable_children ++ m)
    longer m (inl h) = inl (omega (arith, length-append r.runnable_children m))
    longer m (inr e) = inr e
