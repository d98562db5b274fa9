-- ===== src/TrafficClass/RoundRobin/Order.antt =====
-- core/traffic_class.cc: the order in which a round-robin class serves its children.
use nfv.Base.{
  ℕ, zero, suc, ◌-◌, ◌≤◌, ◌<◌, ◌⊎◌, inl, inr, ◌≡◌, refl, sym, ap, ap₂, ◌∙◌, Bool, true, false, not,
  Memory, if◌then◌else◌, List, [], ◌∷◌, ◌++◌, length, ltb, leb, take, drop, filter, filter-append,
  arith, append_assoc, append-nil, length-append, ltb→lt, ltb→le, if_split,
}
use nfv.TrafficClass.RoundRobin.{RoundRobin, block_loop, wrap_around}

-- The children from the next one on, around the end of the vector.
abbrev pub rotation : ℕ → List ℕ → List ℕ
rotation next l = drop next l ++ take next l

abbrev pub order : RoundRobin → List ℕ
order r = rotation r.next_child r.runnable_children

-- The next child is one of the runnable ones, if there are any, and the first one if not.
abbrev pub IsIndex : ℕ → List ℕ → Type 0
IsIndex next l = next < length l ⊎ (next ≡ 0)

-- Before the erased child, the front stays as it is.
take_before :
    (done rest : List ℕ) (x next : ℕ)
    → next ≤ length done
    → take next (done ++ x ∷ rest) ≡ take next (done ++ rest)
take_before done rest x zero h = refl
take_before [] rest x (suc n) h = absurd (omega arith)
take_before (y ∷ done) rest x (suc n) h = ap (◌∷◌ y) (take_before done rest x n (omega arith))

drop_after :
    (done rest : List ℕ) (x next : ℕ)
    → length done ≤ next
    → drop (suc next) (done ++ x ∷ rest) ≡ drop next (done ++ rest)
drop_after [] rest x next h = refl
drop_after (y ∷ done) rest x zero h = absurd (omega arith)
drop_after (y ∷ done) rest x (suc n) h = drop_after done rest x n (omega arith)

module _ (p : ℕ → Bool) (x : ℕ) (out : p x ≡ false) where
  filter-out : (l : List ℕ) → filter p (x ∷ l) ≡ filter p l
  filter-out l = rw out refl

  filter-drop :
      (done rest : List ℕ) (next : ℕ)
      → next ≤ length done
      → filter p (drop next (done ++ x ∷ rest)) ≡ filter p (drop next (done ++ rest))
  filter-drop [] rest zero h = filter-out rest
  filter-drop [] rest (suc n) h = absurd (omega arith)
  filter-drop (y ∷ done) rest zero h = with_head (p y) (filter-drop done rest zero (omega arith))
    where
      with_head :
          (b : Bool) {l m : List ℕ} → l ≡ m → (if b then y ∷ l else l) ≡ (if b then y ∷ m else m)
      with_head b e = ap (λ l. if b then y ∷ l else l) e
  filter-drop (y ∷ done) rest (suc n) h = filter-drop done rest n (omega arith)

  filter-take :
      (done rest : List ℕ) (next : ℕ)
      → length done ≤ next
      → filter p (take (suc next) (done ++ x ∷ rest)) ≡ filter p (take next (done ++ rest))
  filter-take [] rest next h = filter-out (take next rest)
  filter-take (y ∷ done) rest zero h = absurd (omega arith)
  filter-take (y ∷ done) rest (suc n) h =
      ap (λ l. if p y then y ∷ l else l) (filter-take done rest n (omega arith))

  -- Erasing a child that the test leaves out keeps the order of the others.
  pub erase-order :
      (done rest : List ℕ) (next : ℕ)
      → filter p (rotation (if ltb (length done) next then next - 1 else next) (done ++ rest))
        ≡ filter p (rotation next (done ++ x ∷ rest))
  erase-order done rest next =
      if_split
        (λ n. filter p (rotation n (done ++ rest)) ≡ filter p (rotation next (done ++ x ∷ rest)))
        (ltb (length done) next) (λ t. behind next (ltb→lt (length done) next t))
        (λ f. before next (ltb→le (length done) next f))
    where
      parts :
          (a b c d : List ℕ)
          → filter p a ≡ filter p c
          → filter p b ≡ filter p d
          → filter p (a ++ b) ≡ filter p (c ++ d)
      parts a b c d e f = filter-append p a b ∙ ap₂ ◌++◌ e f ∙ sym (filter-append p c d)

      before :
          (n : ℕ)
          → n ≤ length done
          → filter p (rotation n (done ++ rest)) ≡ filter p (rotation n (done ++ x ∷ rest))
      before n h =
          parts _ _ (drop n (done ++ x ∷ rest)) (take n (done ++ x ∷ rest))
            (sym (filter-drop done rest n h)) (ap (filter p) (sym (take_before done rest x n h)))

      behind :
          (n : ℕ)
          → length done < n
          → filter p (rotation (n - 1) (done ++ rest)) ≡ filter p (rotation n (done ++ x ∷ rest))
      behind zero h = absurd (omega arith)
      behind (suc n) h =
          ap (λ m. filter p (rotation m (done ++ rest))) {x = suc n - 1} {y = n} (omega arith)
          ∙ parts _ _ (drop (suc n) (done ++ x ∷ rest)) (take (suc n) (done ++ x ∷ rest))
              (ap (filter p) (sym (drop_after done rest x n (omega arith))))
              (sym (filter-take done rest n (omega arith)))

take_all : (l : List ℕ) (n : ℕ) → length l ≤ n → take n l ≡ l
take_all [] zero h = refl
take_all [] (suc n) h = refl
take_all (x ∷ l) zero h = absurd (omega arith)
take_all (x ∷ l) (suc n) h = ap (◌∷◌ x) (take_all l n (omega arith))

drop_all : (l : List ℕ) (n : ℕ) → length l ≤ n → drop n l ≡ []
drop_all [] zero h = refl
drop_all [] (suc n) h = refl
drop_all (x ∷ l) zero h = absurd (omega arith)
drop_all (x ∷ l) (suc n) h = drop_all l n (omega arith)

-- An index at the end stands for the first one.
pub rotation-wrap_around :
    (next : ℕ) (l : List ℕ) → rotation (wrap_around next (length l)) l ≡ rotation next l
rotation-wrap_around next l =
    if_split (λ n. rotation n l ≡ rotation next l) (leb (length l) next)
      (λ h. append-nil l ∙ sym (ap₂ ◌++◌ (drop_all l next (at_end h)) (take_all l next (at_end h))))
      (λ _. refl)
  where
    at_end : leb (length l) next ≡ true → length l ≤ next
    at_end h = ground arith

pub wrap_around-IsIndex : (next : ℕ) (l : List ℕ) → IsIndex (wrap_around next (length l)) l
wrap_around-IsIndex next l =
    if_split (λ n. IsIndex n l) (leb (length l) next) (λ _. inr refl) (λ h. inl (inside h))
  where
    inside : leb (length l) next ≡ false → next < length l
    inside h = ground arith

-- What the loop of BlockTowardsRoot keeps of the order, and what it gives.
pub block_loop-order :
    (blocked : Memory Bool) (done rest : List ℕ) (r : RoundRobin)
    → filter (λ c. not (blocked c)) (order (block_loop blocked done rest r))
      ≡ filter (λ c. not (blocked c)) (rotation r.next_child (done ++ rest))
unfolding block_loop
block_loop-order blocked done [] r =
    ap (λ l. filter (λ c. not (blocked c)) (rotation r.next_child l)) (sym (append-nil done))
block_loop-order blocked done (x ∷ rest) r =
    if_split
      (λ (s : RoundRobin).
        filter (λ c. not (blocked c)) (order s)
        ≡ filter (λ c. not (blocked c)) (rotation r.next_child (done ++ x ∷ rest)))
      (blocked x)
      (λ h.
        block_loop-order blocked done rest _
        ∙ ap (filter (λ c. not (blocked c))) (
            ap
              (λ n.
                rotation
                  (wrap_around
                    (if ltb (length done) r.next_child then r.next_child - 1 else r.next_child) n)
                  (done ++ rest))
              (sym (length-append done rest))
            ∙ rotation-wrap_around
                (if ltb (length done) r.next_child then r.next_child - 1 else r.next_child)
                (done ++ rest))
        ∙ erase-order (λ c. not (blocked c)) x (ap not h) done rest r.next_child)
      (λ _.
        block_loop-order blocked (done ++ (x ∷ [])) rest r
        ∙ ap (λ l. filter (λ c. not (blocked c)) (rotation r.next_child l))
            (append_assoc done (x ∷ []) rest))
