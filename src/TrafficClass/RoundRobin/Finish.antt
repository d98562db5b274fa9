-- ===== src/TrafficClass/RoundRobin/Finish.antt =====
-- core/traffic_class.cc: PickNextChild and FinishAndAccountTowardsRoot of a round-robin class.
use nfv.Base.{
  ℕ, zero, suc, ◌+◌, ◌<◌, ◌^◌, inl, inr, ◌≡◌, refl, sym, ap, ap₂, ◌∙◌, some, if◌then◌else◌, List,
  [], ◌∷◌, ◌++◌, length, get_elem?, erase_at, take, drop, arith, append_assoc, Bool-cases,
}
use nfv.Base.Words.{u64}
use nfv.TrafficClass.{Classes}
use nfv.TrafficClass.RoundRobin.{RoundRobin, finish_and_account, pick_next_child}
use nfv.TrafficClass.RoundRobin.Order.{rotation, order, rotation-wrap_around}

-- The picked child is the head of the order.
rotation-suc :
    (n : ℕ) (l : List ℕ) (child : ℕ)
    → get_elem? l n ≡ some child
    → (rotation n l ≡ child ∷ (drop (suc n) l ++ take n l))
      × (rotation (suc n) l ≡ (drop (suc n) l ++ take n l) ++ (child ∷ []))
      × (rotation n (erase_at n l) ≡ drop (suc n) l ++ take n l)
rotation-suc n l child h = (
  ap (λ m. m ++ take n l) (head n l h),
  ap (λ m. drop (suc n) l ++ m) (last n l h)
      ∙ sym (append_assoc (drop (suc n) l) (take n l) (child ∷ [])),
  ap₂ ◌++◌ (rest n l) (front n l),
)
  where
    head : (n : ℕ) (l : List ℕ) → get_elem? l n ≡ some child → drop n l ≡ child ∷ drop (suc n) l
    head n [] h = absurd (cc)
    head zero (x ∷ l) h = ap (λ y. y ∷ l) {x = x} {y = child} (cc)
    head (suc n) (x ∷ l) h = head n l h

    last :
        (n : ℕ) (l : List ℕ)
        → get_elem? l n ≡ some child
        → take (suc n) l ≡ take n l ++ (child ∷ [])
    last n [] h = absurd (cc)
    last zero (x ∷ l) h = ap (λ y. y ∷ []) {x = x} {y = child} (cc)
    last (suc n) (x ∷ l) h = ap (◌∷◌ x) (last n l h)

    rest : (n : ℕ) (l : List ℕ) → drop n (erase_at n l) ≡ drop (suc n) l
    rest zero [] = refl
    rest (suc n) [] = refl
    rest zero (x ∷ l) = refl
    rest (suc n) (x ∷ l) = rest n l

    front : (n : ℕ) (l : List ℕ) → take n (erase_at n l) ≡ take n l
    front zero l = refl
    front (suc n) [] = refl
    front (suc n) (x ∷ l) = ap (◌∷◌ x) (front n l)

-- When the picked child of a round-robin class has run once, it goes to the end of the serving
-- order, or out of it if it is blocked; the others keep their order. There are fewer than 2^64
-- runnable children.
pub finish_and_account-order :
    (self child : ℕ) (c : Classes) (r : RoundRobin)
    → pick_next_child r ≡ some child
    → length r.runnable_children < 2 ^ 64
    → (order r ≡ child ∷ drop 1 (order r))
      × (order (finish_and_account self child 1 c r).1
          ≡ (if c.blocked child then drop 1 (order r) else drop 1 (order r) ++ (child ∷ [])))
unfolding finish_and_account pick_next_child
finish_and_account-order self child c r h small = (
  facts.0 ∙ ap (λ m. child ∷ drop 1 m) (sym facts.0),
  elim (Bool-cases (c.blocked child)) [
    | inl e ↦ rw e (rotation-wrap_around n (erase_at n l) ∙ facts.2 ∙ ap (drop 1) (sym facts.0))
    | inr e ↦ rw e (
        rotation-wrap_around (u64 (n + 1)) l
        ∙ ap (λ m. rotation m l) {x = u64 (n + 1)} {y = suc n} (omega (arith, index_lt l n h))
        ∙ facts.1
        ∙ ap (λ m. drop 1 m ++ (child ∷ [])) (sym facts.0))
  ],
)
  where
    n : ℕ
    n = r.next_child

    l : List ℕ
    l = r.runnable_children

    facts :
        (rotation n l ≡ child ∷ (drop (suc n) l ++ take n l))
        × (rotation (suc n) l ≡ (drop (suc n) l ++ take n l) ++ (child ∷ []))
        × (rotation n (erase_at n l) ≡ drop (suc n) l ++ take n l)
    facts = rotation-suc n l child h

    index_lt : (l : List ℕ) (n : ℕ) → get_elem? l n ≡ some child → n < length l
    index_lt [] n h = absurd (cc)
    index_lt (x ∷ l) zero h = omega arith
    index_lt (x ∷ l) (suc n) h = omega (arith, index_lt l n h)
