-- ===== src/Codel/Steps.antt =====
-- core/utils/codel.h: what one `RingDequeue` does to the queue, whatever the clock says.
use nfv.Base.Words.{sub64}
use nfv.Base.{
  ltb, leb, ◌==◌, Bool-cases, ℕ, ◌≡◌, refl, inl, inr, Bool, true, List, [], ◌∷◌, map, arith,
}
use nfv.Codel.{
  Platform, Wrapper, Codel, Dequeue, underflow, taken, judge, tick, dequeue_from, ring_dequeue,
}

module _ {ℓ} {A : Type ℓ} where
  abbrev pub objects : Codel A → List A
  objects c = map (λ w. w.second) c.queue

  -- `c'` is `c` without its oldest entry `w`, but for the clock and `time_above_target`.
  pub record Takes (c : Codel A) (w : Wrapper A) (c' : Codel A) : Type ℓ where
    pub queue : c.queue ≡ w ∷ c'.queue
    pub dropped : c'.dropped ≡ c.dropped
    pub has_drop_func : c'.has_drop_func ≡ c.has_drop_func
    pub max_size : c'.max_size ≡ c.max_size
    pub dropping : c'.dropping ≡ c.dropping
    pub drop_count : c'.drop_count ≡ c.drop_count
    pub next_drop_time : c'.next_drop_time ≡ c.next_drop_time
    pub window : c'.window ≡ c.window

  -- What `RingDequeue` comes to on `b`: a flag that was set stays set.
  pub data Took (b : Codel A) (drop : Bool) : Dequeue A → Type ℓ where
    none_left : b.queue ≡ [] → Took b drop underflow
    oldest :
        {w : Wrapper A} {drop' : Bool} {c : Codel A}
        → Takes b w c
        → (drop ≡ true → drop' ≡ true)
        → Took b drop (taken w drop' c)

  judge-Took :
      (now : ℕ) (w : Wrapper A) (drop : Bool) (b c : Codel A)
      → Takes b w c
      → Took b drop (judge now w drop c)
  unfolding judge
  judge-Took now w drop b c t = elim (Bool-cases (ltb (sub64 now w.first) c.delay_target)) [
    | inl low ↦ rw low (oldest (ground arith) (λ e. e))
    | inr high ↦ elim (Bool-cases (c.time_above_target == 0)) [
      | inl first ↦ rw (high, first) (oldest (ground arith) (λ e. e))
      | inr later ↦ elim (Bool-cases (leb c.time_above_target now)) [
        | inl late ↦ rw (high, later, late) (oldest t (λ e. refl))
        | inr early ↦ rw (high, later, early) (oldest t (λ e. e))
      ]
    ]
  ]

  taken_queue :
      (c : Codel A) (reads : ℕ) (w : Wrapper A) (rest : List (Wrapper A))
      → c.queue ≡ w ∷ rest
      → Takes c w (record c { queue = rest; reads = reads })
  taken_queue c reads w rest e = record {
    queue = e;
    dropped = refl;
    has_drop_func = refl;
    max_size = refl;
    dropping = refl;
    drop_count = refl;
    next_drop_time = refl;
    window = refl;
  }

module _ {ℓ} {A : Type ℓ} (platform : Platform) where
  dequeue_from-Took :
      (ws : List (Wrapper A)) (c : Codel A) (drop : Bool)
      → c.queue ≡ ws
      → Took c drop (dequeue_from platform ws c drop)
  unfolding dequeue_from tick
  dequeue_from-Took [] c drop e = none_left e
  dequeue_from-Took (w ∷ rest) c drop e = judge-Took _ w drop c _ (taken_queue c _ w rest e)

  -- `RingDequeue` fails exactly on the empty queue, and otherwise takes the oldest entry.
  pub ring_dequeue-Took : (c : Codel A) (drop : Bool) → Took c drop (ring_dequeue platform c drop)
  unfolding ring_dequeue
  ring_dequeue-Took c drop = dequeue_from-Took c.queue c drop refl
