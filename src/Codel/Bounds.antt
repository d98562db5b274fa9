-- ===== src/Codel/Bounds.antt =====
-- core/utils/codel.h: the limit on the number of entries, over every sequence of calls.
use nfv.Base.{
  ℕ, suc, ◌≤◌, ◌≡◌, refl, sym, ap, ◌∙◌, ◌≢◌, true, false, not, ◌&&◌, Option, none, some, List, [],
  ◌∷◌, ◌++◌, map, append-nil, append_assoc, map-append, arith, subst, leb, ◌==◌, length,
  length-append, if_split,
}
use nfv.Base.Int.{ℤ, failed}
use nfv.Codel.{Platform, Wrapper, Codel, Popped, tick, push, push_all, pop, resize}
use nfv.Codel.Steps.{objects}
use nfv.Codel.Loss.{Serves, given, failure, pop-Pops}

module _ {ℓ} {A : Type ℓ} where
  -- The queue is within its limit, if it has one.
  abbrev pub Bounded : Codel A → Type 0
  Bounded c = c.max_size ≢ 0 → length c.queue ≤ c.max_size

  length-objects : (c : Codel A) → length (objects c) ≡ length c.queue
  length-objects c = length-map c.queue
    where
      length-map : (ws : List (Wrapper A)) → length (map (λ w. w.second) ws) ≡ length ws
      length-map [] = refl
      length-map (w ∷ ws) = ap suc (length-map ws)

-- A method call.
pub data Call {ℓ} (A : Type ℓ) : Type ℓ where
  pushes : A → Call A
  pops : Call A
  resizes : ℕ → Call A

module _ {ℓ} {A : Type ℓ} (platform : Platform) where
  -- `Pop` always returns, so the first case does not arise.
  after_pop : Codel A → Option (Popped A) → Codel A
  after_pop c none = c
  after_pop c (some p) = p.after

  -- The queue after a call.
  pub step : Codel A → Call A → Codel A
  step c (pushes a) = (push platform a c).1
  step c pops = after_pop c (pop platform c)
  step c (resizes n) = (resize platform n c).1

  pub run : Codel A → List (Call A) → Codel A
  run c [] = c
  run c (call ∷ calls) = run (step c call) calls

  push-Bounded : (a : A) (c : Codel A) → Bounded c → Bounded (push platform a c).1
  unfolding push tick
  push-Bounded a c b =
      ground
        (arith, length-append c.queue (record { first = platform.clock c.reads; second = a } ∷ []))

  pop-Bounded :
      (c : Codel A) (p : Popped A)
      → Serves (objects c) c (failure c.queue) p
      → Bounded c
      → Bounded p.after
  pop-Bounded c p s b = λ limited.
      let fewer : length p.after.queue ≤ length c.queue = omega (
        arith,
        ap length s.fifo,
        length-append s.gone (given p.obj ++ objects p.after),
        length-append (given p.obj) (objects p.after),
        length-objects c,
        length-objects p.after,
      ) in
      omega (arith, s.limit, b (λ e. limited (s.limit ∙ e)))

  step-Bounded : (c : Codel A) (call : Call A) → Bounded c → Bounded (step c call)
  unfolding step resize after_pop
  step-Bounded c (pushes a) b = push-Bounded a c b
  step-Bounded c pops b =
      let (p, run, s) = pop-Pops platform c in
      subst (λ r. Bounded (after_pop c r)) (sym run) (pop-Bounded c p s b)
  step-Bounded c (resizes n) b = ground arith

  -- Every sequence of Push, Pop and Resize calls on a queue within its size limit (0 means none)
  -- leaves it within the limit that is then in force.
  pub run-Bounded : (c : Codel A) (calls : List (Call A)) → Bounded c → Bounded (run c calls)
  unfolding run
  run-Bounded c [] b = b
  run-Bounded c (call ∷ calls) b = run-Bounded (step c call) calls (step-Bounded c call b)

  -- `Push` is refused at the limit, and appends otherwise.
  push-cases :
      (a : A) (c : Codel A)
      → (failed (push platform a c).0 ≡ true
          → ((push platform a c).1 ≡ c) × (c.max_size ≢ 0) × (c.max_size ≤ length c.queue))
        × (failed (push platform a c).0 ≡ false
            → objects (push platform a c).1 ≡ objects c ++ a ∷ [])
  unfolding push tick
  push-cases a c =
      if_split
        (λ (r : ℤ × Codel A).
          (failed r.0 ≡ true → (r.1 ≡ c) × (c.max_size ≢ 0) × (c.max_size ≤ length c.queue))
          × (failed r.0 ≡ false → objects r.1 ≡ objects c ++ a ∷ []))
        (not (c.max_size == 0) && leb c.max_size (length c.queue))
        (λ full. (λ _. (refl, ground arith, ground arith), λ e. cc))
        (λ room. (λ e. cc, λ _. map-append _ _ _))

  -- `push_all` takes a prefix of the objects, in order, behind what is queued, and returns its
  -- length; it stops early only where the queue is at its limit.
  pub record Takes (c : Codel A) (objs : List A) (r : ℕ × Codel A) : Type ℓ where
    pub prefix : List A
    pub rest : List A
    pub splits : objs ≡ prefix ++ rest
    pub count : r.0 ≡ length prefix
    pub queued : objects r.1 ≡ objects c ++ prefix
    pub at_limit : rest ≢ [] → (r.1.max_size ≢ 0) × (r.1.max_size ≤ length r.1.queue)

  -- A batch Push appends a prefix of the objects, in order, behind what is queued and returns its
  -- length; it stops before the end only if the queue is at its limit.
  pub push_all-Takes : (objs : List A) (c : Codel A) → Takes c objs (push_all platform objs c)
  unfolding push_all
  push_all-Takes [] c = record {
    prefix = [];
    rest = [];
    splits = refl;
    count = refl;
    queued = sym (append-nil _);
    at_limit = λ ne. absurd (ne refl);
  }
  push_all-Takes (a ∷ objs) c =
      if_split (Takes c (a ∷ objs)) (failed (push platform a c).0)
        (λ refused.
          let full = (push-cases a c).0 refused in
          record {
            prefix = [];
            rest = a ∷ objs;
            splits = refl;
            count = refl;
            queued = ap objects full.0 ∙ sym (append-nil _);
            at_limit = λ _.
                subst (λ (d : Codel A). (d.max_size ≢ 0) × (d.max_size ≤ length d.queue))
                  (sym full.0) (full.1, full.2);
          })
        (λ accepted.
          let t = push_all-Takes objs (push platform a c).1 in
          record {
            prefix = a ∷ t.prefix;
            rest = t.rest;
            splits = ap (◌∷◌ a) t.splits;
            count = ap suc t.count;
            queued =
                t.queued
                ∙ ap (λ xs. xs ++ t.prefix) ((push-cases a c).1 accepted)
                ∙ simp append_assoc;
            at_limit = t.at_limit;
          })
