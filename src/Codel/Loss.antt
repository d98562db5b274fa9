-- ===== src/Codel/Loss.antt =====
-- core/utils/codel.h: what `Pop` does with the entries. Nothing is lost or reordered unseen.
use mathlib.Core.Option
use nfv.Base.{
  ℕ, zero, suc, ap₂, ◌+◌, ◌<◌, ◌≡◌, refl, sym, ap, ◌∙◌, inl, inr, ◌≢◌, Bool, true, false, ◌&&◌,
  Option, none, some, List, [], ◌∷◌, ◌++◌, map, append_assoc, append-nil, arith, leb, length,
  Bool-cases, if_split,
}
use nfv.Base.Int.{ℤ, pos, negsuc}
use nfv.Codel.{
  Platform, Wrapper, Codel, Dequeue, Popped, Shed, drop_entry, after_drop, count_drop, drop_loop,
  drop_fuel, drop_dequeue, hand_out, entered, entering, enter_dropping, may_enter, pop_entry,
  pop_taken, pop, tick, next_drop,
}
use nfv.Codel.Steps.{objects, Takes, Took, none_left, oldest, ring_dequeue-Took}

module _ {ℓ} {A : Type ℓ} where
  abbrev pub given : Option A → List A
  given none = []
  given (some a) = a ∷ []

  -- What the drop function has been called with, if there is one.
  abbrev pub reported : Bool → List A → List A
  reported true gone = gone
  reported false gone = []

  -- Of the objects `xs`, oldest first, `gone` were dropped, at most one was handed out, and the
  -- rest are still queued. The drop function, if there is one, saw `gone` after `seen`. The call
  -- returns 0 with an object and `code` without one, and then nothing is queued any more.
  pub record ServesAll (xs seen : List A) (reports : Bool) (max_size : ℕ) (code : ℤ) (p : Popped A)
      : Type ℓ where
    pub gone : List A
    pub fifo : xs ≡ gone ++ (given p.obj ++ objects p.after)
    pub noted : p.after.dropped ≡ seen ++ reported reports gone
    pub limit : p.after.max_size ≡ max_size
    pub drained : p.obj ≡ none → p.after.queue ≡ []
    pub returns_zero : p.obj ≢ none → p.err ≡ pos 0
    pub returns_code : p.obj ≡ none → p.err ≡ code

  -- `c` gives what the drop function has seen, whether there is one, and the limit, which stays.
  abbrev pub Serves : List A → Codel A → ℤ → Popped A → Type ℓ
  Serves xs c code p = ServesAll xs c.dropped c.has_drop_func c.max_size code p

  dropped_entry :
      (w : Wrapper A) (c : Codel A)
      → (drop_entry w c).dropped ≡ c.dropped ++ reported c.has_drop_func (w.second ∷ [])
  unfolding drop_entry
  dropped_entry w c = ground (arith, append-nil c.dropped)

  reported_later :
      (reports : Bool) (seen all : List A) (a : A) (gone : List A)
      → all ≡ (seen ++ reported reports (a ∷ [])) ++ reported reports gone
      → all ≡ seen ++ reported reports (a ∷ gone)
  reported_later true seen all a gone h = h ∙ simp append_assoc
  reported_later false seen all a gone h = h ∙ simp append-nil

  drop_entry_keeps :
      (w : Wrapper A) (c : Codel A)
      → ((drop_entry w c).queue ≡ c.queue)
        × ((drop_entry w c).has_drop_func ≡ c.has_drop_func)
        × ((drop_entry w c).max_size ≡ c.max_size)
  unfolding drop_entry
  drop_entry_keeps w c = ground arith

  count_drop_keeps :
      (w : Wrapper A) (c : Codel A)
      → ((count_drop w c).queue ≡ c.queue)
        × ((count_drop w c).has_drop_func ≡ c.has_drop_func)
        × ((count_drop w c).max_size ≡ c.max_size)
        × ((count_drop w c).dropped ≡ (drop_entry w c).dropped)
  unfolding count_drop
  count_drop_keeps w c =
      ((drop_entry_keeps w c).0, (drop_entry_keeps w c).1, (drop_entry_keeps w c).2, refl)

  -- `w` is dropped, `w'` is taken next, and `p` is served from there.
  Serves-step :
      (w w' : Wrapper A) (c b c' : Codel A) (p : Popped A)
      → b.queue ≡ c.queue
      → b.dropped ≡ (drop_entry w c).dropped
      → b.has_drop_func ≡ c.has_drop_func
      → b.max_size ≡ c.max_size
      → Takes b w' c'
      → Serves (w'.second ∷ objects c') c' (negsuc 0) p
      → Serves (w.second ∷ objects c) c (negsuc 0) p
  Serves-step w w' c b c' p same_queue same_dropped same_func same_size t s = record {
    gone = w.second ∷ s.gone;
    fifo = ap (◌∷◌ w.second) (ap (map (λ w. w.second)) (sym same_queue ∙ t.queue) ∙ s.fifo);
    noted = reported_later c.has_drop_func c.dropped p.after.dropped w.second s.gone (
        s.noted
        ∙ ap₂ (λ d r. d ++ reported r s.gone) (t.dropped ∙ same_dropped ∙ dropped_entry w c)
            (t.has_drop_func ∙ same_func));
    limit = s.limit ∙ t.max_size ∙ same_size;
    drained = s.drained;
    returns_zero = s.returns_zero;
    returns_code = s.returns_code;
  }

  -- The entry in hand is what goes out.
  Serves-now :
      (w : Wrapper A) (c : Codel A) (drop : Bool)
      → Serves
          (w.second ∷ objects c)
          c
          (negsuc 0)
          (hand_out (record { err = pos 0; w = w; drop = drop; after = c }))
  unfolding hand_out
  Serves-now w c drop = record {
    gone = [];
    fifo = refl;
    noted = ground (arith, append-nil c.dropped);
    limit = refl;
    drained = λ e. cc;
    returns_zero = λ _. refl;
    returns_code = λ e. cc;
  }

  -- The entry in hand was the last one, and is dropped.
  Serves-none :
      (w : Wrapper A) (c : Codel A) (p : Popped A)
      → objects c ≡ []
      → p.after.queue ≡ []
      → p.err ≡ negsuc 0
      → p.obj ≡ none
      → p.after.dropped ≡ c.dropped ++ reported c.has_drop_func (w.second ∷ [])
      → p.after.max_size ≡ c.max_size
      → Serves (w.second ∷ objects c) c (negsuc 0) p
  Serves-none w c p all drained status empty noted limit = record {
    gone = w.second ∷ [];
    fifo = ap (◌∷◌ w.second) (simp (all, empty, drained));
    noted = noted;
    limit = limit;
    drained = λ _. drained;
    returns_zero = λ ne. absurd (ne empty);
    returns_code = λ _. status;
  }

  -- -2 on the empty queue, -1 if every entry was dropped.
  abbrev pub failure : List (Wrapper A) → ℤ
  failure [] = negsuc 1
  failure (_ ∷ _) = negsuc 0

module _ {ℓ} {A : Type ℓ} (platform : Platform) where
  abbrev Served : Wrapper A → Codel A → Option (Shed A) → Type ℓ
  Served w c r =
      (s : Shed A) × (r ≡ some s) × Serves (w.second ∷ objects c) c (negsuc 0) (hand_out s)

  after_drop-Served :
      (again : Wrapper A → Codel A → Option (Shed A)) (w : Wrapper A) (c : Codel A) (r : Dequeue A)
      → ((w' : Wrapper A) (c' : Codel A)
          → length c'.queue < length c.queue
          → Served w' c' (again w' c'))
      → Took (count_drop w c) true r
      → Served w c (after_drop platform again w true (count_drop w c) r)
  unfolding after_drop count_drop hand_out
  after_drop-Served again w c _ ih (none_left e) =
      let (queue, _, size, noted) = count_drop_keeps w c in
      (
        _,
        refl,
        Serves-none w c _ (ap (map (λ w. w.second)) (sym queue ∙ e)) e refl refl
            (noted ∙ dropped_entry w c) size,
      )
  after_drop-Served again w c _ ih (oldest {w = w'} {drop' = true} {c = c'} t _) =
      let (queue, func, size, noted) = count_drop_keeps w c in
      let (s, run, served) =
        ih w' (record c' { next_drop_time = next_drop platform c'.next_drop_time c' })
          (omega (arith, ap length (sym queue ∙ t.queue))) in
      (s, run, Serves-step w w' c (count_drop w c) c' _ queue noted func size t served)
  after_drop-Served again w c _ ih (oldest {w = w'} {drop' = false} {c = c'} t _) =
      let (queue, func, size, noted) = count_drop_keeps w c in
      (
        _,
        refl,
        Serves-step w w' c (count_drop w c) c' _ queue noted func size t
            (Serves-now w' (record c' { dropping = false }) false),
      )

  drop_loop-Served :
      (fuel now : ℕ) (w : Wrapper A) (c : Codel A)
      → length c.queue < fuel
      → Served w c (drop_loop platform fuel now w c)
  unfolding drop_loop
  drop_loop-Served zero now w c h = absurd (omega arith)
  drop_loop-Served (suc fuel) now w c h =
      elim (Bool-cases (leb c.next_drop_time now && c.dropping)) [
        | inl go ↦
            rw (go, drop_loop)
              (after_drop-Served (drop_loop platform fuel now) w c _
                (λ w' c' shorter. drop_loop-Served fuel now w' c' (omega arith))
                (ring_dequeue-Took platform (count_drop w c) true))
        | inr over ↦ (_, rw (over, drop_loop), Serves-now w c true)
      ]

  drop_dequeue-Served :
      (w : Wrapper A) (drop : Bool) (c : Codel A) → Served w c (drop_dequeue platform w drop c)
  unfolding drop_dequeue drop_fuel tick
  drop_dequeue-Served w false c =
      (_, refl, Serves-now w (record c { reads = c.reads + 1; dropping = false }) false)
  drop_dequeue-Served w true c =
      let c' : Codel A = record c { reads = c.reads + 1 } in
      elim (Bool-cases (leb c.next_drop_time (platform.clock c.reads))) [
        | inl overdue ↦
            rw overdue
              (drop_loop-Served (suc (length c.queue)) (platform.clock c.reads) w c' (omega arith))
        | inr waits ↦ rw waits (_, refl, Serves-now w c' true)
      ]

  after_enter :
      (now : ℕ) (w : Wrapper A) (drop : Bool) (c : Codel A) (r : Dequeue A)
      → Took (drop_entry w c) drop r
      → Serves (w.second ∷ objects c) c (negsuc 0) (entered platform now w c r)
  unfolding entered entering hand_out
  after_enter now w drop c _ (none_left e) =
      let (queue, _, size) = drop_entry_keeps w c in
      Serves-none w c _ (ap (map (λ w. w.second)) (sym queue ∙ e)) e refl refl (dropped_entry w c)
        size
  after_enter now w drop c _ (oldest {w = w'} {drop' = d} {c = c'} t _) =
      let (queue, func, size) = drop_entry_keeps w c in
      Serves-step w w' c (drop_entry w c) c' _ queue refl func size t
        (Serves-now w' (entering platform now c') d)

  abbrev pub Pops : List A → Codel A → ℤ → Option (Popped A) → Type ℓ
  Pops xs c code r = (p : Popped A) × (r ≡ some p) × Serves xs c code p

  pop_entry-Pops :
      (w : Wrapper A) (drop : Bool) (c : Codel A)
      → Pops (w.second ∷ objects c) c (negsuc 0) (pop_entry platform w drop c)
  unfolding pop_entry tick enter_dropping hand_out
  pop_entry-Pops w drop c =
      let good = Pops (w.second ∷ objects c) c (negsuc 0) in
      let c' : Codel A = record c { reads = c.reads + 1 } in
      if_split good c.dropping
        (λ _.
          let (s, run, served) = drop_dequeue-Served w drop c' in
          (hand_out s, ap (Option.map hand_out) run, served))
        (λ _.
          if_split good (drop && may_enter (platform.clock c.reads) c)
            (λ _. (
              _,
              refl,
              after_enter (platform.clock c.reads) w drop c' _
                  (ring_dequeue-Took platform (drop_entry w c') drop),
            ))
            (λ _. (_, refl, Serves-now w c' drop)))

  pop_taken-Pops :
      (c : Codel A) (r : Dequeue A)
      → Took c false r
      → Pops (objects c) c (failure c.queue) (pop_taken platform c r)
  unfolding pop_taken
  pop_taken-Pops c _ (none_left e) = (
    _,
    refl,
    record {
      gone = [];
      fifo = refl;
      noted = ground (arith, append-nil c.dropped);
      limit = refl;
      drained = λ _. e;
      returns_zero = λ ne. absurd (ne refl);
      returns_code = λ _. sym (ap failure e);
    },
  )
  pop_taken-Pops c _ (oldest {w = w} {drop' = drop'} {c = c'} t _) =
      let (p, run, s) = pop_entry-Pops w drop' c' in
      (
        p,
        run,
        record {
          gone = s.gone;
          fifo = ap (map (λ w. w.second)) t.queue ∙ s.fifo;
          noted = s.noted ∙ ap₂ (λ d r. d ++ reported r s.gone) t.dropped t.has_drop_func;
          limit = s.limit ∙ t.max_size;
          drained = s.drained;
          returns_zero = s.returns_zero;
          returns_code = λ without. s.returns_code without ∙ sym (ap failure t.queue);
        },
      )

  -- Pop always returns (the drop loop ends). What was queued is, in order, a run of dropped
  -- entries, then at most one object that is handed out, then what is still queued. The drop
  -- function, if there is one, is called with exactly the dropped entries in order, and the size
  -- limit stays. With an object the call returns 0; without one the queue is empty afterwards, and
  -- the call returns -2 if it was empty before and -1 if every entry was dropped.
  pub pop-Pops : (c : Codel A) → Pops (objects c) c (failure c.queue) (pop platform c)
  unfolding pop
  pop-Pops c = pop_taken-Pops c _ (ring_dequeue-Took platform c false)
