-- ===== src/Codel/Latency.antt =====
-- core/utils/codel.h: an entry that has not waited for long is handed out.
use nfv.Base.{◌+◌, ◌<◌, ◌≡◌, refl, sym, subst, false, Option, some, List, ◌∷◌, lt→ltb, if_split}
use nfv.Base.Int.{pos}
use nfv.Base.Words.{sub64}
use nfv.Codel.{
  Platform, Wrapper, Codel, Popped, judge, tick, dequeue_from, ring_dequeue, drop_dequeue, hand_out,
  pop_entry, pop_taken, pop,
}

module _ {ℓ} {A : Type ℓ} (platform : Platform) where
  -- `w` is handed out, `rest` is queued, nothing is dropped, and no drop is under way.
  abbrev pub HandsOut : Wrapper A → List (Wrapper A) → List A → Option (Popped A) → Type ℓ
  HandsOut w rest dropped r =
      (p : Popped A) × (r ≡ some p)
      × (p.err ≡ pos 0)
      × (p.obj ≡ some w.second)
      × (p.after.queue ≡ rest)
      × (p.after.dropped ≡ dropped)
      × (p.after.dropping ≡ false)
      × (p.after.time_above_target ≡ 0)

  pop_entry-HandsOut :
      (w : Wrapper A) (c : Codel A)
      → c.time_above_target ≡ 0
      → HandsOut w c.queue c.dropped (pop_entry platform w false c)
  unfolding pop_entry drop_dequeue hand_out tick
  pop_entry-HandsOut w c below =
      if_split (HandsOut w c.queue c.dropped) c.dropping
        (λ _. (_, refl, refl, refl, refl, refl, refl, below))
        (λ calm. (_, refl, refl, refl, refl, refl, calm, below))

  pop_first-HandsOut :
      (c : Codel A) (w : Wrapper A) (rest : List (Wrapper A))
      → sub64 (platform.clock c.reads) w.first < c.delay_target
      → HandsOut w rest c.dropped (pop_taken platform c (dequeue_from platform (w ∷ rest) c false))
  unfolding pop_taken dequeue_from judge tick
  pop_first-HandsOut c w rest h = rw (lt→ltb _ _ h) (
      pop_entry-HandsOut w (record c { queue = rest; reads = c.reads + 1; time_above_target = 0 })
        refl)

  -- If the oldest entry has waited for less than the delay target, Pop hands that entry out with 0
  -- and drops nothing; it leaves the dropping state, and the time above the target is reset.
  pub pop-HandsOut :
      (c : Codel A) (w : Wrapper A) (rest : List (Wrapper A))
      → c.queue ≡ w ∷ rest
      → sub64 (platform.clock c.reads) w.first < c.delay_target
      → HandsOut w rest c.dropped (pop platform c)
  unfolding pop ring_dequeue
  pop-HandsOut c w rest e h =
      subst
        (λ ws. HandsOut w rest c.dropped (pop_taken platform c (dequeue_from platform ws c false)))
        (sym e) (pop_first-HandsOut c w rest h)
