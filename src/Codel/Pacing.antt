-- ===== src/Codel/Pacing.antt =====
-- core/utils/codel.h: how the dropping state ends.
use nfv.Base.{
  ℕ, zero, suc, ◌+◌, ◌<◌, ◌≡◌, refl, sym, ap, ◌∙◌, ◌⊎◌, inl, inr, true, false, ◌&&◌, Option, some,
  [], arith, leb, length, if_split,
}
use nfv.Base.Int.{pos, negsuc}
use nfv.Codel.{
  Platform, Wrapper, Codel, Dequeue, Shed, drop_entry, after_drop, count_drop, drop_loop, drop_fuel,
  drop_dequeue, tick, next_drop,
}
use nfv.Codel.Steps.{Took, none_left, oldest, ring_dequeue-Took}

module _ {ℓ} {A : Type ℓ} (platform : Platform) where
  -- Either an entry is left to hand out, and the next drop is still to come, or none is left.
  abbrev pub Paced : ℕ → Option (Shed A) → Type ℓ
  Paced now r =
      (s : Shed A) × (r ≡ some s)
      × (((s.err ≡ pos 0) × (s.after.dropping ≡ true) × (now < s.after.next_drop_time))
          ⊎ ((s.err ≡ negsuc 0) × (s.after.dropping ≡ false) × (s.after.queue ≡ [])))

  count_drop_state :
      (w : Wrapper A) (c : Codel A)
      → ((count_drop w c).queue ≡ c.queue) × ((count_drop w c).dropping ≡ c.dropping)
  unfolding count_drop drop_entry
  count_drop_state w c = ground arith

  after_drop-Paced :
      (again : Wrapper A → Codel A → Option (Shed A)) (now : ℕ) (w : Wrapper A) (c : Codel A)
      (r : Dequeue A)
      → ((w' : Wrapper A) (c' : Codel A)
          → length c'.queue < length c.queue
          → c'.dropping ≡ true
          → Paced now (again w' c'))
      → c.dropping ≡ true
      → Took (count_drop w c) true r
      → Paced now (after_drop platform again w true (count_drop w c) r)
  unfolding after_drop
  after_drop-Paced again now w c _ ih d (none_left e) = (_, refl, inr (refl, refl, e))
  after_drop-Paced again now w c _ ih d (oldest {w = w'} {drop' = true} {c = c'} t _) =
      let (queue, dropping) = count_drop_state w c in
      ih w' (record c' { next_drop_time = next_drop platform c'.next_drop_time c' })
        (omega (arith, ap length (sym queue ∙ t.queue))) (t.dropping ∙ dropping ∙ d)
  after_drop-Paced again now w c _ ih d (oldest {w = w'} {drop' = false} {c = c'} t stays) =
      cc (stays refl)

  drop_loop-Paced :
      (fuel now : ℕ) (w : Wrapper A) (c : Codel A)
      → length c.queue < fuel
      → c.dropping ≡ true
      → Paced now (drop_loop platform fuel now w c)
  unfolding drop_loop
  drop_loop-Paced zero now w c h d = absurd (omega arith)
  drop_loop-Paced (suc fuel) now w c h d =
      if_split (Paced now) (leb c.next_drop_time now && c.dropping)
        (λ _.
          after_drop-Paced (drop_loop platform fuel now) now w c _
            (λ w' c' shorter d'. drop_loop-Paced fuel now w' c' (omega arith) d') d
            (ring_dequeue-Took platform (count_drop w c) true))
        (λ ends. (_, refl, inl (refl, d, ground arith)))

  -- In the dropping state, with an entry in hand that is flagged for dropping, DropDequeue
  -- returns: either with an entry, still in the dropping state and with the next drop time ahead
  -- of its reading of the clock, or with -1, out of the dropping state and with nothing queued.
  -- The delay of the entry that it hands out does not end the dropping state.
  pub drop_dequeue-Paced :
      (w : Wrapper A) (c : Codel A)
      → c.dropping ≡ true
      → Paced (platform.clock c.reads) (drop_dequeue platform w true c)
  unfolding drop_dequeue drop_fuel tick
  drop_dequeue-Paced w c d =
      let now = platform.clock c.reads in
      let c' : Codel A = record c { reads = c.reads + 1 } in
      if_split (Paced now) (leb c.next_drop_time now)
        (λ _. drop_loop-Paced (suc (length c.queue)) now w c' (omega arith) d)
        (λ waits. (_, refl, inl (refl, d, ground arith)))
