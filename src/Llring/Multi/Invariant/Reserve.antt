-- ===== src/Llring/Multi/Invariant/Reserve.antt =====
-- core/kmod/llring.h: the compare-and-set on `prod.head` keeps what holds of a shared ring.
use nfv.Base.{
  ℕ, ◌+◌, ◌-◌, ◌≤◌, ◌<◌, ◌≡◌, refl, sym, ap, ◌∙◌, arith, update, update_at, update_all,
  tabulate_congr, lt→ltb, le→ltb, if◌then◌else◌,
}
use nfv.Llring.{QueueBehavior, fixed, variable}
use nfv.Llring.Multi.{
  Shared, Producer, Consumer, saw_tail, copying, mp_room, mp_free, granted, reserve,
}
use nfv.Llring.Multi.Spans.{IsTiled-grow}
use nfv.Llring.Multi.Shape.{Grows, IsSized-same, size_bounds}
use nfv.Llring.Multi.Producing.{start_of, size_of, IsProducer, IsProducer-later}
use nfv.Llring.Multi.Consuming
use nfv.Llring.Multi.Invariant.{IsShared}
use nfv.Llring.Multi.Invariant.PutMover.{Mover, others, claims, inside}

-- What a grant says: at least one object, and no more than there is room for.
mp_room-granted :
    (free max : ℕ) (b : QueueBehavior) (n : ℕ)
    → 0 < max
    → mp_room free max b ≡ granted n
    → (0 < n) × (n ≤ free)
mp_room-granted free max fixed n some e = ground arith
mp_room-granted free max variable n some e = ground arith

module _ {A : Type 0} {k : ℕ} {s : Shared A} {ps : ℕ → Producer A} {cs : ℕ → Consumer A}
    (v : IsShared k s ps cs) (i : ℕ) where
  -- The compare-and-set succeeds.
  pub won :
      {obj : ℕ → A} {max : ℕ} {b : QueueBehavior} {h p t d n : ℕ}
      → Mover v i (saw_tail obj max b h p t d)
      → mp_room (mp_free s.r h t) max b ≡ granted n
      → s.reserved ≡ p
      → IsShared k (reserve n obj s) (update ps i (copying obj n b (mp_free s.r h t) h p 0)) cs
  won {obj} {max} {b} {h} {p} {t} {d} {n} m e now =
      let o = v.ordered in
      let own = m.own in
      let g = mp_room-granted (mp_free s.r h t) max b n own.head.some e in
      let z = size_bounds s.r o.sized in
      let free : mp_free s.r h t + p ≡ s.r.mask + d =
        omega (arith, own.head.word, own.word, own.near, own.old, o.taking, o.ready, o.putting) in
      let next : Producer A = copying obj n b (mp_free s.r h t) h p 0 in
      let kept : (x : ℕ) → x < s.reserved → (reserve n obj s).put x ≡ s.put x =
        λ x lt. ap (λ c. if c then s.put x else obj (x - s.reserved)) (lt→ltb x s.reserved lt) in
      let added : (j : ℕ) → (reserve n obj s).put (p + j) ≡ obj j = λ j.
        ap (λ c. if c then s.put (p + j) else obj (p + j - s.reserved))
          (le→ltb (p + j) s.reserved (omega arith))
        ∙ ap obj (omega arith) in
      let grows : Grows s (reserve n obj s) = record {
        reserved = omega arith;
        published = omega arith;
        claimed = omega arith;
        released = omega arith;
        put = kept;
      } in
      record {
        ordered = record {
          sized = IsSized-same s.r o.sized _ refl refl;
          prod_head = omega (arith, o.prod_head);
          prod_tail = o.prod_tail;
          cons_head = o.cons_head;
          cons_tail = o.cons_tail;
          taking = o.taking;
          ready = o.ready;
          putting = omega (arith, o.putting);
          room = omega (arith, own.old);
        };
        stored = λ x low high. v.stored x low high ∙ sym (kept x (omega (arith, o.putting)));
        delivered =
            v.delivered
            ∙ tabulate_congr s.released _ _
                (λ x lt. sym (kept x (omega (arith, o.taking, o.ready, o.putting))));
        putting =
            IsTiled-grow v.putting i _ _ (others v i next) n m.size
              (ap start_of (update_at ps i next) ∙ sym now) (ap size_of (update_at ps i next))
              o.putting;
        taking = v.taking;
        producers =
            update_all ps i next (IsProducer k (reserve n obj s))
              (record {
                some = g.0;
                some_left = omega arith;
                word = own.head.word;
                entered = λ j _. added j;
                written = λ j lt. absurd (omega arith);
              })
              (λ j _. IsProducer-later k (ps j) grows (inside v i j) (λ _ _. refl) (v.producers j));
        consumers = λ j. Consuming.IsConsumer-later (cs j) grows (claims v i j) (v.consumers j);
      }
