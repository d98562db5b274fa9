-- ===== src/Llring/Multi/Invariant/Produce.antt =====
-- core/kmod/llring.h: a step of `__llring_mp_do_enqueue` keeps what holds of a shared ring.
use native.Mathlib.Decide.{dec_lt}
use nfv.Base.{
  ℕ, ◌+◌, ◌-◌, ◌^◌, ◌≤◌, ◌<◌, ◌≡◌, ◌≢◌, refl, sym, ap, subst, ◌∙◌, arith, update, update_at,
  update_off, update_all,
}
use nfv.Base.Int.{ℤ}
use nfv.Llring.{QueueBehavior}
use nfv.Llring.Multi.{
  Shared, Producer, Consumer, idle, called, copying, returned, store, publish, Enqueue, call,
  load_head, load_tail, refuse, win, lose, copy, wait, finish, again,
}
use nfv.Llring.Multi.Spans.{IsTiled-drop, IsTiled-keep}
use nfv.Llring.Multi.Shape.{Grows, IsSized-same, place, size_bounds, cell-place}
use nfv.Llring.Multi.Producing.{start_of, size_of, IsProducer, IsProducer-later}
use nfv.Llring.Multi.Consuming
use nfv.Llring.Multi.Invariant.{IsShared}
use nfv.Llring.Multi.Invariant.Reserve.{won}
use nfv.Llring.Multi.Invariant.PutMover.{Mover, others, quiet, claims, inside, places_apart}

module _ {A : Type 0} {k : ℕ} {s : Shared A} {ps : ℕ → Producer A} {cs : ℕ → Consumer A}
    (v : IsShared k s ps cs) (i : ℕ) where
  -- A position that thread `i` holds lies in the ring's present window.
  held :
      {obj : ℕ → A} {n : ℕ} {b : QueueBehavior} {f h p j : ℕ}
      → Mover v i (copying obj n b f h p j)
      → (s.published ≤ p) × (p + n ≤ s.reserved) × (s.released ≤ p) × (n ≤ 2 ^ k)
  held m =
      let o = v.ordered in
      let a = m.at in
      let z = m.size in
      let w = v.putting.inside i (omega (arith, m.own.some)) in
      (
        omega arith,
        omega arith,
        omega (arith, o.taking, o.ready),
        omega (arith, o.taking, o.ready, o.room),
      )

  -- One object is copied to its cell.
  copied :
      {obj : ℕ → A} {n : ℕ} {b : QueueBehavior} {f h p j : ℕ}
      → Mover v i (copying obj n b f h p j)
      → j < n
      → IsShared k
          (store (place k (p + j)) (obj j) s)
          (update ps i (copying obj n b f h p (j + 1)))
          cs
  copied {obj} {n} {b} {f} {h} {p} {j} m more =
      let o = v.ordered in
      let own = m.own in
      let w = held m in
      let y = p + j in
      let s' : Shared A = store (place k y) (obj j) s in
      let next : Producer A = copying obj n b f h p (j + 1) in
      let same : (x : ℕ)
          → s.released ≤ x
          → x < s.reserved
          → x ≢ y
          → s'.r.ring (place k x) ≡ s.r.ring (place k x) =
        λ x low high ne.
          update_off s.r.ring (place k y) (obj j) (place k x)
            (places_apart v i x y low high (omega arith) (omega arith) ne) in
      let grows : Grows s s' = record {
        reserved = omega arith;
        published = omega arith;
        claimed = omega arith;
        released = omega arith;
        put = λ _ _. refl;
      } in
      record {
        ordered = record {
          sized = IsSized-same s.r o.sized _ refl refl;
          prod_head = o.prod_head;
          prod_tail = o.prod_tail;
          cons_head = o.cons_head;
          cons_tail = o.cons_tail;
          taking = o.taking;
          ready = o.ready;
          putting = o.putting;
          room = o.room;
        };
        stored =
            λ x low high. same x low (omega (arith, o.putting)) (omega arith) ∙ v.stored x low high;
        delivered = v.delivered;
        putting =
            IsTiled-keep v.putting i _ _ (others v i next)
              (ap start_of (update_at ps i next) ∙ sym m.at)
              (ap size_of (update_at ps i next) ∙ sym m.size);
        taking = v.taking;
        producers =
            update_all ps i next (IsProducer k s')
              (record {
                some = own.some;
                some_left = omega arith;
                word = own.word;
                entered = own.entered;
                written = λ c lt. elim (dec_lt c j) [
                  | yes old ↦
                      same (p + c) (omega arith) (omega arith) (omega arith) ∙ own.written c old
                  | no new ↦
                      let now : c ≡ j = omega arith in
                      ap (λ x. s'.r.ring (place k (p + x))) now
                      ∙ update_at s.r.ring (place k y) (obj j)
                      ∙ ap obj (sym now)
                ];
              })
              (λ c ne.
                IsProducer-later k (ps c) grows (inside v i c)
                  (λ e lt.
                    same (start_of (ps c) + e)
                      (omega (arith, v.putting.inside c (omega arith), o.taking, o.ready))
                      (omega (arith, v.putting.inside c (omega arith)))
                      (omega (
                        arith,
                        v.putting.apart c i ne (omega arith) (omega (arith, m.size)),
                        m.size,
                        m.at,
                      )))
                  (v.producers c));
        consumers = λ c. Consuming.IsConsumer-later (cs c) grows (claims v i c) (v.consumers c);
      }

  -- The thread's turn has come: its objects are published.
  finished :
      {obj : ℕ → A} {n : ℕ} {b : QueueBehavior} {f h p j : ℕ} (ret : ℤ)
      → Mover v i (copying obj n b f h p j)
      → j ≡ n
      → s.r.prod_tail ≡ h
      → IsShared k (publish h n s) (update ps i (returned ret)) cs
  finished {obj} {n} {b} {f} {h} {p} {j} ret m all turn =
      let o = v.ordered in
      let own = m.own in
      let w = held m in
      let s' : Shared A = publish h n s in
      let next : Producer A = returned ret in
      let z = size_bounds s.r o.sized in
      let first : p ≡ s.published =
        omega (arith, own.word, o.prod_tail, o.room, o.taking, o.ready) in
      let grows : Grows s s' = record {
        reserved = omega arith;
        published = omega arith;
        claimed = omega arith;
        released = omega arith;
        put = λ _ _. refl;
      } in
      record {
        ordered = record {
          sized = IsSized-same s.r o.sized _ refl refl;
          prod_head = o.prod_head;
          prod_tail = omega (arith, own.word);
          cons_head = o.cons_head;
          cons_tail = o.cons_tail;
          taking = o.taking;
          ready = omega (arith, o.ready);
          putting = omega arith;
          room = o.room;
        };
        stored = λ x low high. elim (dec_lt x s.published) [
          | yes old ↦ v.stored x low old
          | no new ↦
              let at : p + (x - p) ≡ x = omega arith in
              subst (λ y. s.r.ring (place k y) ≡ s.put y) at
                (own.written (x - p) (omega arith) ∙ sym (own.entered (x - p) (omega arith)))
        ];
        delivered = v.delivered;
        putting =
            IsTiled-drop v.putting i _ _ (others v i next) n (m.at ∙ first) m.size own.some
              (ap size_of (update_at ps i next));
        taking = v.taking;
        producers =
            update_all ps i next (IsProducer k s') tt
              (λ c _. IsProducer-later k (ps c) grows (inside v i c) (λ _ _. refl) (v.producers c));
        consumers = λ c. Consuming.IsConsumer-later (cs c) grows (claims v i c) (v.consumers c);
      }

  Moved :
      {p p' : Producer A} {s' : Shared A}
      → Enqueue s p s' p'
      → Mover v i p
      → IsShared k s' (update ps i p') cs
  Moved (call {obj} {max} {b} some) m = quiet v i (called obj max b) m some refl refl
  Moved (load_head {obj} {max} {b}) m =
      quiet v i _ m (record { some = m.own; word = v.ordered.prod_head; old = omega arith }) refl
        refl
  Moved (load_tail {obj} {max} {b} {h} {p}) m =
      quiet v i _ m
        (record {
          head = m.own;
          word = v.ordered.cons_tail;
          old = omega arith;
          near = omega (arith, m.own.old, v.ordered.room);
        })
        refl refl
  Moved (refuse e) m = quiet v i _ m tt refl refl
  Moved (win e same now) m = won v i m e now
  Moved (lose {obj} {max} {b} e ne) m = quiet v i (called obj max b) m m.own.head.some refl refl
  Moved (copy {obj} {n} {b} {f} {h} {p} {i = j} more) m =
      let w = held m in
      subst (λ x. IsShared k (store x (obj j) s) (update ps i (copying obj n b f h p (j + 1))) cs)
        (sym (cell-place s.r v.ordered.sized h p j m.own.word (omega arith))) (copied m more)
  Moved (wait all ne) m = quiet v i _ m m.own refl refl
  Moved (finish all turn) m = finished _ m all turn
  Moved again m = quiet v i idle m tt refl refl

  pub Enqueue-IsShared :
      {p : Producer A} {s' : Shared A} → Enqueue s (ps i) s' p → IsShared k s' (update ps i p) cs
  Enqueue-IsShared e = Moved e (record { own = v.producers i; at = refl; size = refl })
