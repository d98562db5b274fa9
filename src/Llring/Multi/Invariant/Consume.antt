-- ===== src/Llring/Multi/Invariant/Consume.antt =====
-- core/kmod/llring.h: a step of `__llring_mc_do_dequeue` keeps what holds of a shared ring.
use native.Mathlib.Decide.{dec_lt}
use nfv.Base.{
  ℕ, ◌+◌, ◌^◌, ◌≤◌, ◌<◌, ◌≡◌, refl, sym, ap, subst, ◌∙◌, arith, update, update_at, update_off,
  update_all, tabulate, tabulate_congr, tabulate-add, ◌++◌,
}
use nfv.Base.Int.{ℤ}
use nfv.Base.Words.{sub32}
use nfv.Llring.{QueueBehavior, fixed, variable}
use nfv.Llring.Multi.{
  Shared, Producer, Consumer, idle, called, saw_tail, copying, returned, mc_room, granted, claim,
  release, Dequeue, call, load_head, load_tail, refuse, win, lose, copy, wait, finish, again,
}
use nfv.Llring.Multi.Spans.{IsTiled-grow, IsTiled-drop}
use nfv.Llring.Multi.Shape.{Grows, IsSized-same, place, size_bounds, cell-place}
use nfv.Llring.Multi.Consuming.{start_of, size_of, IsConsumer, IsConsumer-later}
use nfv.Llring.Multi.Producing
use nfv.Llring.Multi.Invariant.{IsShared}
use nfv.Llring.Multi.Invariant.TakeMover.{Mover, others, quiet, claims, reserved_in}

-- What a grant says: at least one object, and no more than there are.
mc_room-granted :
    (entries max : ℕ) (b : QueueBehavior) (n : ℕ)
    → 0 < max
    → mc_room entries max b ≡ granted n
    → (0 < n) × (n ≤ entries)
mc_room-granted entries max fixed n some e = ground arith
mc_room-granted entries max variable n some e = ground arith

module _ {A : Type 0} {k : ℕ} {s : Shared A} {ps : ℕ → Producer A} {cs : ℕ → Consumer A}
    (v : IsShared k s ps cs) (i : ℕ) where
  -- The compare-and-set succeeds.
  won :
      {obj : ℕ → A} {max : ℕ} {b : QueueBehavior} {h c t q n : ℕ}
      → Mover v i (saw_tail obj max b h c t q)
      → mc_room (sub32 t h) max b ≡ granted n
      → s.claimed ≡ c
      → IsShared k (claim n s) ps (update cs i (copying obj n b h c 0))
  won {obj} {max} {b} {h} {c} {t} {q} {n} m e now =
      let o = v.ordered in
      let own = m.own in
      let g = mc_room-granted (sub32 t h) max b n own.head.some e in
      let z = size_bounds s.r o.sized in
      let there : sub32 t h + c ≡ q =
        omega (arith, own.head.word, own.word, own.ahead, own.old, o.taking, o.putting, o.room) in
      let s' : Shared A = claim n s in
      let next : Consumer A = copying obj n b h c 0 in
      let grows : Grows s s' = record {
        reserved = omega arith;
        published = omega arith;
        claimed = omega arith;
        released = omega arith;
        put = λ _ _. refl;
      } in
      record {
        ordered = record {
          sized = IsSized-same s.r o.sized _ refl refl;
          prod_head = o.prod_head;
          prod_tail = o.prod_tail;
          cons_head = omega (arith, o.cons_head);
          cons_tail = o.cons_tail;
          taking = omega (arith, o.taking);
          ready = omega (arith, own.old);
          putting = o.putting;
          room = o.room;
        };
        stored = v.stored;
        delivered = v.delivered;
        putting = v.putting;
        taking =
            IsTiled-grow v.taking i _ _ (others v i next) n m.size
              (ap start_of (update_at cs i next) ∙ sym now) (ap size_of (update_at cs i next))
              o.taking;
        producers = λ j.
            Producing.IsProducer-later k (ps j) grows (reserved_in v i j) (λ _ _. refl)
              (v.producers j);
        consumers =
            update_all cs i next (IsConsumer s')
              (record {
                some = g.0;
                some_left = omega arith;
                word = own.head.word;
                read = λ j lt. absurd (omega arith);
              })
              (λ j _. IsConsumer-later (cs j) grows (claims v i j) (v.consumers j));
      }

  -- A position that thread `i` holds was published.
  held :
      {obj : ℕ → A} {n : ℕ} {b : QueueBehavior} {h c j : ℕ}
      → Mover v i (copying obj n b h c j)
      → (s.released ≤ c) × (c + n ≤ s.claimed) × (n ≤ 2 ^ k)
  held m =
      let o = v.ordered in
      let a = m.at in
      let z = m.size in
      let w = v.taking.inside i (omega (arith, m.own.some)) in
      (omega arith, omega arith, omega (arith, o.ready, o.putting, o.room))

  -- One object is copied from its cell.
  copied :
      {obj : ℕ → A} {n : ℕ} {b : QueueBehavior} {h c j : ℕ}
      → Mover v i (copying obj n b h c j)
      → j < n
      → IsConsumer s (copying (update obj j (s.r.ring (place k (c + j)))) n b h c (j + 1))
  copied {obj} {n} {b} {h} {c} {j} m more =
      let o = v.ordered in
      let own = m.own in
      let w = held m in
      let x : A = s.r.ring (place k (c + j)) in
      record {
        some = own.some;
        some_left = omega arith;
        word = own.word;
        read = λ d lt. elim (dec_lt d j) [
          | yes old ↦ update_off obj j x d (omega arith) ∙ own.read d old
          | no new ↦
              let now : d ≡ j = omega arith in
              subst (λ d. update obj j x d ≡ s.put (c + d)) (sym now)
                (update_at obj j x ∙ v.stored (c + j) (omega arith) (omega (arith, o.ready)))
        ];
      }

  -- The thread's turn has come: its objects are handed out.
  finished :
      {obj : ℕ → A} {n : ℕ} {b : QueueBehavior} {h c j : ℕ} (ret : ℤ)
      → Mover v i (copying obj n b h c j)
      → j ≡ n
      → s.r.cons_tail ≡ h
      → IsShared k (release h n obj s) ps (update cs i (returned ret obj))
  finished {obj} {n} {b} {h} {c} {j} ret m all turn =
      let o = v.ordered in
      let own = m.own in
      let w = held m in
      let s' : Shared A = release h n obj s in
      let next : Consumer A = returned ret obj in
      let z = size_bounds s.r o.sized in
      let first : c ≡ s.released =
        omega (arith, own.word, o.cons_tail, o.room, o.ready, o.putting) in
      let grows : Grows s s' = record {
        reserved = omega arith;
        published = omega arith;
        claimed = omega arith;
        released = omega arith;
        put = λ _ _. refl;
      } in
      record {
        ordered = record {
          sized = IsSized-same s.r o.sized _ refl refl;
          prod_head = o.prod_head;
          prod_tail = o.prod_tail;
          cons_head = o.cons_head;
          cons_tail = omega (arith, own.word);
          taking = omega arith;
          ready = o.ready;
          putting = o.putting;
          room = omega (arith, o.room);
        };
        stored = λ x low high. v.stored x (omega arith) high;
        delivered =
            ap (λ l. l ++ tabulate n obj) v.delivered
            ∙ ap (λ l. tabulate s.released s.put ++ l)
                (tabulate_congr n obj _
                  (λ d lt. own.read d (omega arith) ∙ ap (λ x. s.put (x + d)) first))
            ∙ sym (tabulate-add s.released n s.put);
        putting = v.putting;
        taking =
            IsTiled-drop v.taking i _ _ (others v i next) n (m.at ∙ first) m.size own.some
              (ap size_of (update_at cs i next));
        producers = λ j.
            Producing.IsProducer-later k (ps j) grows (reserved_in v i j) (λ _ _. refl)
              (v.producers j);
        consumers =
            update_all cs i next (IsConsumer s') tt
              (λ j _. IsConsumer-later (cs j) grows (claims v i j) (v.consumers j));
      }

  Moved :
      {c c' : Consumer A} {s' : Shared A}
      → Dequeue s c s' c'
      → Mover v i c
      → IsShared k s' ps (update cs i c')
  Moved (call {obj} {max} {b} some) m = quiet v i (called obj max b) m some refl refl
  Moved load_head m =
      quiet v i _ m (record { some = m.own; word = v.ordered.cons_head; old = omega arith }) refl
        refl
  Moved load_tail m =
      quiet v i _ m
        (record {
          head = m.own;
          word = v.ordered.prod_tail;
          old = omega arith;
          ahead = omega (arith, m.own.old, v.ordered.ready);
        })
        refl refl
  Moved (refuse e) m = quiet v i _ m tt refl refl
  Moved (win e same now) m = won m e now
  Moved (lose {obj} {max} {b} e ne) m = quiet v i (called obj max b) m m.own.head.some refl refl
  Moved (copy {obj} {n} {b} {h} {c} {i = j} more) m =
      let w = held m in
      subst
        (λ x. IsShared k s ps (update cs i (copying (update obj j (s.r.ring x)) n b h c (j + 1))))
        (sym (cell-place s.r v.ordered.sized h c j m.own.word (omega arith)))
        (quiet v i _ m (copied m more) refl refl)
  Moved (wait all ne) m = quiet v i _ m m.own refl refl
  Moved (finish all turn) m = finished _ m all turn
  Moved again m = quiet v i idle m tt refl refl

  pub Dequeue-IsShared :
      {c : Consumer A} {s' : Shared A} → Dequeue s (cs i) s' c → IsShared k s' ps (update cs i c)
  Dequeue-IsShared e = Moved e (record { own = v.consumers i; at = refl; size = refl })
