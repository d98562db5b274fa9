-- ===== src/Llring/Multi/Invariant/TakeMover.antt =====
-- core/kmod/llring.h: a thread about to take a step of `__llring_mc_do_dequeue`, and the others.
use nfv.Base.{
  ℕ, ◌+◌, ◌≤◌, ◌<◌, ◌≡◌, ◌≢◌, sym, ap, ◌∙◌, arith, update, update_at, update_off, update_all,
}
use nfv.Llring.Multi.{Shared, Producer, Consumer}
use nfv.Llring.Multi.Spans.{IsTiled-keep}
use nfv.Llring.Multi.Consuming.{start_of, size_of, IsConsumer}
use nfv.Llring.Multi.Producing
use nfv.Llring.Multi.Invariant.{IsShared}

module _ {A : Type 0} {k : ℕ} {s : Shared A} {ps : ℕ → Producer A} {cs : ℕ → Consumer A}
    (v : IsShared k s ps cs) (i : ℕ) where
  -- The other threads' spans stay.
  pub others :
      (c : Consumer A) (j : ℕ)
      → j ≢ i
      → (start_of (update cs i c j) ≡ start_of (cs j))
        × (size_of (update cs i c j) ≡ size_of (cs j))
  others c j ne = (ap start_of (update_off cs i c j ne), ap size_of (update_off cs i c j ne))

  -- Thread `i` goes on from `c`.
  pub record Mover (c : Consumer A) : Type 0 where
    pub own : IsConsumer s c
    pub at : start_of (cs i) ≡ start_of c
    pub size : size_of (cs i) ≡ size_of c

  -- A step that changes only the thread's own state
  pub quiet :
      {c : Consumer A} (c' : Consumer A)
      → Mover c
      → IsConsumer s c'
      → start_of c' ≡ start_of c
      → size_of c' ≡ size_of c
      → IsShared k s ps (update cs i c')
  quiet c' m new at size = record {
    ordered = v.ordered;
    stored = v.stored;
    delivered = v.delivered;
    putting = v.putting;
    taking =
        IsTiled-keep v.taking i _ _ (others c') (ap start_of (update_at cs i c') ∙ at ∙ sym m.at)
          (ap size_of (update_at cs i c') ∙ size ∙ sym m.size);
    producers = v.producers;
    consumers = update_all cs i c' (IsConsumer s) new (λ j _. v.consumers j);
  }

  -- What the step needs to tell the other threads.
  pub reserved_in :
      (j : ℕ)
      → 0 < Producing.size_of (ps j)
      → Producing.start_of (ps j) + Producing.size_of (ps j) ≤ s.reserved
  reserved_in j some = (v.putting.inside j some).1

  pub claims : (j : ℕ) → 0 < size_of (cs j) → start_of (cs j) + size_of (cs j) ≤ s.reserved
  claims j some = omega (arith, v.taking.inside j some, v.ordered.ready, v.ordered.putting)
