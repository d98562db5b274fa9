-- ===== src/Llring/Multi/Invariant/PutMover.antt =====
-- core/kmod/llring.h: a thread about to take a step of `__llring_mp_do_enqueue`, and the others.
use native.Mathlib.Decide.{dec_lt}
use nfv.Base.{
  ℕ, ◌+◌, ◌≤◌, ◌<◌, ◌≡◌, ◌≢◌, sym, ap, ◌∙◌, arith, update, update_at, update_off, update_all,
}
use nfv.Llring.Multi.{Shared, Producer, Consumer}
use nfv.Llring.Multi.Spans.{IsTiled-keep}
use nfv.Llring.Multi.Shape.{place, place_apart}
use nfv.Llring.Multi.Producing.{start_of, size_of, IsProducer}
use nfv.Llring.Multi.Consuming
use nfv.Llring.Multi.Invariant.{IsShared}

module _ {A : Type 0} {k : ℕ} {s : Shared A} {ps : ℕ → Producer A} {cs : ℕ → Consumer A}
    (v : IsShared k s ps cs) (i : ℕ) where
  -- The other threads' spans stay.
  pub others :
      (p : Producer A) (j : ℕ)
      → j ≢ i
      → (start_of (update ps i p j) ≡ start_of (ps j))
        × (size_of (update ps i p j) ≡ size_of (ps j))
  others p j ne = (ap start_of (update_off ps i p j ne), ap size_of (update_off ps i p j ne))

  -- Thread `i` goes on from `p`.
  pub record Mover (p : Producer A) : Type 0 where
    pub own : IsProducer k s p
    pub at : start_of (ps i) ≡ start_of p
    pub size : size_of (ps i) ≡ size_of p

  -- A step that changes only the thread's own state
  pub quiet :
      {p : Producer A} (p' : Producer A)
      → Mover p
      → IsProducer k s p'
      → start_of p' ≡ start_of p
      → size_of p' ≡ size_of p
      → IsShared k s (update ps i p') cs
  quiet p' m new at size = record {
    ordered = v.ordered;
    stored = v.stored;
    delivered = v.delivered;
    putting =
        IsTiled-keep v.putting i _ _ (others p') (ap start_of (update_at ps i p') ∙ at ∙ sym m.at)
          (ap size_of (update_at ps i p') ∙ size ∙ sym m.size);
    taking = v.taking;
    producers = update_all ps i p' (IsProducer k s) new (λ j _. v.producers j);
    consumers = v.consumers;
  }

  pub inside : (j : ℕ) → 0 < size_of (ps j) → start_of (ps j) + size_of (ps j) ≤ s.reserved
  inside j some = (v.putting.inside j some).1

  pub claims :
      (j : ℕ)
      → 0 < Consuming.size_of (cs j)
      → Consuming.start_of (cs j) + Consuming.size_of (cs j) ≤ s.reserved
  claims j some = omega (arith, v.taking.inside j some, v.ordered.ready, v.ordered.putting)

  -- Two places of the ring's present window differ.
  pub places_apart :
      (y z : ℕ)
      → s.released ≤ y
      → y < s.reserved
      → s.released ≤ z
      → z < s.reserved
      → y ≢ z
      → place k y ≢ place k z
  places_apart y z a b c d ne e =
      let o = v.ordered in
      elim (dec_lt y z) [
        | yes lt ↦ place_apart s.r o.sized y z lt (omega (arith, o.room)) e
        | no ge ↦ place_apart s.r o.sized z y (omega arith) (omega (arith, o.room)) (sym e)
      ]
