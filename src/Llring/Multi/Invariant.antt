-- ===== src/Llring/Multi/Invariant.antt =====
-- core/kmod/llring.h: what holds of a shared ring and of every thread at work on it, and that the
-- steps of producers and consumers keep it.
mod PutMover
mod Reserve
mod TakeMover
pub mod Produce
pub mod Consume
use nfv.Base.{ℕ, ◌+◌, ◌≡◌, ◌≤◌, ◌<◌, tabulate}
use nfv.Llring.Multi.{Shared, Producer, Consumer}
use nfv.Llring.Multi.Threads.{System}
use nfv.Llring.Multi.Spans.{IsTiled}
use nfv.Llring.Multi.Shape.{IsOrdered, IsStored}
use nfv.Llring.Multi.Producing
use nfv.Llring.Multi.Consuming

pub record IsShared {A : Type 0} (k : ℕ) (s : Shared A) (ps : ℕ → Producer A) (cs : ℕ → Consumer A)
    : Type 0 where
  pub ordered : IsOrdered k s
  pub stored : IsStored k s
  pub delivered : s.taken ≡ tabulate s.released s.put
  pub putting :
      IsTiled s.published s.reserved
        (λ i. Producing.start_of (ps i))
        (λ i. Producing.size_of (ps i))
  pub taking :
      IsTiled s.released s.claimed (λ i. Consuming.start_of (cs i)) (λ i. Consuming.size_of (cs i))
  pub producers : (i : ℕ) → Producing.IsProducer k s (ps i)
  pub consumers : (i : ℕ) → Consuming.IsConsumer s (cs i)
