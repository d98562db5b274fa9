-- ===== src/Llring/Multi/Races.antt =====
-- core/kmod/llring.h: the cells that threads at work on one ring write and read.
use native.Mathlib.Decide.{dec_lt}
use nfv.Base.{
  ℕ, ◌+◌, ◌^◌, ◌≤◌, ◌<◌, ◌≡◌, ◌≢◌, sym, ◌∙◌, arith, ltb, Memory, Option, none, some, if◌then◌else◌,
}
use nfv.Llring.{Llring}
use nfv.Llring.Multi.{Producer, Consumer, copying, cell}
use nfv.Llring.Multi.Threads.{System, start, Reach}
use nfv.Llring.Multi.Shape.{place, cell-place, place_apart}
use nfv.Llring.Multi.Producing
use nfv.Llring.Multi.Consuming
use nfv.Llring.Multi.Reached.{IsNew, IsSystem, start-reached}

-- The cell that a producer writes next
abbrev pub writes : {A : Type 0} → Llring A → Producer A → Option ℕ
writes r (copying obj n b f h p i) = if ltb i n then some (cell r h i) else none
writes r _ = none

-- The cell that a consumer reads next
abbrev pub reads : {A : Type 0} → Llring A → Consumer A → Option ℕ
reads r (copying obj n b h c i) = if ltb i n then some (cell r h i) else none
reads r _ = none

module _ {A : Type 0} {k : ℕ} {s : System A} (v : IsSystem k s) where
  -- The next cell is the place of a position that the producer holds.
  writes_held :
      (p : Producer A) (x : ℕ)
      → Producing.IsProducer k s.shared p
      → Producing.size_of p ≤ 2 ^ k
      → writes s.shared.r p ≡ some x
      → (y : ℕ) × (Producing.start_of p ≤ y)
        × (y < Producing.start_of p + Producing.size_of p)
        × (x ≡ place k y)
  writes_held (copying obj n b f h p i) x c few e = elim (dec_lt i n) [
    | yes more ↦ (
      p + i,
      omega arith,
      omega arith,
      ground (arith, cell-place s.shared.r v.ordered.sized h p i c.word),
    )
    | no done ↦ absurd (ground arith)
  ]
  writes_held _ x c few e = absurd (ground arith)

  reads_held :
      (p : Consumer A) (x : ℕ)
      → Consuming.IsConsumer s.shared p
      → Consuming.size_of p ≤ 2 ^ k
      → reads s.shared.r p ≡ some x
      → (y : ℕ) × (Consuming.start_of p ≤ y)
        × (y < Consuming.start_of p + Consuming.size_of p)
        × (x ≡ place k y)
  reads_held (copying obj n b h p i) x c few e = elim (dec_lt i n) [
    | yes more ↦ (
      p + i,
      omega arith,
      omega arith,
      ground (arith, cell-place s.shared.r v.ordered.sized h p i c.word),
    )
    | no done ↦ absurd (ground arith)
  ]
  reads_held _ x c few e = absurd (ground arith)

  few_in : (i : ℕ) → Producing.size_of (s.producers i) ≤ 2 ^ k
  few_in i =
      let o = v.ordered in
      elim (dec_lt 0 (Producing.size_of (s.producers i))) [
        | yes held ↦ omega (arith, v.putting.inside i held, o.room, o.taking, o.ready)
        | no free ↦ omega arith
      ]

  few_out : (i : ℕ) → Consuming.size_of (s.consumers i) ≤ 2 ^ k
  few_out i =
      let o = v.ordered in
      elim (dec_lt 0 (Consuming.size_of (s.consumers i))) [
        | yes held ↦ omega (arith, v.taking.inside i held, o.room, o.putting, o.ready)
        | no free ↦ omega arith
      ]

  window_apart :
      (y z : ℕ)
      → s.shared.released ≤ y
      → y < s.shared.reserved
      → s.shared.released ≤ z
      → z < s.shared.reserved
      → y ≢ z
      → place k y ≢ place k z
  window_apart y z a b c d ne e =
      let o = v.ordered in
      elim (dec_lt y z) [
        | yes lt ↦ place_apart s.shared.r o.sized y z lt (omega (arith, o.room)) e
        | no ge ↦ place_apart s.shared.r o.sized z y (omega arith) (omega (arith, o.room)) (sym e)
      ]

  producers_apart :
      (i j x : ℕ)
      → i ≢ j
      → writes s.shared.r (s.producers i) ≡ some x
      → writes s.shared.r (s.producers j) ≢ some x
  producers_apart i j x ne e f =
      let o = v.ordered in
      let (y, a, b, p) = writes_held (s.producers i) x (v.producers i) (few_in i) e in
      let (z, c, d, q) = writes_held (s.producers j) x (v.producers j) (few_in j) f in
      let u = v.putting.inside i (omega arith) in
      let w = v.putting.inside j (omega arith) in
      window_apart y z (omega (arith, o.taking, o.ready)) (omega arith)
        (omega (arith, o.taking, o.ready)) (omega arith)
        (omega (arith, v.putting.apart i j ne (omega arith) (omega arith))) (sym p ∙ q)

  consumers_apart :
      (i j x : ℕ)
      → writes s.shared.r (s.producers i) ≡ some x
      → reads s.shared.r (s.consumers j) ≢ some x
  consumers_apart i j x e f =
      let o = v.ordered in
      let (y, a, b, p) = writes_held (s.producers i) x (v.producers i) (few_in i) e in
      let (z, c, d, q) = reads_held (s.consumers j) x (v.consumers j) (few_out j) f in
      let u = v.putting.inside i (omega arith) in
      let w = v.taking.inside j (omega arith) in
      window_apart y z (omega (arith, o.taking, o.ready)) (omega arith) (omega arith)
        (omega (arith, o.ready, o.putting)) (omega (arith, o.ready)) (sym p ∙ q)

-- In every state that producers and consumers of a ring that was new with 2^k cells, k at most 31,
-- can reach by steps in any order, the cell that a producer writes next is one that no other
-- producer writes next and that no consumer reads next. Each enqueue and dequeue is called for at
-- least one object, and no index goes round 2^32 between the load of a head and the compare-and-
-- set on it.
pub Reach-race_free :
    {A : Type 0} {k : ℕ} (r : Llring A) (put : Memory A)
    → IsNew k r
    → (s : System A) → Reach (start r put) s
    → (i x : ℕ) → writes s.shared.r (s.producers i) ≡ some x
    → ((j : ℕ) → i ≢ j → writes s.shared.r (s.producers j) ≢ some x)
      × ((j : ℕ) → reads s.shared.r (s.consumers j) ≢ some x)
Reach-race_free r put new s reach i x e =
    let v = start-reached r put new s reach in
    (λ j ne. producers_apart v i j x ne e, λ j. consumers_apart v i j x e)
