-- ===== src/Llring/Multi/Reached.antt =====
-- core/kmod/llring.h: what holds of a shared ring in every state that its threads can reach.
use nfv.Base.{
  ℕ, ◌+◌, ◌-◌, ◌≤◌, ◌≡◌, refl, sym, ap, ◌∙◌, arith, tabulate, tabulate-add, length, length-tabulate,
  Memory, ◌++◌, List,
}
use nfv.Llring.{Llring}
use nfv.Llring.Contents.{IsSized}
use nfv.Llring.Multi.Threads.{System, Step, produce, consume, start, Reach, here, later}
use nfv.Llring.Multi.Spans.{IsTiled}
use nfv.Llring.Multi.Shape.{size_bounds}
use nfv.Llring.Multi.Invariant.{IsShared}
use nfv.Llring.Multi.Invariant.Produce.{Enqueue-IsShared}
use nfv.Llring.Multi.Invariant.Consume.{Dequeue-IsShared}

-- A ring after `llring_init`
pub record IsNew {A : Type 0} (k : ℕ) (r : Llring A) : Type 0 where
  pub sized : IsSized k r
  pub prod_head : r.prod_head ≡ 0
  pub prod_tail : r.prod_tail ≡ 0
  pub cons_head : r.cons_head ≡ 0
  pub cons_tail : r.cons_tail ≡ 0

abbrev pub IsSystem : {A : Type 0} → ℕ → System A → Type 0
IsSystem k s = IsShared k s.shared s.producers s.consumers

-- The objects for which places were reserved, in that order
abbrev pub accepted : {A : Type 0} → System A → List A
accepted s = tabulate s.shared.reserved s.shared.put

IsTiled-none : IsTiled 0 0 (λ _. 0) (λ _. 0)
IsTiled-none = record {
  inside = λ i some. omega arith;
  apart = λ i j ne a b. omega arith;
  covered = λ x a b. absurd (omega arith);
}

start-IsSystem :
    {A : Type 0} {k : ℕ} (r : Llring A) (put : Memory A) → IsNew k r → IsSystem k (start r put)
start-IsSystem r put new = record {
  ordered = record {
    sized = new.sized;
    prod_head = omega (arith, new.prod_head);
    prod_tail = omega (arith, new.prod_tail);
    cons_head = omega (arith, new.cons_head);
    cons_tail = omega (arith, new.cons_tail);
    taking = omega arith;
    ready = omega arith;
    putting = omega arith;
    room = omega (arith, size_bounds r new.sized);
  };
  stored = λ x a b. absurd (omega arith);
  delivered = refl;
  putting = IsTiled-none;
  taking = IsTiled-none;
  producers = λ i. tt;
  consumers = λ i. tt;
}

pub Step-IsSystem : {A : Type 0} {k : ℕ} {s t : System A} → Step s t → IsSystem k s → IsSystem k t
Step-IsSystem (produce i e) v = Enqueue-IsShared v i e
Step-IsSystem (consume i e) v = Dequeue-IsShared v i e

pub Reach-IsSystem : {A : Type 0} {k : ℕ} {s t : System A} → Reach s t → IsSystem k s → IsSystem k t
Reach-IsSystem here v = v
Reach-IsSystem (later r st) v = Step-IsSystem st (Reach-IsSystem r v)

pub start-reached :
    {A : Type 0} {k : ℕ} (r : Llring A) (put : Memory A)
    → IsNew k r
    → (s : System A) → Reach (start r put) s
    → IsSystem k s
start-reached r put new s reach = Reach-IsSystem reach (start-IsSystem r put new)

-- Whatever number of producers and consumers are at work on a ring that was new with 2^k cells, k
-- at most 31, and however their loads, stores and compare-and-sets interleave, the objects that
-- the finished dequeues handed out are at every moment the first of those accepted, in the order
-- in which places were reserved: none is lost, doubled or overtaken. At most `mask` accepted
-- objects are not yet handed out. Each enqueue and dequeue is called for at least one object, and
-- no index goes round 2^32 between the load of a head and the compare-and-set on it.
pub Reach-in_order :
    {A : Type 0} {k : ℕ} (r : Llring A) (put : Memory A)
    → IsNew k r
    → (s : System A) → Reach (start r put) s
    → (rest : List A) × (accepted s ≡ s.shared.taken ++ rest) × (length rest ≤ r.mask)
Reach-in_order {k} r put new s reach =
    let v = start-reached r put new s reach in
    let o = v.ordered in
    let m = s.shared in
    let left = m.reserved - m.released in
    let split : m.reserved ≡ m.released + left = omega (arith, o.taking, o.ready, o.putting) in
    (
      tabulate left (λ i. m.put (m.released + i)),
      ap (λ n. tabulate n m.put) split
          ∙ tabulate-add m.released left m.put
          ∙ ap (λ l. l ++ tabulate left (λ i. m.put (m.released + i))) (sym v.delivered),
      omega (
        arith,
        length-tabulate left (λ i. m.put (m.released + i)),
        o.room,
        o.taking,
        o.ready,
        o.putting,
        size_bounds r new.sized,
      ),
    )
