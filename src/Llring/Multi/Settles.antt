-- ===== src/Llring/Multi/Settles.antt =====
-- core/kmod/llring.h: how the calls at work on a shared ring come to an end.
use native.Mathlib.Decide.{dec_lt}
use nfv.Base.{
  ℕ, zero, suc, ◌+◌, ◌-◌, ◌≤◌, ◌<◌, ◌≡◌, refl, sym, ap, subst, ◌∙◌, arith, update, update_at,
  Memory,
}
use nfv.Base.Words.{u32}
use nfv.Llring.{Llring, QueueBehavior}
use nfv.Llring.Multi.{Shared, Producer, Consumer, copying, Enqueue, Dequeue, copy, finish}
use nfv.Llring.Multi.Threads.{System, Step, produce, consume, start, Reach, here, later}
use nfv.Llring.Multi.Producing
use nfv.Llring.Multi.Consuming
use nfv.Llring.Multi.Reached.{IsNew, IsSystem, Step-IsSystem, Reach-IsSystem, start-reached}

Reach-trans : {A : Type 0} {s t u : System A} → Reach s t → Reach t u → Reach s u
Reach-trans a here = a
Reach-trans a (later b st) = later (Reach-trans a b) st

-- The steps from `s` to `t` publish up to `published`, release up to `released`, and start no call.
record Goes {A : Type 0} (s : System A) (published released : ℕ) : Type 0 where
  to : System A
  by : Reach s to
  reserved : to.shared.reserved ≡ s.shared.reserved
  claimed : to.shared.claimed ≡ s.shared.claimed
  publishes : to.shared.published ≡ published
  releases : to.shared.released ≡ released

Goes-after :
    {A : Type 0} {s t : System A} {published released : ℕ}
    → Reach s t
    → t.shared.reserved ≡ s.shared.reserved
    → t.shared.claimed ≡ s.shared.claimed
    → Goes t published released
    → Goes s published released
Goes-after r a b g = record {
  to = g.to;
  by = Reach-trans r g.by;
  reserved = g.reserved ∙ a;
  claimed = g.claimed ∙ b;
  publishes = g.publishes;
  releases = g.releases;
}

-- A producer that holds positions is copying.
data Holds {A : Type 0} : Producer A → Type 0 where
  holds : (obj : ℕ → A) (n : ℕ) (b : QueueBehavior) (f h p j : ℕ) → Holds (copying obj n b f h p j)

Holds-some : {A : Type 0} (p : Producer A) → 0 < Producing.size_of p → Holds p
Holds-some (copying obj n b f h p i) some = holds obj n b f h p i
Holds-some _ some = absurd (omega arith)

-- A step of a thread that stands at `p`
produce_as :
    {A : Type 0} (s : System A) (i : ℕ) {p p' : Producer A} {m : Shared A}
    → s.producers i ≡ p
    → Enqueue s.shared p m p'
    → Step s (record s { shared = m; producers = update s.producers i p' })
produce_as s i {p' = p'} {m = m} at e = produce i (subst (λ q. Enqueue s.shared q m p') (sym at) e)

consume_as :
    {A : Type 0} (s : System A) (i : ℕ) {c c' : Consumer A} {m : Shared A}
    → s.consumers i ≡ c
    → Dequeue s.shared c m c'
    → Step s (record s { shared = m; consumers = update s.consumers i c' })
consume_as s i {c' = c'} {m = m} at e = consume i (subst (λ q. Dequeue s.shared q m c') (sym at) e)

-- The first producer copies its `d` objects that are left and publishes.
publish_alone :
    {A : Type 0} {k : ℕ} (d : ℕ) (s : System A) (i : ℕ) {obj : ℕ → A} {n : ℕ} {b : QueueBehavior}
    {f h p j : ℕ}
    → IsSystem k s
    → s.producers i ≡ copying obj n b f h p j
    → p ≡ s.shared.published
    → j + d ≡ n
    → Goes s (s.shared.published + n) s.shared.released
publish_alone {k = k} zero s i {obj} {n} {b} {f} {h} {p} {j} v at first left =
    let own : Producing.Copying k s.shared obj n h p j =
      subst (Producing.IsProducer k s.shared) at (v.producers i) in
    let turn : s.shared.r.prod_tail ≡ h = v.ordered.prod_tail ∙ ap u32 (sym first) ∙ sym own.word in
    record {
      to = _;
      by = later here (produce_as s i at (finish (omega arith) turn));
      reserved = refl;
      claimed = refl;
      publishes = refl;
      releases = refl;
    }
publish_alone (suc d) s i v at first left =
    let st = produce_as s i at (copy (omega arith)) in
    Goes-after (later here st) refl refl
      (publish_alone d _ i (Step-IsSystem st v) (update_at s.producers i _) first (omega arith))

publish_held :
    {A : Type 0} {k : ℕ} (s : System A) (i : ℕ) (q : Producer A)
    → IsSystem k s
    → s.producers i ≡ q
    → Holds q
    → Producing.start_of q ≡ s.shared.published
    → Goes s (s.shared.published + Producing.size_of q) s.shared.released
publish_held {k = k} s i _ v at (holds obj n b f h p j) first =
    let own : Producing.Copying k s.shared obj n h p j =
      subst (Producing.IsProducer k s.shared) at (v.producers i) in
    publish_alone (n - j) s i v at first (omega (arith, own.some_left))

-- Every reservation is published.
publish_all :
    {A : Type 0} {k : ℕ} (gap : ℕ) (s : System A) (x y : ℕ)
    → IsSystem k s
    → s.shared.reserved ≡ x
    → s.shared.released ≡ y
    → x ≤ s.shared.published + gap
    → Goes s x y
publish_all zero s x y v at same near = record {
  to = s;
  by = here;
  reserved = refl;
  claimed = refl;
  publishes = omega (arith, v.ordered.putting);
  releases = same;
}
publish_all (suc gap) s x y v at same near = elim (dec_lt s.shared.published s.shared.reserved) [
  | yes open_ ↦
      let (i, low, high) = v.putting.covered s.shared.published (omega arith) open_ in
      let inside = v.putting.inside i (omega arith) in
      let g =
        publish_held s i (s.producers i) v refl (Holds-some (s.producers i) (omega arith))
          (omega arith) in
      Goes-after g.by g.reserved g.claimed (
        publish_all gap g.to x y (Reach-IsSystem g.by v) (g.reserved ∙ at) (g.releases ∙ same)
          (omega (arith, g.publishes)))
  | no done ↦ publish_all gap s x y v at same (omega arith)
]

-- A consumer that holds positions is copying.
data Takes {A : Type 0} : Consumer A → Type 0 where
  takes : (obj : ℕ → A) (n : ℕ) (b : QueueBehavior) (h c j : ℕ) → Takes (copying obj n b h c j)

Takes-some : {A : Type 0} (c : Consumer A) → 0 < Consuming.size_of c → Takes c
Takes-some (copying obj n b h c i) some = takes obj n b h c i
Takes-some _ some = absurd (omega arith)

-- The first consumer copies its `d` objects that are left and releases their cells.
release_alone :
    {A : Type 0} {k : ℕ} (d : ℕ) (s : System A) (i : ℕ) {obj : ℕ → A} {n : ℕ} {b : QueueBehavior}
    {h c j : ℕ}
    → IsSystem k s
    → s.consumers i ≡ copying obj n b h c j
    → c ≡ s.shared.released
    → j + d ≡ n
    → Goes s s.shared.published (s.shared.released + n)
release_alone zero s i {obj} {n} {b} {h} {c} {j} v at first left =
    let own : Consuming.Copying s.shared obj n h c j =
      subst (Consuming.IsConsumer s.shared) at (v.consumers i) in
    let turn : s.shared.r.cons_tail ≡ h = v.ordered.cons_tail ∙ ap u32 (sym first) ∙ sym own.word in
    record {
      to = _;
      by = later here (consume_as s i at (finish (omega arith) turn));
      reserved = refl;
      claimed = refl;
      publishes = refl;
      releases = refl;
    }
release_alone (suc d) s i v at first left =
    let st = consume_as s i at (copy (omega arith)) in
    Goes-after (later here st) refl refl
      (release_alone d _ i (Step-IsSystem st v) (update_at s.consumers i _) first (omega arith))

release_held :
    {A : Type 0} {k : ℕ} (s : System A) (i : ℕ) (q : Consumer A)
    → IsSystem k s
    → s.consumers i ≡ q
    → Takes q
    → Consuming.start_of q ≡ s.shared.released
    → Goes s s.shared.published (s.shared.released + Consuming.size_of q)
release_held s i _ v at (takes obj n b h c j) first =
    let own : Consuming.Copying s.shared obj n h c j =
      subst (Consuming.IsConsumer s.shared) at (v.consumers i) in
    release_alone (n - j) s i v at first (omega (arith, own.some_left))

-- Every claim is released.
release_all :
    {A : Type 0} {k : ℕ} (gap : ℕ) (s : System A) (x y : ℕ)
    → IsSystem k s
    → s.shared.published ≡ x
    → s.shared.claimed ≡ y
    → y ≤ s.shared.released + gap
    → Goes s x y
release_all zero s x y v same at near = record {
  to = s;
  by = here;
  reserved = refl;
  claimed = refl;
  publishes = same;
  releases = omega (arith, v.ordered.taking);
}
release_all (suc gap) s x y v same at near = elim (dec_lt s.shared.released s.shared.claimed) [
  | yes open_ ↦
      let (i, low, high) = v.taking.covered s.shared.released (omega arith) open_ in
      let inside = v.taking.inside i (omega arith) in
      let g =
        release_held s i (s.consumers i) v refl (Takes-some (s.consumers i) (omega arith))
          (omega arith) in
      Goes-after g.by g.reserved g.claimed (
        release_all gap g.to x y (Reach-IsSystem g.by v) (g.publishes ∙ same) (g.claimed ∙ at)
          (omega (arith, g.releases)))
  | no done ↦ release_all gap s x y v same at (omega arith)
]

-- From every state that producers and consumers of a ring that was new with 2^k cells, k at most
-- 31, can reach, there are steps after which everything reserved so far is published and
-- everything claimed so far is released, with no further reservation or claim. Each enqueue and
-- dequeue is called for at least one object, and no index goes round 2^32 between the load of a
-- head and the compare-and-set on it.
pub Reach-settles :
    {A : Type 0} {k : ℕ} (r : Llring A) (put : Memory A)
    → IsNew k r
    → (s : System A) → Reach (start r put) s
    → (t : System A) × Reach s t
      × (t.shared.reserved ≡ s.shared.reserved)
      × (t.shared.published ≡ s.shared.reserved)
      × (t.shared.claimed ≡ s.shared.claimed)
      × (t.shared.released ≡ s.shared.claimed)
Reach-settles r put new s reach =
    let v = start-reached r put new s reach in
    let m = s.shared in
    let g = publish_all m.reserved s m.reserved m.released v refl refl (omega arith) in
    let w = Reach-IsSystem g.by v in
    let f = release_all m.claimed g.to m.reserved m.claimed w g.publishes g.claimed (omega arith) in
    (
      f.to,
      Reach-trans g.by f.by,
      f.reserved ∙ g.reserved,
      f.publishes,
      f.claimed ∙ g.claimed,
      f.releases,
    )
