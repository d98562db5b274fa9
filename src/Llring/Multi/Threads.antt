-- ===== src/Llring/Multi/Threads.antt =====
-- core/kmod/llring.h: producers and consumers of one ring, interleaved in any order.
use nfv.Base.{ℕ, Memory, update, []}
use nfv.Llring.{Llring}
use nfv.Llring.Multi.{Shared, Producer, Consumer, Enqueue, Dequeue}

-- Every index names a producer and a consumer; those that are never picked stay idle.
pub record System (A : Type 0) : Type 0 where
  pub shared : Shared A
  pub producers : ℕ → Producer A
  pub consumers : ℕ → Consumer A

pub data Step {A : Type 0} (s : System A) : System A → Type 0 where
  produce :
      (i : ℕ) {m : Shared A} {p : Producer A}
      → Enqueue s.shared (s.producers i) m p
      → Step s (record s { shared = m; producers = update s.producers i p })
  consume :
      (i : ℕ) {m : Shared A} {c : Consumer A}
      → Dequeue s.shared (s.consumers i) m c
      → Step s (record s { shared = m; consumers = update s.consumers i c })

-- A ring after `llring_init`, with no call under way.
abbrev pub start : {A : Type 0} → Llring A → Memory A → System A
start r put = record {
  shared = record {
    r = r;
    reserved = 0;
    published = 0;
    claimed = 0;
    released = 0;
    put = put;
    taken = [];
  };
  producers = λ _. Producer.idle;
  consumers = λ _. Consumer.idle;
}

pub data Reach {A : Type 0} (from : System A) : System A → Type 0 where
  here : Reach from from
  later : {s t : System A} → Reach from s → Step s t → Reach from t
