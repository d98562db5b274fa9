-- ===== src/Llring/Multi/Producing.antt =====
-- core/kmod/llring.h: what a producer in `__llring_mp_do_enqueue` knows of the ring.
use nfv.Base.{ℕ, ◌+◌, ◌^◌, ◌≤◌, ◌<◌, ◌≡◌, ◌∙◌, arith}
use nfv.Base.Words.{u32}
use nfv.Llring.Multi.{Shared, Producer, called, saw_head, saw_tail, copying}
use nfv.Llring.Multi.Shape.{place, Grows}

module _ {A : Type 0} where
  -- The positions that a producer has reserved and not yet published
  abbrev pub start_of : Producer A → ℕ
  start_of (copying obj n b f h p i) = p
  start_of _ = 0

  abbrev pub size_of : Producer A → ℕ
  size_of (copying obj n b f h p i) = n
  size_of _ = 0

-- A producer that loaded `prod.head` at count `p`
pub record SawHead {A : Type 0} (s : Shared A) (max h p : ℕ) : Type 0 where
  pub some : 0 < max
  pub word : h ≡ u32 p
  pub old : p ≤ s.reserved

-- and then `cons.tail` at count `d`
pub record SawTail {A : Type 0} (k : ℕ) (s : Shared A) (max h p t d : ℕ) : Type 0 where
  pub head : SawHead s max h p
  pub word : t ≡ u32 d
  pub old : d ≤ s.released
  pub near : p < d + 2 ^ k

-- A producer that has the positions from `p` on, `i` of them written
pub record Copying {A : Type 0} (k : ℕ) (s : Shared A) (obj : ℕ → A) (n h p i : ℕ) : Type 0 where
  pub some : 0 < n
  pub some_left : i ≤ n
  pub word : h ≡ u32 p
  pub entered : (j : ℕ) → j < n → s.put (p + j) ≡ obj j
  pub written : (j : ℕ) → j < i → s.r.ring (place k (p + j)) ≡ obj j

module _ {A : Type 0} (k : ℕ) where
  abbrev pub IsProducer : Shared A → Producer A → Type 0
  IsProducer s (called obj max b) = 0 < max
  IsProducer s (saw_head obj max b h p) = SawHead s max h p
  IsProducer s (saw_tail obj max b h p t d) = SawTail k s max h p t d
  IsProducer s (copying obj n b f h p i) = Copying k s obj n h p i
  IsProducer s _ = Unit

  pub IsProducer-later :
      {s s' : Shared A} (p : Producer A)
      → Grows s s'
      → (0 < size_of p → start_of p + size_of p ≤ s.reserved)
      → ((j : ℕ)
          → j < size_of p
          → s'.r.ring (place k (start_of p + j)) ≡ s.r.ring (place k (start_of p + j)))
      → IsProducer s p
      → IsProducer s' p
  IsProducer-later (called obj max b) g inside same i = i
  IsProducer-later (saw_head obj max b h p) g inside same i = record {
    some = i.some;
    word = i.word;
    old = omega (arith, i.old, g.reserved);
  }
  IsProducer-later (saw_tail obj max b h p t d) g inside same i = record {
    head = record {
      some = i.head.some;
      word = i.head.word;
      old = omega (arith, i.head.old, g.reserved);
    };
    word = i.word;
    old = omega (arith, i.old, g.released);
    near = i.near;
  }
  IsProducer-later (copying obj n b f h p i) g inside same c = record {
    some = c.some;
    some_left = c.some_left;
    word = c.word;
    entered = λ j lt. g.put (p + j) (omega (arith, inside c.some)) ∙ c.entered j lt;
    written = λ j lt. same j (omega (arith, c.some_left)) ∙ c.written j lt;
  }
  IsProducer-later _ g inside same i = tt
