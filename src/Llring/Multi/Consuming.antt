-- ===== src/Llring/Multi/Consuming.antt =====
-- core/kmod/llring.h: what a consumer in `__llring_mc_do_dequeue` knows of the ring.
use nfv.Base.{ℕ, ◌+◌, ◌≤◌, ◌<◌, ◌≡◌, sym, ◌∙◌, arith}
use nfv.Base.Words.{u32}
use nfv.Llring.Multi.{Shared, Consumer, called, saw_head, saw_tail, copying}
use nfv.Llring.Multi.Shape.{Grows}

module _ {A : Type 0} where
  -- The positions that a consumer has claimed and not yet released
  abbrev pub start_of : Consumer A → ℕ
  start_of (copying obj n b h c i) = c
  start_of _ = 0

  abbrev pub size_of : Consumer A → ℕ
  size_of (copying obj n b h c i) = n
  size_of _ = 0

-- A consumer that loaded `cons.head` at count `c`
pub record SawHead {A : Type 0} (s : Shared A) (max h c : ℕ) : Type 0 where
  pub some : 0 < max
  pub word : h ≡ u32 c
  pub old : c ≤ s.claimed

-- and then `prod.tail` at count `q`
pub record SawTail {A : Type 0} (s : Shared A) (max h c t q : ℕ) : Type 0 where
  pub head : SawHead s max h c
  pub word : t ≡ u32 q
  pub old : q ≤ s.published
  pub ahead : c ≤ q

-- A consumer that has the positions from `c` on, `i` of them read
pub record Copying {A : Type 0} (s : Shared A) (obj : ℕ → A) (n h c i : ℕ) : Type 0 where
  pub some : 0 < n
  pub some_left : i ≤ n
  pub word : h ≡ u32 c
  pub read : (j : ℕ) → j < i → obj j ≡ s.put (c + j)

module _ {A : Type 0} where
  abbrev pub IsConsumer : Shared A → Consumer A → Type 0
  IsConsumer s (called obj max b) = 0 < max
  IsConsumer s (saw_head obj max b h c) = SawHead s max h c
  IsConsumer s (saw_tail obj max b h c t q) = SawTail s max h c t q
  IsConsumer s (copying obj n b h c i) = Copying s obj n h c i
  IsConsumer s _ = Unit

  pub IsConsumer-later :
      {s s' : Shared A} (c : Consumer A)
      → Grows s s'
      → (0 < size_of c → start_of c + size_of c ≤ s.reserved)
      → IsConsumer s c
      → IsConsumer s' c
  IsConsumer-later (called obj max b) g inside i = i
  IsConsumer-later (saw_head obj max b h c) g inside i = record {
    some = i.some;
    word = i.word;
    old = omega (arith, i.old, g.claimed);
  }
  IsConsumer-later (saw_tail obj max b h c t q) g inside i = record {
    head = record {
      some = i.head.some;
      word = i.head.word;
      old = omega (arith, i.head.old, g.claimed);
    };
    word = i.word;
    old = omega (arith, i.old, g.published);
    ahead = i.ahead;
  }
  IsConsumer-later (copying obj n b h c i) g inside k = record {
    some = k.some;
    some_left = k.some_left;
    word = k.word;
    read = λ j lt. k.read j lt ∙ sym (g.put (c + j) (omega (arith, inside k.some, k.some_left)));
  }
  IsConsumer-later _ g inside i = tt
