-- ===== src/Llring/Multi.antt =====
-- core/kmod/llring.h: any number of producers and consumers at work on one ring, in
-- `__llring_mp_do_enqueue` and `__llring_mc_do_dequeue`. Each access to shared memory is a step of
-- its own, and the threads' steps interleave in any order. Beside the ring's 32-bit words the state
-- counts objects without wrap-around; those counts are history and steer nothing, except that a
-- compare-and-set is taken to fail when its index went round all of 2^32 since it was loaded, and
-- every call is for at least one object.
pub mod Threads
pub mod Spans
pub mod Shape
pub mod Producing
pub mod Consuming
pub mod Invariant
pub mod Reached
pub mod Races
pub mod Settles
mod Examples
use nfv.Base.{
  ℕ, ◌+◌, ◌-◌, ◌^◌, ◌≤◌, ◌<◌, ◌≡◌, ◌≢◌, bit_and, ltb, ◌==◌, if◌then◌else◌, Memory, update, List, [],
  ◌++◌, tabulate,
}
use nfv.Base.Int.{ℤ, pos, neg}
use nfv.Base.Words.{u32, sub32}
use nfv.Llring.{
  Llring, QueueBehavior, fixed, variable, err_nobuf, err_noent, enqueue_result, dequeue_result,
}

-- The answer to a request: the return value, or the number of objects that the head moves by.
pub data Room : Type 0 where
  refused : ℤ → Room
  granted : ℕ → Room

abbrev pub mp_full : ℕ → QueueBehavior → Room
mp_full free_entries fixed = refused (neg err_nobuf)
mp_full free_entries variable = if free_entries == 0 then refused (pos 0) else granted free_entries

abbrev pub mp_room : ℕ → ℕ → QueueBehavior → Room
mp_room free_entries n behavior =
    if ltb free_entries n then mp_full free_entries behavior else granted n

abbrev pub mc_short : ℕ → QueueBehavior → Room
mc_short entries fixed = refused (neg err_noent)
mc_short entries variable = if entries == 0 then refused (pos 0) else granted entries

abbrev pub mc_room : ℕ → ℕ → QueueBehavior → Room
mc_room entries n behavior = if ltb entries n then mc_short entries behavior else granted n

-- Where a thread stands. A loaded index comes with the count that it stands for.
pub data Producer (A : Type 0) : Type 0 where
  idle : Producer A
  called : (obj_table : ℕ → A) (max : ℕ) (behavior : QueueBehavior) → Producer A
  saw_head :
      (obj_table : ℕ → A) (max : ℕ) (behavior : QueueBehavior) (prod_head at : ℕ) → Producer A
  saw_tail :
      (obj_table : ℕ → A) (max : ℕ) (behavior : QueueBehavior) (prod_head at cons_tail gone : ℕ)
      → Producer A
  copying :
      (obj_table : ℕ → A) (n : ℕ) (behavior : QueueBehavior) (free_entries prod_head at i : ℕ)
      → Producer A
  returned : ℤ → Producer A

pub data Consumer (A : Type 0) : Type 0 where
  idle : Consumer A
  called : (obj_table : ℕ → A) (max : ℕ) (behavior : QueueBehavior) → Consumer A
  saw_head :
      (obj_table : ℕ → A) (max : ℕ) (behavior : QueueBehavior) (cons_head at : ℕ) → Consumer A
  saw_tail :
      (obj_table : ℕ → A) (max : ℕ) (behavior : QueueBehavior) (cons_head at prod_tail there : ℕ)
      → Consumer A
  copying : (obj_table : ℕ → A) (n : ℕ) (behavior : QueueBehavior) (cons_head at i : ℕ) → Consumer A
  returned : ℤ → (obj_table : ℕ → A) → Consumer A

-- The ring; how many objects the four indices have passed; the objects in the order in which their
-- places were reserved, and those handed out in the order of the calls' completion.
pub record Shared (A : Type 0) : Type 0 where
  pub r : Llring A
  pub reserved : ℕ
  pub published : ℕ
  pub claimed : ℕ
  pub released : ℕ
  pub put : Memory A
  pub taken : List A

module _ {A : Type 0} where
  -- The cell of the `i`-th copy of LLRING_ENQUEUE_PTRS and LLRING_DEQUEUE_PTRS.
  abbrev pub cell : Llring A → ℕ → ℕ → ℕ
  cell r head i = let at = bit_and head r.mask + i in if ltb at r.slots then at else at - r.slots

  -- `mask + cons_tail - prod_head` in 32 bits
  abbrev pub mp_free : Llring A → ℕ → ℕ → ℕ
  mp_free r prod_head cons_tail = u32 (r.mask + cons_tail + 2 ^ 32 - prod_head)

  -- The compare-and-set that moves `prod.head`
  abbrev pub reserve : ℕ → (ℕ → A) → Shared A → Shared A
  reserve n obj_table s = record s {
    r = record s.r { prod_head = u32 (s.r.prod_head + n) };
    reserved = s.reserved + n;
    put = λ x. if ltb x s.reserved then s.put x else obj_table (x - s.reserved);
  }

  abbrev pub store : ℕ → A → Shared A → Shared A
  store x v s = record s { r = record s.r { ring = update s.r.ring x v } }

  -- `r->prod.tail = prod_next`
  abbrev pub publish : ℕ → ℕ → Shared A → Shared A
  publish prod_head n s = record s {
    r = record s.r { prod_tail = u32 (prod_head + n) };
    published = s.published + n;
  }

  -- The compare-and-set that moves `cons.head`
  abbrev pub claim : ℕ → Shared A → Shared A
  claim n s = record s {
    r = record s.r { cons_head = u32 (s.r.cons_head + n) };
    claimed = s.claimed + n;
  }

  -- `r->cons.tail = cons_next`
  abbrev pub release : ℕ → ℕ → (ℕ → A) → Shared A → Shared A
  release cons_head n obj_table s = record s {
    r = record s.r { cons_tail = u32 (cons_head + n) };
    released = s.released + n;
    taken = s.taken ++ tabulate n obj_table;
  }

  -- A step of `__llring_mp_do_enqueue`, called with at least one object.
  pub data Enqueue (s : Shared A) : Producer A → Shared A → Producer A → Type 0 where
    call :
        {obj : ℕ → A} {max : ℕ} {b : QueueBehavior} → 0 < max → Enqueue s idle s (called obj max b)
    load_head :
        {obj : ℕ → A} {max : ℕ} {b : QueueBehavior}
        → Enqueue s (called obj max b) s (saw_head obj max b s.r.prod_head s.reserved)
    load_tail :
        {obj : ℕ → A} {max : ℕ} {b : QueueBehavior} {h p : ℕ}
        → Enqueue s (saw_head obj max b h p) s (saw_tail obj max b h p s.r.cons_tail s.released)
    refuse :
        {obj : ℕ → A} {max : ℕ} {b : QueueBehavior} {h p t d : ℕ} {ret : ℤ}
        → mp_room (mp_free s.r h t) max b ≡ refused ret
        → Enqueue s (saw_tail obj max b h p t d) s (returned ret)
    win :
        {obj : ℕ → A} {max : ℕ} {b : QueueBehavior} {h p t d n : ℕ}
        → mp_room (mp_free s.r h t) max b ≡ granted n
        → s.r.prod_head ≡ h
        → s.reserved ≡ p
        → Enqueue s
            (saw_tail obj max b h p t d)
            (reserve n obj s)
            (copying obj n b (mp_free s.r h t) h p 0)
    lose :
        {obj : ℕ → A} {max : ℕ} {b : QueueBehavior} {h p t d n : ℕ}
        → mp_room (mp_free s.r h t) max b ≡ granted n
        → s.r.prod_head ≢ h
        → Enqueue s (saw_tail obj max b h p t d) s (called obj max b)
    copy :
        {obj : ℕ → A} {n : ℕ} {b : QueueBehavior} {f h p i : ℕ}
        → i < n
        → Enqueue s
            (copying obj n b f h p i)
            (store (cell s.r h i) (obj i) s)
            (copying obj n b f h p (i + 1))
    wait :
        {obj : ℕ → A} {n : ℕ} {b : QueueBehavior} {f h p i : ℕ}
        → i ≡ n
        → s.r.prod_tail ≢ h
        → Enqueue s (copying obj n b f h p i) s (copying obj n b f h p i)
    finish :
        {obj : ℕ → A} {n : ℕ} {b : QueueBehavior} {f h p i : ℕ}
        → i ≡ n
        → s.r.prod_tail ≡ h
        → Enqueue s (copying obj n b f h p i) (publish h n s) (returned (enqueue_result s.r f n b))
    again : {ret : ℤ} → Enqueue s (returned ret) s idle

  -- A step of `__llring_mc_do_dequeue`, called for at least one object.
  pub data Dequeue (s : Shared A) : Consumer A → Shared A → Consumer A → Type 0 where
    call :
        {obj : ℕ → A} {max : ℕ} {b : QueueBehavior} → 0 < max → Dequeue s idle s (called obj max b)
    load_head :
        {obj : ℕ → A} {max : ℕ} {b : QueueBehavior}
        → Dequeue s (called obj max b) s (saw_head obj max b s.r.cons_head s.claimed)
    load_tail :
        {obj : ℕ → A} {max : ℕ} {b : QueueBehavior} {h c : ℕ}
        → Dequeue s (saw_head obj max b h c) s (saw_tail obj max b h c s.r.prod_tail s.published)
    refuse :
        {obj : ℕ → A} {max : ℕ} {b : QueueBehavior} {h c t q : ℕ} {ret : ℤ}
        → mc_room (sub32 t h) max b ≡ refused ret
        → Dequeue s (saw_tail obj max b h c t q) s (returned ret obj)
    win :
        {obj : ℕ → A} {max : ℕ} {b : QueueBehavior} {h c t q n : ℕ}
        → mc_room (sub32 t h) max b ≡ granted n
        → s.r.cons_head ≡ h
        → s.claimed ≡ c
        → Dequeue s (saw_tail obj max b h c t q) (claim n s) (copying obj n b h c 0)
    lose :
        {obj : ℕ → A} {max : ℕ} {b : QueueBehavior} {h c t q n : ℕ}
        → mc_room (sub32 t h) max b ≡ granted n
        → s.r.cons_head ≢ h
        → Dequeue s (saw_tail obj max b h c t q) s (called obj max b)
    copy :
        {obj : ℕ → A} {n : ℕ} {b : QueueBehavior} {h c i : ℕ}
        → i < n
        → Dequeue s
            (copying obj n b h c i)
            s
            (copying (update obj i (s.r.ring (cell s.r h i))) n b h c (i + 1))
    wait :
        {obj : ℕ → A} {n : ℕ} {b : QueueBehavior} {h c i : ℕ}
        → i ≡ n
        → s.r.cons_tail ≢ h
        → Dequeue s (copying obj n b h c i) s (copying obj n b h c i)
    finish :
        {obj : ℕ → A} {n : ℕ} {b : QueueBehavior} {h c i : ℕ}
        → i ≡ n
        → s.r.cons_tail ≡ h
        → Dequeue s (copying obj n b h c i) (release h n obj s) (returned (dequeue_result n b) obj)
    again : {ret : ℤ} {obj : ℕ → A} → Dequeue s (returned ret obj) s idle
