-- ===== src/Llring.antt =====
-- core/kmod/llring.h: the ring of pointers that queues and ports share, with one producer and one
-- consumer at work. Indices run freely modulo 2^32; `mask` takes them to cells.
pub mod Copy
pub mod Contents
pub mod Invariant
pub mod Enqueue
pub mod Returns
pub mod Dequeue
pub mod Counts
pub mod Refines
pub mod Multi
mod Examples
use nfv.Base.{
  ℕ, zero, suc, ◌+◌, ◌-◌, ◌*◌, ◌/◌, ◌^◌, Bool, true, false, bit_and, bit_or, ltb, leb, ◌==◌,
  if◌then◌else◌, Memory, update,
}
use nfv.Base.Int.{ℤ, pos, neg, int32}
use nfv.Base.Words.{u32, sub32}

-- LLRING_ERR_NOBUF, LLRING_ERR_QUOT, LLRING_ERR_NOENT, LLRING_ERR_NOPOW2, LLRING_ERR_INVAL
abbrev pub err_nobuf : ℕ
err_nobuf = 1

abbrev pub err_quot : ℕ
err_quot = 2

abbrev pub err_noent : ℕ
err_noent = 3

abbrev pub err_nopow2 : ℕ
err_nopow2 = 4

abbrev pub err_inval : ℕ
err_inval = 5

-- RING_QUOT_EXCEED
abbrev pub quot_exceed : ℕ
quot_exceed = 2 ^ 31

pub data QueueBehavior : Type 0 where
  fixed variable : QueueBehavior

pub record Llring (A : Type 0) : Type 0 where
  pub slots : ℕ
  pub mask : ℕ
  pub sp_enqueue : Bool
  pub sc_dequeue : Bool
  pub watermark : ℕ
  pub prod_head : ℕ
  pub prod_tail : ℕ
  pub cons_head : ℕ
  pub cons_tail : ℕ
  pub ring : Memory A

pub dequeue_result : ℕ → QueueBehavior → ℤ
dequeue_result n fixed = pos 0
dequeue_result n variable = int32 n

-- The return value, `obj_table` and the ring after a dequeue.
pub record Dequeued (A : Type 0) : Type 0 where
  pub ret : ℤ
  pub obj_table : Memory A
  pub after : Llring A

module _ {A : Type 0} where
  -- The loop over the ring's bytes, whose number is an int: 256 for the struct, and 8 for each slot.
  -- It clears no cell if that is negative, and only the first ones if it came round.
  pub clear_bytes : A → ℕ → Memory A → Memory A
  clear_bytes null slots ring i =
      let bytes = u32 (256 + 8 * slots) in
      if leb (2 ^ 31) bytes then ring i else if ltb (256 + 8 * i) bytes then null else ring i

  -- `null` is the pointer with all bits zero.
  pub init : A → ℕ → Bool → Bool → Llring A → ℤ × Llring A
  init null slots sp sc r =
      if bit_and slots (sub32 slots 1) == 0
      then (
        pos 0,
        record {
          slots = slots;
          mask = sub32 slots 1;
          sp_enqueue = sp;
          sc_dequeue = sc;
          watermark = slots;
          prod_head = 0;
          prod_tail = 0;
          cons_head = 0;
          cons_tail = 0;
          ring = clear_bytes null slots r.ring;
        },
      )
      else (neg err_nopow2, r)

  pub set_water_mark : ℕ → Llring A → ℤ × Llring A
  set_water_mark count r =
      if leb r.slots count
      then (neg err_inval, r)
      else (pos 0, record r { watermark = if count == 0 then r.slots else count })

  -- `n` single copies: `dst[j++] = src[i++]`, in a loop or in the cases of a `switch`.
  pub copy : ℕ → Memory A → ℕ → Memory A → ℕ → Memory A
  copy zero src i dst j = dst
  copy (suc n) src i dst j = copy n src (i + 1) (update dst j (src i)) (j + 1)

  -- `n` rounds of the loop that is unrolled four times.
  pub copy_quads : ℕ → Memory A → ℕ → Memory A → ℕ → Memory A
  copy_quads zero src i dst j = dst
  copy_quads (suc n) src i dst j =
      copy_quads n src (i + 4)
        (update (update (update (update dst j (src i)) (j + 1) (src (i + 1))) (j + 2) (src (i + 2)))
          (j + 3) (src (i + 3)))
        (j + 4)

  -- The branch without wrap-around: `n & ~3` cells in fours, then the `switch` on `n & 3`.
  pub copy_straight : ℕ → Memory A → ℕ → Memory A → ℕ → Memory A
  copy_straight n src i dst j =
      let quads = bit_and n (2 ^ 32 - 4) / 4 in
      copy (bit_and n 3) src (i + 4 * quads) (copy_quads quads src i dst j) (j + 4 * quads)

  -- LLRING_ENQUEUE_PTRS
  pub enqueue_ptrs : Llring A → Memory A → ℕ → ℕ → Memory A
  enqueue_ptrs r obj_table prod_head n =
      let idx = bit_and prod_head r.mask in
      if ltb (u32 (idx + n)) r.slots
      then copy_straight n obj_table 0 r.ring idx
      else copy (n - (r.slots - idx)) obj_table (r.slots - idx)
          (copy (r.slots - idx) obj_table 0 r.ring idx) 0

  -- LLRING_DEQUEUE_PTRS
  pub dequeue_ptrs : Llring A → Memory A → ℕ → ℕ → Memory A
  dequeue_ptrs r obj_table cons_head n =
      let idx = bit_and cons_head r.mask in
      if ltb (u32 (idx + n)) r.slots
      then copy_straight n r.ring idx obj_table 0
      else copy (n - (r.slots - idx)) r.ring 0 (copy (r.slots - idx) r.ring idx obj_table 0)
          (r.slots - idx)

  -- What an enqueue returns when `n` objects went in.
  pub enqueue_result : Llring A → ℕ → ℕ → QueueBehavior → ℤ
  enqueue_result r free_entries n fixed =
      if ltb r.watermark (u32 (r.mask + 1 + 2 ^ 32 - free_entries + n)) then neg err_quot else pos 0
  enqueue_result r free_entries n variable =
      if ltb r.watermark (u32 (r.mask + 1 + 2 ^ 32 - free_entries + n))
      then int32 (bit_or n quot_exceed)
      else int32 n

  -- `__llring_sp_do_enqueue` from the move of `prod.head` on.
  pub sp_commit : Llring A → Memory A → ℕ → ℕ → QueueBehavior → ℤ × Llring A
  sp_commit r obj_table free_entries n behavior =
      let prod_next = u32 (r.prod_head + n) in
      (
        enqueue_result r free_entries n behavior,
        record r {
          prod_head = prod_next;
          ring = enqueue_ptrs r obj_table r.prod_head n;
          prod_tail = prod_next;
        },
      )

  pub sp_full : Llring A → Memory A → ℕ → QueueBehavior → ℤ × Llring A
  sp_full r obj_table free_entries fixed = (neg err_nobuf, r)
  sp_full r obj_table free_entries variable =
      if free_entries == 0
      then (pos 0, r)
      else sp_commit r obj_table free_entries free_entries variable

  -- `mask + cons_tail - prod_head` in 32 bits
  pub free_entries : Llring A → ℕ
  free_entries r = u32 (r.mask + r.cons_tail + 2 ^ 32 - r.prod_head)

  pub sp_do_enqueue : Llring A → Memory A → ℕ → QueueBehavior → ℤ × Llring A
  sp_do_enqueue r obj_table n behavior =
      if ltb (free_entries r) n
      then sp_full r obj_table (free_entries r) behavior
      else sp_commit r obj_table (free_entries r) n behavior

  -- `__llring_sc_do_dequeue` from the move of `cons.head` on.
  pub sc_commit : Llring A → Memory A → ℕ → QueueBehavior → Dequeued A
  sc_commit r obj_table n behavior =
      let cons_next = u32 (r.cons_head + n) in
      record {
        ret = dequeue_result n behavior;
        obj_table = dequeue_ptrs r obj_table r.cons_head n;
        after = record r { cons_head = cons_next; cons_tail = cons_next };
      }

  pub sc_short : Llring A → Memory A → ℕ → QueueBehavior → Dequeued A
  sc_short r obj_table entries fixed = record {
    ret = neg err_noent;
    obj_table = obj_table;
    after = r;
  }
  sc_short r obj_table entries variable =
      if entries == 0
      then record { ret = pos 0; obj_table = obj_table; after = r }
      else sc_commit r obj_table entries variable

  -- `prod_tail - cons_head` in 32 bits
  pub entries : Llring A → ℕ
  entries r = sub32 r.prod_tail r.cons_head

  pub sc_do_dequeue : Llring A → Memory A → ℕ → QueueBehavior → Dequeued A
  sc_do_dequeue r obj_table n behavior =
      if ltb (entries r) n
      then sc_short r obj_table (entries r) behavior
      else sc_commit r obj_table n behavior

  pub sp_enqueue_bulk : Llring A → Memory A → ℕ → ℤ × Llring A
  sp_enqueue_bulk r obj_table n = sp_do_enqueue r obj_table n fixed

  pub sp_enqueue_burst : Llring A → Memory A → ℕ → ℤ × Llring A
  sp_enqueue_burst r obj_table n = sp_do_enqueue r obj_table n variable

  pub sp_enqueue_one : Llring A → A → ℤ × Llring A
  sp_enqueue_one r obj = sp_enqueue_bulk r (λ _. obj) 1

  pub sc_dequeue_bulk : Llring A → Memory A → ℕ → Dequeued A
  sc_dequeue_bulk r obj_table n = sc_do_dequeue r obj_table n fixed

  pub sc_dequeue_burst : Llring A → Memory A → ℕ → Dequeued A
  sc_dequeue_burst r obj_table n = sc_do_dequeue r obj_table n variable

  pub sc_dequeue_one : Llring A → Memory A → Dequeued A
  sc_dequeue_one r obj_p = sc_dequeue_bulk r obj_p 1

  pub full : Llring A → Bool
  full r = bit_and (u32 (sub32 r.cons_tail r.prod_tail + (2 ^ 32 - 1))) r.mask == 0

  pub empty : Llring A → Bool
  empty r = r.cons_tail == r.prod_tail

  pub count : Llring A → ℕ
  count r = bit_and (sub32 r.prod_tail r.cons_tail) r.mask

  pub free_count : Llring A → ℕ
  free_count r = bit_and (u32 (sub32 r.cons_tail r.prod_tail + (2 ^ 32 - 1))) r.mask
