-- ===== src/Codel.antt =====
-- core/utils/codel.h: the CoDel queue, which sheds entries that have waited for too long.
-- `rdtsc` and the floating-point `cur_time + window * pow(count, -.5)` are the platform's.
pub mod Steps
pub mod Loss
pub mod Latency
pub mod Pacing
pub mod Bounds
mod Examples
use nfv.Base.{
  ℕ, zero, suc, ◌+◌, ◌-◌, Bool, true, false, not, ◌&&◌, ◌||◌, Option, none, some, List, [], ◌∷◌,
  ◌++◌, ltb, leb, ◌==◌, if◌then◌else◌, length,
}
use mathlib.Core.Option
use nfv.Base.Int.{ℤ, pos, negsuc, failed}
use nfv.Base.Words.{u32, u64, sub64}

pub record Platform : Type 0 where
  -- what the i-th call of `NanoSecondTime` returns
  pub clock : ℕ → ℕ
  -- `cur_time + window * pow(drop_count, -.5)`, back in 64 bits
  pub drop_after : (cur_time window drop_count : ℕ) → ℕ
  -- `std::deque::max_size`
  pub deque_max : ℕ

-- `std::pair<uint64_t, T>`
pub record Wrapper {ℓ} (A : Type ℓ) : Type ℓ where
  pub first : ℕ
  pub second : A

-- `dropped` holds the arguments of the calls of `drop_func_` so far, `reads` counts the clock's.
pub record Codel {ℓ} (A : Type ℓ) : Type ℓ where
  pub delay_target : ℕ
  pub window : ℕ
  pub time_above_target : ℕ
  pub next_drop_time : ℕ
  pub drop_count : ℕ
  pub dropping : Bool
  pub max_size : ℕ
  pub queue : List (Wrapper A)
  pub has_drop_func : Bool
  pub dropped : List A
  pub reads : ℕ

-- What `RingDequeue` leaves in `w` and `drop`; on `underflow` (-1) all is as it was.
pub data Dequeue {ℓ} (A : Type ℓ) : Type ℓ where
  underflow : Dequeue A
  taken : Wrapper A → Bool → Codel A → Dequeue A

-- The return value, the object that was handed out, and the queue after.
pub record Popped {ℓ} (A : Type ℓ) : Type ℓ where
  pub err : ℤ
  pub obj : Option A
  pub after : Codel A

-- `DropDequeue`'s return value, with `w`, `drop` and the queue as it leaves them.
pub record Shed {ℓ} (A : Type ℓ) : Type ℓ where
  pub err : ℤ
  pub w : Wrapper A
  pub drop : Bool
  pub after : Codel A

module _ {ℓ} {A : Type ℓ} where
  pub tick : Codel A → Codel A
  tick c = record c { reads = c.reads + 1 }

  pub drop_entry : Wrapper A → Codel A → Codel A
  drop_entry w c = if c.has_drop_func then record c { dropped = c.dropped ++ w.second ∷ [] } else c

  -- `Drop(w); drop_count_++`
  pub count_drop : Wrapper A → Codel A → Codel A
  unfolding drop_entry
  count_drop w c = record (drop_entry w c) { drop_count = u32 (c.drop_count + 1) }

  pub drop_entries : List (Wrapper A) → Codel A → Codel A
  drop_entries [] c = c
  drop_entries (w ∷ ws) c = drop_entries ws (drop_entry w c)

  -- The destructor.
  pub destroy : Codel A → Codel A
  destroy c = record (drop_entries c.queue c) { queue = [] }

  -- The end of `Pop`.
  pub hand_out : Shed A → Popped A
  hand_out s = record {
    err = s.err;
    obj = if failed s.err then none else some s.w.second;
    after = s.after;
  }

  pub may_enter : ℕ → Codel A → Bool
  may_enter now c =
      ltb (sub64 now c.next_drop_time) c.window || leb c.window (sub64 now c.time_above_target)

  -- The second half of `RingDequeue`: `drop` is set and never cleared.
  pub judge : ℕ → Wrapper A → Bool → Codel A → Dequeue A
  judge now w drop c =
      if ltb (sub64 now w.first) c.delay_target
      then taken w drop (record c { time_above_target = 0 })
      else if c.time_above_target == 0
      then taken w drop (record c { time_above_target = u64 (now + c.window) })
      else if leb c.time_above_target now
      then taken w true c
      else taken w drop c

module _ {ℓ} {A : Type ℓ} (platform : Platform) where
  open platform use {clock, drop_after, deque_max}

  pub new : Bool → ℕ → ℕ → ℕ → Codel A
  new has_drop_func max_entries target window = record {
    delay_target = target;
    window = window;
    time_above_target = 0;
    next_drop_time = u64 (clock 0 + window);
    drop_count = 0;
    dropping = false;
    max_size = max_entries;
    queue = [];
    has_drop_func = has_drop_func;
    dropped = [];
    reads = 1;
  }

  pub push : A → Codel A → ℤ × Codel A
  unfolding tick
  push obj c = if not (c.max_size == 0) && leb c.max_size (length c.queue) then (negsuc 0, c) else (
    pos 0,
    record (tick c) { queue = c.queue ++ record { first = clock c.reads; second = obj } ∷ [] },
  )

  -- `Push(T* ptr, size_t count)`: the number of objects taken.
  pub push_all : List A → Codel A → ℕ × Codel A
  push_all [] c = (0, c)
  push_all (obj ∷ objs) c =
      let (err, c') = push obj c in
      let (n, c'') = push_all objs c' in if failed err then (0, c') else (suc n, c'')

  pub dequeue_from : List (Wrapper A) → Codel A → Bool → Dequeue A
  dequeue_from [] c drop = underflow
  dequeue_from (w ∷ rest) c drop = judge (clock c.reads) w drop (record (tick c) { queue = rest })

  pub ring_dequeue : Codel A → Bool → Dequeue A
  unfolding dequeue_from
  ring_dequeue c drop = dequeue_from c.queue c drop

  pub next_drop : ℕ → Codel A → ℕ
  next_drop cur_time c = drop_after cur_time c.window c.drop_count

  -- The rest of a round of `DropDequeue`'s loop, by what `RingDequeue` left; `again` is the loop.
  pub after_drop :
      (Wrapper A → Codel A → Option (Shed A))
      → Wrapper A
      → Bool
      → Codel A
      → Dequeue A
      → Option (Shed A)
  unfolding next_drop
  after_drop again w drop c underflow =
      some (record { err = negsuc 0; w = w; drop = drop; after = record c { dropping = false } })
  after_drop again w drop c (taken w' false c') =
      some (record { err = pos 0; w = w'; drop = false; after = record c' { dropping = false } })
  after_drop again w drop c (taken w' true c') =
      again w' (record c' { next_drop_time = next_drop c'.next_drop_time c' })

  -- The loop of `DropDequeue`, which runs with `drop` set; `none` means that the fuel ran out.
  pub drop_loop : ℕ → ℕ → Wrapper A → Codel A → Option (Shed A)
  drop_loop zero now w c = none
  drop_loop (suc fuel) now w c =
      let go_on =
        after_drop (drop_loop fuel now) w true (count_drop w c)
          (ring_dequeue (count_drop w c) true) in
      if leb c.next_drop_time now && c.dropping
      then go_on
      else some (record { err = pos 0; w = w; drop = true; after = c })

  -- Each round takes an entry, and the round that finds none is the last.
  pub drop_fuel : Codel A → ℕ
  drop_fuel c = suc (length c.queue)

  pub drop_dequeue : Wrapper A → Bool → Codel A → Option (Shed A)
  drop_dequeue w drop c =
      if not drop
      then some (record { err = pos 0; w = w; drop = drop; after = record c' { dropping = false } })
      else if leb c'.next_drop_time (clock c.reads)
      then drop_loop (drop_fuel c') (clock c.reads) w c'
      else some (record { err = pos 0; w = w; drop = drop; after = c' })
    where
      c' : Codel A
      c' = tick c

  -- `dropping_ = 1`, with the count of drops that it starts from and the time of the next drop.
  pub entering : ℕ → Codel A → Codel A
  unfolding next_drop
  entering now c =
      let count =
        if ltb (sub64 now c.next_drop_time) c.window && ltb 2 c.drop_count
        then c.drop_count - 2
        else 1 in
      let c' = record c { dropping = true; drop_count = count } in
      record c' { next_drop_time = next_drop now c' }

  -- Once the first entry is dropped, the next one is handed out.
  pub entered : ℕ → Wrapper A → Codel A → Dequeue A → Popped A
  entered now w c underflow = record { err = negsuc 0; obj = none; after = drop_entry w c }
  entered now w c (taken w' _ c') = record {
    err = pos 0;
    obj = some w'.second;
    after = entering now c';
  }

  pub enter_dropping : ℕ → Wrapper A → Bool → Codel A → Popped A
  enter_dropping now w drop c = entered now w c (ring_dequeue (drop_entry w c) drop)

  -- `Pop` on an entry that was dequeued.
  pub pop_entry : Wrapper A → Bool → Codel A → Option (Popped A)
  pop_entry w drop c =
      if c.dropping
      then Option.map hand_out (drop_dequeue w drop (tick c))
      else if drop && may_enter (clock c.reads) c
      then some (enter_dropping (clock c.reads) w drop (tick c))
      else some (record { err = pos 0; obj = some w.second; after = tick c })

  pub pop_taken : Codel A → Dequeue A → Option (Popped A)
  pop_taken c underflow =
      some (record { err = negsuc 1; obj = none; after = record c { dropping = false } })
  pop_taken c (taken w drop c') = pop_entry w drop c'

  pub pop : Codel A → Option (Popped A)
  pop c = pop_taken c (ring_dequeue c false)

  pub capacity : Codel A → ℕ
  capacity c = if not (c.max_size == 0) then c.max_size else deque_max

  pub full : Codel A → Bool
  full c =
      if not (c.max_size == 0) then c.max_size == length c.queue else length c.queue == deque_max

  pub resize : ℕ → Codel A → ℤ × Codel A
  resize new_capacity c =
      if leb new_capacity (length c.queue)
      then (negsuc 0, c)
      else if leb deque_max new_capacity
      then (negsuc 0, c)
      else (pos 0, record c { max_size = new_capacity })
