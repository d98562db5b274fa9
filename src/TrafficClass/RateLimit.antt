-- ===== src/TrafficClass/RateLimit.antt =====
-- core/traffic_class.cc and .h: the rate-limiting traffic class.
pub mod Bucket
pub mod Rate
mod Examples
use nfv.Base.{
  ℕ, ◌+◌, ◌-◌, ◌*◌, ◌/◌, ◌^◌, ◌%◌, Bool, true, false, not, ◌||◌, Option, none, some, Memory, update,
  if◌then◌else◌, ltb, ◌==◌, min,
}
use nfv.Base.Words.{u64, sub64}
use nfv.TrafficClass.{Classes, Notice, quiet, unblock_set_blocked, block_set_blocked}

-- `wakeup_time` and `cnt_throttled` stand in the base class and in its statistics.
pub record RateLimit : Type 0 where
  pub limit : ℕ
  pub limit_arg : ℕ
  pub max_burst : ℕ
  pub max_burst_arg : ℕ
  pub tokens : ℕ
  pub last_tsc : ℕ
  pub wakeup_time : ℕ
  pub cnt_throttled : ℕ
  pub child : Option ℕ

-- `tsc_hz` is the clock's frequency; the shift is computed with 128 bits.
pub to_work_units_per_cycle : ℕ → ℕ → ℕ
to_work_units_per_cycle tsc_hz x = u64 (x * 2 ^ 32 / tsc_hz)

pub to_work_units : ℕ → ℕ
to_work_units x = u64 (x * 2 ^ 32)

pub set_limit : ℕ → ℕ → RateLimit → RateLimit
set_limit tsc_hz limit r = record r {
  limit_arg = limit;
  limit = to_work_units_per_cycle tsc_hz limit;
}

pub set_max_burst : ℕ → RateLimit → RateLimit
set_max_burst burst r = record r { max_burst_arg = burst; max_burst = to_work_units burst }

-- The constructor.
pub new : ℕ → ℕ → ℕ → RateLimit
new tsc_hz limit max_burst = set_max_burst max_burst (
    set_limit tsc_hz limit (record {
      limit = 0;
      limit_arg = 0;
      max_burst = 0;
      max_burst_arg = 0;
      tokens = 0;
      last_tsc = 0;
      wakeup_time = 0;
      cnt_throttled = 0;
      child = none;
    }))

-- `!child_ || child_->blocked_`
abbrev pub child_blocked : Classes → Option ℕ → Bool
child_blocked c none = true
child_blocked c (some child) = c.blocked child

pub unblock : ℕ → ℕ → Classes → RateLimit → Notice × Classes × RateLimit
unblock self tsc c r =
    let set = unblock_set_blocked self (not (r.wakeup_time == 0) || child_blocked c r.child) c in
    (set.0, set.1, record r { last_tsc = tsc })

pub block : ℕ → Classes → RateLimit → Notice × Classes × RateLimit
block self c r = let set = block_set_blocked self (child_blocked c r.child) c in (set.0, set.1, r)

-- `none` is the result false; `tsc` is the reading of the clock.
pub add_child : ℕ → ℕ → ℕ → Classes → RateLimit → Option (Notice × Classes × RateLimit)
add_child self child tsc c r = elim (c.parent child) [
  | some _ ↦ none
  | none ↦ elim r.child [
    | some _ ↦ none
    | none ↦ some (
        unblock self tsc (record c { parent = update c.parent child (some self) })
          (record r { child = some child }))
  ]
]

abbrev pub is_this : Option ℕ → ℕ → Bool
is_this none x = false
is_this (some y) x = y == x

pub remove_child : ℕ → ℕ → Classes → RateLimit → Option (Notice × Classes × RateLimit)
remove_child self child c r =
    if not (is_this (c.parent child) self) || not (is_this r.child child)
    then none
    else some
        (block self (record c { parent = update c.parent child none }) (record r { child = none }))

pub pick_next_child : RateLimit → Option ℕ
pick_next_child r = r.child

-- `tokens_ + limit_ * elapsed_cycles`
pub tokens_at : ℕ → RateLimit → ℕ
tokens_at tsc r = u64 (r.tokens + u64 (r.limit * sub64 tsc r.last_tsc))

-- The branch that exceeds the limit.
pub throttle : ℕ → ℕ → ℕ → RateLimit → RateLimit
throttle consumed tokens tsc r = record r {
  tokens = 0;
  last_tsc = tsc;
  cnt_throttled = u64 (r.cnt_throttled + 1);
  wakeup_time = if r.limit == 0 then r.wakeup_time else u64 (tsc + (consumed - tokens) / r.limit);
}

-- FinishAndAccountTowardsRoot, without the usage statistics and the parent's call that follows it:
-- `usage` is usage[resource_]. The first result says that the class is added to the wakeup queue.
pub finish_and_account : ℕ → ℕ → ℕ → ℕ → Classes → RateLimit → Bool × Classes × RateLimit
finish_and_account self child usage tsc c r =
    let tokens = tokens_at tsc r in
    let consumed = to_work_units usage in
    if ltb tokens consumed
    then (
      not (r.limit == 0),
      record c { blocked = update c.blocked self true },
      throttle consumed tokens tsc r,
    )
    else (
      false,
      record c { blocked = update c.blocked self (c.blocked self || c.blocked child) },
      record r { tokens = min (tokens - consumed) r.max_burst; last_tsc = tsc },
    )
