-- ===== src/TrafficClass.antt =====
-- core/traffic_class.h: what all traffic classes share. A class is a number, and its parent pointer
-- and blocked flag are cells of two memories.
pub mod RoundRobin
pub mod RateLimit
pub mod Priority
pub mod WeightedFair
use nfv.Base.{ℕ, Bool, true, false, not, ◌&&◌, Option, none, some, Memory, update, if◌then◌else◌}

pub record Classes : Type 0 where
  pub parent : Memory (Option ℕ)
  pub blocked : Memory Bool

-- The call on the parent that ends an operation.
pub data Notice : Type 0 where
  quiet : Notice
  unblock_towards_root : Notice
  block_towards_root : Notice

abbrev pub has_parent : Classes → ℕ → Bool
has_parent c self = elim (c.parent self) [ none ↦ false | some _ ↦ true ]

-- UnblockTowardsRootSetBlocked
pub unblock_set_blocked : ℕ → Bool → Classes → Notice × Classes
unblock_set_blocked self now_blocked c = (
  if has_parent c self && (not now_blocked && c.blocked self) then unblock_towards_root else quiet,
  record c { blocked = update c.blocked self now_blocked },
)

-- BlockTowardsRootSetBlocked
pub block_set_blocked : ℕ → Bool → Classes → Notice × Classes
block_set_blocked self now_blocked c = (
  if has_parent c self && (now_blocked && not (c.blocked self)) then block_towards_root else quiet,
  record c { blocked = update c.blocked self now_blocked },
)
