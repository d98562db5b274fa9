-- ===== src/L2Forward/Commands.antt =====
-- core/modules/l2_forward.cc: the module's Init, DeInit, ProcessBatch and commands. The result and
-- the bytes that `sscanf` gives for a string are a parameter.
pub mod Serve
pub mod Populate
use nfv.Base.{
  ℕ, zero, suc, ◌+◌, ◌-◌, ◌*◌, ◌/◌, ◌%◌, ◌^◌, Bool, true, false, Option, none, some, ◌==◌, not,
  ◌&&◌, if◌then◌else◌, Memory, List, [], ◌∷◌, ◌++◌, bit_and,
}
use nfv.Base.Int.{ℤ, pos, negsuc, neg, failed, int32}
use nfv.Base.Words.{u64}
use nfv.L2Forward.{
  Cpu, L2Table, l2_init, l2_deinit, l2_add_entry, l2_del_entry, l2_find, l2_addr_to_u64, einval,
  enoent, magnitude,
}

-- MAX_GATES, which is also DROP_GATE
abbrev pub drop_gate : ℕ
drop_gate = 8192

abbrev pub default_table_size : ℕ
default_table_size = 1024

pub record L2Forward : Type 0 where
  pub l2_table : L2Table
  pub default_gate : ℕ

-- CommandSuccess, without and with a message of gates, and CommandFailure.
pub data Response : Type 0 where
  success : Response
  gates : List ℕ → Response
  failure : ℕ → Response

-- An entry of L2ForwardCommandAddArg: the characters of the address, and the gate.
pub record AddEntry : Type 0 where
  pub addr : List ℕ
  pub gate : ℤ

-- A packet: its name, and the first eight bytes of its data.
pub record Packet : Type 0 where
  pub id : ℕ
  pub head : ℕ

-- A conversion to `gate_idx_t`.
abbrev pub gate_idx : ℤ → ℕ
gate_idx (pos n) = n % 2 ^ 16
gate_idx (negsuc n) = 2 ^ 16 - 1 - n % 2 ^ 16

-- A conversion of an int64_t to int.
abbrev pub to_int : ℤ → ℤ
to_int (pos n) = int32 (n % 2 ^ 32)
to_int (negsuc n) = int32 (2 ^ 32 - 1 - n % 2 ^ 32)

-- The remainder of a count by a negative number is that by its absolute value.
abbrev pub absolute : ℤ → ℕ
absolute (pos n) = n
absolute (negsuc n) = suc n

-- `-r` of a negative return value.
abbrev pub errno : ℤ → ℕ
errno (pos _) = 0
errno (negsuc n) = n + 1

abbrev pub is_empty : List ℕ → Bool
is_empty [] = true
is_empty (_ ∷ _) = false

pub or_default : ℤ → ℤ → ℤ
or_default (pos zero) value = value
or_default (pos (suc n)) value = pos (suc n)
or_default (negsuc n) value = negsuc n

pub init : Bool → ℤ → ℤ → L2Forward → Response × L2Forward
init alloc size bucket m =
    let r =
      l2_init alloc (or_default size (pos default_table_size)) (or_default bucket (pos 4))
        m.l2_table in
    let m' : L2Forward = record { l2_table = r.1; default_gate = drop_gate } in
    if failed r.0 then (failure (errno r.0), m') else (success, m')

pub de_init : L2Forward → L2Forward
de_init m = record m { l2_table = (l2_deinit m.l2_table).1 }

pub set_default_gate : ℤ → L2Forward → Response × L2Forward
set_default_gate gate m = (success, record m { default_gate = gate_idx gate })

-- The table's gate, or the default one.
abbrev pub gate_or : ℕ → Option ℕ → ℕ
gate_or default none = default
gate_or default (some gate) = gate

-- `__builtin_bswap64`
pub swap64 : ℕ → ℕ
swap64 v =
    v % 256 * 2 ^ 56
    + v / 2 ^ 8 % 256 * 2 ^ 48
    + v / 2 ^ 16 % 256 * 2 ^ 40
    + v / 2 ^ 24 % 256 * 2 ^ 32
    + v / 2 ^ 32 % 256 * 2 ^ 24
    + v / 2 ^ 40 % 256 * 2 ^ 16
    + v / 2 ^ 48 % 256 * 2 ^ 8
    + v / 2 ^ 56 % 256

-- `if (r == -ENOENT) ... else if (r != 0) ...`
abbrev pub delete_errno : ℤ → ℕ
delete_errno r = if errno r == enoent then enoent else einval

unfoldable pub parse_mac_addr : (List ℕ → ℕ × Memory ℕ) → List ℕ → ℤ × Memory ℕ
parse_mac_addr sscanf_mac str =
    let scanned = sscanf_mac str in (if scanned.0 == 6 then pos 0 else neg einval, scanned.1)

module _ (cpu : Cpu) where
  -- The packets and the gates that they are emitted to, in order.
  pub process_batch : L2Forward → List Packet → List (Packet × ℕ)
  process_batch m [] = []
  process_batch m (snb ∷ batch) =
      (snb, gate_or m.default_gate (l2_find cpu m.l2_table (bit_and snb.head 0x0000ffffffffffff)))
      ∷ process_batch m batch

  -- The loop of CommandPopulate from round `i` on, with `n` rounds left. The results of the
  -- additions are not looked at.
  pub populate_from : ℕ → ℕ → ℕ → ℕ → L2Table → L2Table
  populate_from zero i gate_cnt base t = t
  populate_from (suc n) i gate_cnt base t =
      populate_from n (i + 1) gate_cnt (u64 (base + 1))
        (l2_add_entry cpu t (swap64 (u64 (base * 2 ^ 16))) (i % gate_cnt % 2 ^ 16)).1

  module _ (sscanf_mac : List ℕ → ℕ × Memory ℕ) where
    unfoldable pub command_add : L2Table → List AddEntry → Response × L2Table
    command_add t [] = (success, t)
    command_add t (entry ∷ entries) =
        let parsed = parse_mac_addr sscanf_mac entry.addr in
        let r = l2_add_entry cpu t (l2_addr_to_u64 parsed.1) (gate_idx entry.gate) in
        let rest = command_add r.1 entries in
        if is_empty entry.addr
        then (failure einval, t)
        else if failed parsed.0
        then (failure einval, t)
        else if failed r.0
        then (failure (errno r.0), r.1)
        else rest

    pub command_delete : L2Table → List (List ℕ) → Response × L2Table
    command_delete t [] = (success, t)
    command_delete t (addr ∷ addrs) =
        let parsed = parse_mac_addr sscanf_mac addr in
        let r = l2_del_entry cpu t (l2_addr_to_u64 parsed.1) in
        let rest = command_delete r.1 addrs in
        if is_empty addr
        then (failure einval, t)
        else if failed parsed.0
        then (failure einval, t)
        else if failed r.0
        then (failure (delete_errno r.0), r.1)
        else rest

    -- The loop of CommandLookup, with the gates found so far.
    pub command_lookup : L2Table → List (List ℕ) → List ℕ → Response
    command_lookup t [] found = gates found
    command_lookup t (addr ∷ addrs) found =
        let parsed = parse_mac_addr sscanf_mac addr in
        if is_empty addr
        then failure einval
        else if failed parsed.0
        then failure einval
        else elim (l2_find cpu t (l2_addr_to_u64 parsed.1)) [
          | none ↦ failure enoent
          | some gate ↦ command_lookup t addrs (found ++ (gate ∷ []))
        ]

    -- The base is shifted by 16 bits twice. `none` is a division by zero, in the first round.
    pub command_populate : L2Table → List ℕ → ℤ → ℤ → Option (Response × L2Table)
    command_populate t base count gate_count =
        let parsed = parse_mac_addr sscanf_mac base in
        let shifted = swap64 (l2_addr_to_u64 parsed.1) / 2 ^ 16 / 2 ^ 16 in
        let cnt = magnitude (to_int count) in
        let gate_cnt = absolute (to_int gate_count) in
        if is_empty base
        then some (failure einval, t)
        else if failed parsed.0
        then some (failure einval, t)
        else if not (cnt == 0) && gate_cnt == 0
        then none
        else some (success, populate_from cnt 0 gate_cnt shifted t)
