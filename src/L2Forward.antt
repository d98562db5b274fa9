-- ===== src/L2Forward.antt =====
-- core/modules/l2_forward.cc and .h: the table from MAC addresses to output gates. The hash is
-- DPDK's `rte_hash_cpu`, and allocation and `sscanf` are the C library's.
pub mod Search
pub mod Layout
pub mod Frame
pub mod Slot
pub mod Change
pub mod Preserve
pub mod Overwrite
pub mod Words
pub mod Wide
mod Examples
pub mod Init
pub mod Commands
use nfv.Base.{
  ℕ, zero, suc, ◌+◌, ◌-◌, ◌*◌, ◌/◌, ◌%◌, ◌^◌, Bool, true, false, not, ◌&&◌, ◌||◌, bit_and, bit_or,
  bit_xor, Option, none, some, ltb, leb, ◌==◌, if◌then◌else◌, Memory, update,
}
use nfv.Base.Int.{ℤ, pos, negsuc, neg}
use nfv.Base.Words.{u32, u64, sub32, sub64}

abbrev pub einval : ℕ
einval = 22

abbrev pub enomem : ℕ
enomem = 12

abbrev pub eexist : ℕ
eexist = 17

abbrev pub enoent : ℕ
enoent = 2

-- MAX_TABLE_SIZE and MAX_BUCKET_SIZE
abbrev pub max_table_size : ℕ
max_table_size = 1048576 * 64

abbrev pub max_bucket_size : ℕ
max_bucket_size = 4

-- What the code takes from DPDK and the compiler: the hash, and whether the program is built with
-- AVX, as `-march=native` makes it where the machine has it.
pub record Cpu : Type 0 where
  pub crc_8byte : ℕ → ℕ
  pub avx : Bool

-- The bit fields of `l2_entry`: 48, 15 and 1 bits.
pub record L2Entry : Type 0 where
  pub addr : ℕ
  pub gate : ℕ
  pub occupied : Bool

-- `allocated` says that `table` is not null.
pub record L2Table : Type 0 where
  pub allocated : Bool
  pub table : Memory L2Entry
  pub size : ℕ
  pub size_power : ℕ
  pub bucket : ℕ
  pub count : ℕ

-- An entry whose bytes are all zero.
abbrev pub zero_entry : L2Entry
zero_entry = record { addr = 0; gate = 0; occupied = false }

pub is_power_of_2 : ℕ → Bool
is_power_of_2 n = not (n == 0) && bit_and n (sub64 n 1) == 0

-- The tests of `l2_init` on `size` and `bucket`.
pub valid_dimension : ℤ → ℕ → Bool
valid_dimension (negsuc _) limit = false
valid_dimension (pos n) limit = not (n == 0) && (leb n limit && is_power_of_2 n)

-- `while (size > 1) { size >>= 1; power += 1; }`, with the size itself as fuel.
pub log2_loop : ℕ → ℕ → ℕ → ℕ
log2_loop zero size power = power
log2_loop (suc fuel) size power =
    let rest = log2_loop fuel (size / 2) (power + 1) in if ltb 1 size then rest else power

abbrev pub magnitude : ℤ → ℕ
magnitude (pos n) = n
magnitude (negsuc _) = 0

-- `alloc` says whether `posix_memalign` succeeds; `mem_alloc_ex` then clears the memory.
pub l2_init : Bool → ℤ → ℤ → L2Table → ℤ × L2Table
l2_init alloc size bucket t =
    if not (valid_dimension size max_table_size)
    then (neg einval, t)
    else if not (valid_dimension bucket max_bucket_size)
    then (neg einval, t)
    else if not alloc
    then (neg enomem, record t { allocated = false })
    else (
      pos 0,
      record t {
        allocated = true;
        table = λ _. zero_entry;
        size = magnitude size;
        bucket = magnitude bucket;
        size_power = log2_loop (magnitude size) (magnitude size) 0;
      },
    )

pub l2_deinit : L2Table → ℤ × L2Table
l2_deinit t =
    if not t.allocated
    then (neg einval, t)
    else if t.size == 0
    then (neg einval, t)
    else if t.bucket == 0
    then (neg einval, t)
    else (
      pos 0,
      record {
        allocated = false;
        table = t.table;
        size = 0;
        size_power = 0;
        bucket = 0;
        count = 0;
      },
    )

pub l2_ib_to_offset : L2Table → ℕ → ℕ → ℕ
l2_ib_to_offset t index bucket = u32 (index * t.bucket + bucket)

pub l2_hash_to_index : ℕ → ℕ → ℕ
l2_hash_to_index hash size = bit_and hash (sub32 size 1)

-- For a table of size 1 the shift `size_power - 1` is undefined; here it is what an x86-64 processor
-- makes of it, the count modulo 64.
pub l2_alt_index : ℕ → ℕ → ℕ → ℕ
l2_alt_index hash size_power index =
    let tag = u64 ((hash / 2 ^ size_power + 1) * 0x5bd1e995) in
    u32 (bit_and (bit_xor index tag) (2 ^ ((size_power + 63) % 64) - 1))

-- The 64 bits of an entry.
pub entry_word : L2Entry → ℕ
entry_word e = e.addr + e.gate * 2 ^ 48 + (if e.occupied then 2 ^ 63 else 0)

-- `(&tbl[offset].entry)[i]`: `l2_entry` is aligned to 32 bytes, so each entry is four words, of
-- which the last three are padding. Padding is cleared when the table is allocated.
pub table_word : Memory L2Entry → ℕ → ℕ → ℕ
table_word tbl offset i = if i % 4 == 0 then entry_word (tbl (offset + i / 4)) else 0

-- `_CMP_EQ_OQ` on the doubles that two 64-bit words are: neither is a NaN, and the words are the
-- same or both a zero of either sign.
pub is_nan : ℕ → Bool
is_nan w = ltb (0x7ff * 2 ^ 52) (w % 2 ^ 63)

pub cmp_eq : ℕ → ℕ → Bool
cmp_eq v w =
    not (is_nan v) && (not (is_nan w) && ((v == w) || (v % 2 ^ 63 == 0 && w % 2 ^ 63 == 0)))

-- The comparison of one word: find_index_avx compares doubles and find_index_basic integers.
pub equals : Bool → ℕ → ℕ → Bool
equals avx v w = if avx then cmp_eq v w else v == w

-- Four words from the first one on, with `n` of them left: the number of the first that compares
-- equal, which find_index_avx reads off the mask of the four comparisons.
pub find_index_from : Bool → ℕ → ℕ → Memory L2Entry → ℕ → ℕ → ℕ
find_index_from avx zero addr tbl offset i = 0
find_index_from avx (suc n) addr tbl offset i =
    let rest = find_index_from avx n addr tbl offset (i + 1) in
    if equals avx (bit_or addr (2 ^ 63)) (bit_and (table_word tbl offset i) 0x8000ffffffffffff)
    then i + 1
    else rest

pub find_index : Bool → ℕ → Memory L2Entry → ℕ → ℕ
find_index avx addr tbl offset = find_index_from avx 4 addr tbl offset 0

-- `tbl[offset].occupied && addr == tbl[offset].addr`
abbrev pub holds : L2Entry → ℕ → Bool
holds e addr = e.occupied && addr == e.addr

-- `for (i = 0; i < n; i++, offset++)`: the first offset that holds the address.
pub search : ℕ → Memory L2Entry → ℕ → ℕ → Option ℕ
search zero tbl addr offset = none
search (suc n) tbl addr offset =
    let rest = search n tbl addr (offset + 1) in
    if holds (tbl offset) addr then some offset else rest

-- The first bucket slot from `i` on that is free.
pub free_slot : ℕ → L2Table → ℕ → ℕ → Option ℕ
free_slot zero t idx i = none
free_slot (suc n) t idx i =
    let rest = free_slot n t idx (i + 1) in
    if (t.table (l2_ib_to_offset t idx i)).occupied then rest else some i

-- `tbl[offset2] = tbl[offset1]; tbl[offset1].occupied = 0;`
pub move_entry : L2Table → ℕ → ℕ → L2Table
move_entry t offset_1 offset_2 =
    let copied = update t.table offset_2 (t.table offset_1) in
    record t { table = update copied offset_1 (record (copied offset_1) { occupied = false }) }

pub put_entry : L2Table → ℕ → ℕ → ℕ → L2Table
put_entry t offset addr gate = record t {
  table =
      update t.table offset
        (record { addr = addr % 2 ^ 48; gate = gate % 2 ^ 15; occupied = true });
  count = u64 (t.count + 1);
}

pub add_at : L2Table → ℕ → ℕ → Option (L2Table × ℕ × ℕ) → ℤ × L2Table
add_at t addr gate none = (neg enomem, t)
add_at t addr gate (some (t', index, bucket)) =
    (pos 0, put_entry t' (l2_ib_to_offset t' index bucket) addr gate)

-- The first bucket's slot, or else the second one's.
abbrev pub or_else : Option ℕ → Option ℕ → Option ℕ
or_else none second = second
or_else (some offset) second = some offset

-- The gate of the slot that a search has found.
abbrev pub gate_at : L2Table → Option ℕ → Option ℕ
gate_at t none = none
gate_at t (some offset) = some (t.table offset).gate

pub del_at : L2Table → Option ℕ → ℤ × L2Table
del_at t none = (neg enoent, t)
del_at t (some offset) = (
  pos 0,
  record t { table = update t.table offset zero_entry; count = u64 (t.count + 2 ^ 64 - 1) },
)

module _ (cpu : Cpu) where
  pub l2_hash : ℕ → ℕ
  l2_hash addr = u32 (cpu.crc_8byte addr)

  -- The two buckets of an address.
  pub index_1 : L2Table → ℕ → ℕ
  index_1 t addr = l2_hash_to_index (l2_hash addr) t.size

  pub index_2 : L2Table → ℕ → ℕ
  index_2 t addr = l2_alt_index (l2_hash addr) t.size_power (index_1 t addr)

  -- The address's slot in one of its buckets. `none` is -ENOENT.
  pub l2_find_offset : L2Table → ℕ → Option ℕ
  l2_find_offset t addr =
      or_else (search t.bucket t.table addr (l2_ib_to_offset t (index_1 t addr) 0))
        (search t.bucket t.table addr (l2_ib_to_offset t (index_2 t addr) 0))

  -- `l2_find` on buckets of four slots; `none` is -ENOENT.
  pub find_four : L2Table → ℕ → Option ℕ
  find_four t addr =
      let offset_1 = l2_ib_to_offset t (index_1 t addr) 0 in
      let offset_2 = l2_ib_to_offset t (index_2 t addr) 0 in
      let tmp_1 = find_index cpu.avx addr t.table offset_1 in
      let tmp_2 = find_index cpu.avx addr t.table offset_2 in
      if not (tmp_1 == 0)
      then some (t.table (offset_1 + tmp_1 - 1)).gate
      else if not (tmp_2 == 0)
      then some (t.table (offset_2 + tmp_2 - 1)).gate
      else none

  -- `l2_find` on smaller buckets: the search of `l2_find_offset`, and the gate found there.
  pub find_any : L2Table → ℕ → Option ℕ
  find_any t addr = gate_at t (l2_find_offset t addr)

  pub l2_find : L2Table → ℕ → Option ℕ
  l2_find t addr = if t.bucket == 4 then find_four t addr else find_any t addr

  -- The rounds of "try moving" from slot `i` of bucket `idx` on: the table, and the slot that is
  -- handed out.
  pub try_moving : ℕ → L2Table → ℕ → ℕ → Option (L2Table × ℕ × ℕ)
  try_moving zero t idx i = none
  try_moving (suc n) t idx i =
      let offset_1 = l2_ib_to_offset t idx i in
      let addr = (t.table offset_1).addr in
      let idx_v2 = index_2 t addr in
      let rest = try_moving n t idx (i + 1) in
      if index_1 t addr == idx_v2
      then none
      else if idx == idx_v2
      then none
      else elim (free_slot t.bucket t idx_v2 0) [
        | some j ↦ some (move_entry t offset_1 (l2_ib_to_offset t idx_v2 j), idx, 0)
        | none ↦ rest
      ]

  -- `none` is -ENOMEM.
  pub l2_find_slot : L2Table → ℕ → Option (L2Table × ℕ × ℕ)
  l2_find_slot t addr = elim (free_slot t.bucket t (index_1 t addr) 0) [
    | some i ↦ some (t, index_1 t addr, i)
    | none ↦ try_moving t.bucket t (index_1 t addr) 0
  ]

  pub l2_add_entry : L2Table → ℕ → ℕ → ℤ × L2Table
  l2_add_entry t addr gate = elim (l2_find t addr) [
    | some _ ↦ (neg eexist, t)
    | none ↦ add_at t addr gate (l2_find_slot t addr)
  ]

  pub l2_del_entry : L2Table → ℕ → ℤ × L2Table
  l2_del_entry t addr = del_at t (l2_find_offset t addr)

pub l2_flush : L2Table → ℤ × L2Table
l2_flush t =
    if not t.allocated then (neg einval, t) else (pos 0, record t { table = λ _. zero_entry })

-- Six bytes, the first one lowest.
pub l2_addr_to_u64 : Memory ℕ → ℕ
l2_addr_to_u64 addr =
    let a = addr 0 + addr 1 * 2 ^ 8 + addr 2 * 2 ^ 16 + addr 3 * 2 ^ 24 in
    let b = addr 4 + addr 5 * 2 ^ 8 in bit_or a (b * 2 ^ 32)
