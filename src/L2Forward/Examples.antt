-- ===== src/L2Forward/Examples.antt =====
-- Runs of the table of core/modules/l2_forward.cc, and its theorems at concrete tables.
use nfv.Base.{
  ℕ, zero, suc, ◌+◌, ◌*◌, ◌%◌, ◌^◌, ◌<◌, ◌≡◌, refl, true, false, List, [], ◌∷◌, ◌++◌, Memory, arith,
  update, none, some,
}
use nfv.Base.Int.{pos}
use nfv.L2Forward.{
  Cpu, L2Entry, L2Table, zero_entry, search, free_slot, l2_find, l2_find_offset, l2_find_slot,
  l2_add_entry, l2_del_entry, l2_ib_to_offset, index_1, index_2, l2_hash, l2_hash_to_index,
  l2_alt_index, move_entry, try_moving, find_any, find_four, find_index, find_index_from, equals,
  cmp_eq, is_nan, table_word, entry_word, put_entry, add_at, l2_addr_to_u64,
}
use nfv.L2Forward.Layout.{IsTable}
use nfv.L2Forward.Change.{Added, l2_add_entry-Added}
use nfv.L2Forward.Preserve.{Deleted, l2_del_entry-Deleted, l2_add_entry_others}
use nfv.L2Forward.Frame.{update_all}
use nfv.L2Forward.Words.{IsEntry}
use nfv.L2Forward.Wide.{l2_find_first_slots}
use nfv.L2Forward.Commands.{command_add, command_populate, process_batch, success, parse_mac_addr}
use nfv.L2Forward.Commands.Serve.{command_add-process_batch}
use nfv.L2Forward.Commands.Populate.{command_populate_first}

-- The hash is the address itself.
abbrev plain_hash : Cpu
plain_hash = record { crc_8byte = λ addr. addr; avx = false }

abbrev entry : ℕ → ℕ → L2Entry
entry addr gate = record { addr = addr; gate = gate; occupied = true }

-- Four entries of two slots: the third is full, the second is full, and the first has room.
abbrev with_six : Memory L2Entry
with_six = update (λ _. zero_entry) 5 (entry 6 4)

abbrev with_105 : Memory L2Entry
with_105 = update with_six 3 (entry 105 2)

abbrev with_101 : Memory L2Entry
with_101 = update with_105 2 (entry 101 1)

abbrev slots : Memory L2Entry
slots = update with_101 4 (entry 2 3)

abbrev crowded : L2Table
crowded = record {
  allocated = true;
  table = slots;
  size = 4;
  size_power = 2;
  bucket = 2;
  count = 4;
}

crowded-IsTable : IsTable 2 crowded
crowded-IsTable = record {
  more_than_one = omega arith;
  in_range = omega arith;
  size = refl;
  size_power = refl;
  bucket_pos = omega arith;
  bucket_le = omega arith;
}

-- Adding 10 moves 6 to the first entry, and takes the slot of 2.
add_ten : l2_find_offset plain_hash (l2_add_entry plain_hash crowded 10 7).1 2 ≡ none
unfolding l2_find_offset l2_add_entry l2_find find_any search index_1 index_2 l2_hash
    l2_hash_to_index l2_alt_index l2_ib_to_offset l2_find_slot free_slot try_moving add_at put_entry
    move_entry
add_ten = refl

l2_add_entry_others_example :
    l2_find plain_hash (l2_add_entry plain_hash crowded 4 9).1 6 ≡ l2_find plain_hash crowded 6
unfolding free_slot index_1 l2_hash l2_hash_to_index l2_ib_to_offset
l2_add_entry_others_example =
    l2_add_entry_others plain_hash crowded 4 9 0 6 (omega arith) (omega arith) refl (omega arith)

l2_add_entry-Added_example :
    Added plain_hash crowded crowded-IsTable 10 7 (l2_add_entry plain_hash crowded 10 7)
l2_add_entry-Added_example =
    l2_add_entry-Added plain_hash crowded crowded-IsTable 10 7 (omega arith) (omega arith)

l2_del_entry-Deleted_example : Deleted plain_hash crowded 6 (l2_del_entry plain_hash crowded 6)
l2_del_entry-Deleted_example = l2_del_entry-Deleted plain_hash crowded 6 (omega arith) (omega arith)

-- In buckets of four, addresses 2 and 6 are in the first two slots of their bucket.
abbrev ninth : Memory L2Entry
ninth = update (λ _. zero_entry) 9 (entry 6 4)

abbrev wide_slots : Memory L2Entry
wide_slots = update ninth 8 (entry 2 3)

abbrev wide_table : L2Table
wide_table = record {
  allocated = true;
  table = wide_slots;
  size = 4;
  size_power = 2;
  bucket = 4;
  count = 2;
}

wide_slots-IsEntry : (x : ℕ) → IsEntry (wide_slots x)
wide_slots-IsEntry x =
    update_all IsEntry ninth 8 x (entry 2 3)
      (λ _. record { addr_lt = omega arith; gate_lt = omega arith })
      (λ _.
        update_all IsEntry (λ _. zero_entry) 9 x (entry 6 4)
          (λ _. record { addr_lt = omega arith; gate_lt = omega arith })
          (λ _. record { addr_lt = omega arith; gate_lt = omega arith }))

-- Address 6 is in the table, and `l2_find_offset` finds it, but `l2_find` does not.
l2_find_first_slots_example : l2_find plain_hash wide_table 6 ≡ none
unfolding index_1 index_2 l2_hash l2_hash_to_index l2_alt_index l2_ib_to_offset
l2_find_first_slots_example =
    l2_find_first_slots plain_hash wide_table 6 refl (omega arith) wide_slots-IsEntry

-- A processor with AVX
abbrev avx_hash : Cpu
avx_hash = record { crc_8byte = λ addr. addr; avx = true }

-- Address 0 is not in the table, which has the gate 0 where its first bucket would be.
zero_is_found : (l2_find avx_hash wide_table 0 ≡ some 0) × (l2_find plain_hash wide_table 0 ≡ none)
unfolding l2_find find_four find_index find_index_from equals cmp_eq is_nan table_word entry_word
    index_1 index_2 l2_hash l2_hash_to_index l2_alt_index l2_ib_to_offset
zero_is_found = (refl, refl)

six_is_there : l2_find_offset plain_hash wide_table 6 ≡ some 9
unfolding l2_find_offset search index_1 l2_hash l2_hash_to_index l2_ib_to_offset
six_is_there = refl

-- The characters of an address are its bytes here.
abbrev byte_at : List ℕ → Memory ℕ
byte_at [] i = 0
byte_at (b ∷ bs) zero = b % 256
byte_at (b ∷ bs) (suc i) = byte_at bs i

abbrev scan_bytes : List ℕ → ℕ × Memory ℕ
scan_bytes str = (6, byte_at str)

byte_at-lt : (str : List ℕ) (i : ℕ) → byte_at str i < 2 ^ 8
byte_at-lt [] i = omega arith
byte_at-lt (b ∷ bs) zero = omega arith
byte_at-lt (b ∷ bs) (suc i) = byte_at-lt bs i

abbrev four : List ℕ
four = 4 ∷ 0 ∷ 0 ∷ 0 ∷ 0 ∷ 0 ∷ []

command_add-process_batch_example :
    process_batch plain_hash
      (record {
        l2_table =
            (command_add plain_hash scan_bytes crowded
              ([] ++ (record { addr = four; gate = pos 9 } ∷ []))).1;
        default_gate = 0;
      })
      (record { id = 1; head = 4 + 2 ^ 50 } ∷ [])
    ≡ (record { id = 1; head = 4 + 2 ^ 50 }, 9) ∷ []
unfolding command_add l2_addr_to_u64 parse_mac_addr l2_add_entry l2_find find_any l2_find_offset
    search index_1 index_2 l2_hash l2_hash_to_index l2_alt_index l2_ib_to_offset l2_find_slot
    free_slot add_at put_entry
command_add-process_batch_example =
    command_add-process_batch plain_hash scan_bytes 2 [] (record { addr = four; gate = pos 9 })
      crowded 0 (record { id = 1; head = 4 + 2 ^ 50 }) crowded-IsTable (omega arith) byte_at-lt refl
      refl

command_populate_first_example :
    command_populate plain_hash scan_bytes crowded four (pos 1) (pos 2)
    ≡ some (success, (l2_add_entry plain_hash crowded (4 * 2 ^ 16) 0).1)
unfolding l2_addr_to_u64 parse_mac_addr
command_populate_first_example =
    command_populate_first plain_hash scan_bytes crowded four 2 refl refl (omega arith)
