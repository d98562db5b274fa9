-- ===== src/L2Forward/Layout.antt =====
-- core/modules/l2_forward.cc: where buckets stand in the table.
use native.Mathlib.Nat.{one-le-pow, pow-le-pow_right, mod-lt, pow-suc}
use nfv.Base.{subst, ℕ, suc, ◌+◌, ◌-◌, ◌*◌, ◌%◌, ◌^◌, ◌≤◌, ◌<◌, ◌≡◌, bit_xor, arith}
use nfv.Base.Bits.{bit_and-low_mask}
use nfv.Base.Words.{u32, sub32}
use nfv.L2Forward.{
  Cpu, L2Table, l2_ib_to_offset, l2_hash, l2_hash_to_index, l2_alt_index, index_1, index_2,
}

-- A table that `l2_init` has set up, with 2^k entries and at least two.
pub record IsTable (k : ℕ) (t : L2Table) : Type 0 where
  pub more_than_one : 1 ≤ k
  pub in_range : k ≤ 26
  pub size : t.size ≡ 2 ^ k
  pub size_power : t.size_power ≡ k
  pub bucket_pos : 1 ≤ t.bucket
  pub bucket_le : t.bucket ≤ 4

module _ {k : ℕ} {t : L2Table} (v : IsTable k t) where
  pub size_le : t.size ≤ 2 ^ 26
  size_le =
      let e : 2 ^ k ≤ 2 ^ 26 = pow-le-pow_right {n = 2} (omega arith) v.in_range in
      omega (arith, v.size)

  size_pos : 1 ≤ t.size
  size_pos = omega (arith, v.size, one-le-pow k 2 (omega arith))

  -- Offsets do not wrap around.
  pub offset_lem :
      (idx i : ℕ)
      → idx < t.size
      → i < t.bucket
      → (l2_ib_to_offset t idx i ≡ idx * t.bucket + i) × (idx * t.bucket + i < t.size * t.bucket)
  unfolding l2_ib_to_offset
  offset_lem idx i h p =
      let small : t.size * t.bucket ≤ 2 ^ 26 * 4 = product t.size t.bucket size_le v.bucket_le in
      let inside : idx * t.bucket + i < t.size * t.bucket = within idx t.bucket i t.size h p in
      (omega arith, inside)
    where
      product : (a b : ℕ) → a ≤ 2 ^ 26 → b ≤ 4 → a * b ≤ 2 ^ 26 * 4
      product a b p q = grind arith

      within : (a b i c : ℕ) → a < c → i < b → a * b + i < c * b
      within a b i c p q = grind arith

  masked : (hash : ℕ) → l2_hash_to_index hash t.size ≡ hash % 2 ^ k
  unfolding l2_hash_to_index
  masked hash =
      let e : sub32 t.size 1 ≡ 2 ^ k - 1 = omega (arith, v.size, size_le, size_pos) in
      rw e (bit_and-low_mask k hash)

  module _ (cpu : Cpu) (addr : ℕ) where
    -- Both buckets of an address are buckets of the table.
    pub index_1-lt : index_1 cpu t addr < t.size
    unfolding index_1
    index_1-lt =
        let low : l2_hash cpu addr % 2 ^ k < 2 ^ k = mod-lt _ (one-le-pow k 2 (omega arith)) in
        omega (arith, masked (l2_hash cpu addr), v.size, low)

    pub index_2-lt : index_2 cpu t addr < t.size
    unfolding index_2 l2_alt_index
    index_2-lt =
        rw (v.size_power, count, bit_and-low_mask (k - 1))
          (small (bit_xor _ _ % 2 ^ (k - 1)) (mod-lt _ (one-le-pow (k - 1) 2 (omega arith))))
      where
        count : (k + 63) % 64 ≡ k - 1
        count = omega (arith, v.more_than_one, v.in_range)

        halves : 2 ^ k ≡ 2 ^ (k - 1) * 2
        halves =
            subst (λ e. 2 ^ e ≡ 2 ^ (k - 1) * 2) {x = suc (k - 1)} (omega (arith, v.more_than_one))
              (pow-suc 2 (k - 1))

        small : (x : ℕ) → x < 2 ^ (k - 1) → u32 x < t.size
        small x h = omega (arith, halves, v.size, size_le)
