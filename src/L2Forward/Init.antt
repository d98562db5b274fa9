-- ===== src/L2Forward/Init.antt =====
-- core/modules/l2_forward.cc: l2_init.
use nfv.Base.{
  ℕ, zero, suc, ◌+◌, ◌-◌, ◌/◌, ◌^◌, ◌≤◌, ◌≡◌, refl, ap, ◌∙◌, arith, true, ltb, bit_and, lt→ltb,
}
use nfv.Base.Bits.{bit_and-low_mask}
use nfv.Base.Int.{pos}
use nfv.Base.Words.{sub64}
use native.Mathlib.Nat.{one-le-pow, pow-le-pow_right, pow-suc, mod_self}
use nfv.L2Forward.{
  L2Table, l2_init, valid_dimension, is_power_of_2, log2_loop, max_table_size, max_bucket_size,
}
use nfv.L2Forward.Layout.{IsTable}

log2_loop-pow : (k fuel power : ℕ) → k ≤ fuel → log2_loop fuel (2 ^ k) power ≡ power + k
unfolding log2_loop
log2_loop-pow zero zero power h = omega arith
log2_loop-pow zero (suc fuel) power h = omega arith
log2_loop-pow (suc k) zero power h = absurd (omega arith)
log2_loop-pow (suc k) (suc fuel) power h =
    let half : 2 ^ suc k / 2 ≡ 2 ^ k = omega (arith, pow-suc 2 k) in
    let more : ltb 1 (2 ^ suc k) ≡ true =
      lt→ltb 1 (2 ^ suc k) (omega (arith, pow-suc 2 k, one-le-pow k 2 (omega arith))) in
    rw (more, half, log2_loop-pow k fuel (power + 1) (omega arith)) (omega arith)

le-pow : (k : ℕ) → k ≤ 2 ^ k
le-pow zero = omega arith
le-pow (suc k) = omega (arith, le-pow k, pow-suc 2 k, one-le-pow k 2 (omega arith))

valid_dimension-pow :
    (k n limit : ℕ) → k ≤ 26 → n ≡ 2 ^ k → n ≤ limit → valid_dimension (pos n) limit ≡ true
unfolding valid_dimension is_power_of_2
valid_dimension-pow k n limit small e h =
    let low : n ≤ 2 ^ 26 = omega (arith, e, pow-le-pow_right {n = 2} (omega arith) small) in
    let high : 1 ≤ n = omega (arith, e, one-le-pow k 2 (omega arith)) in
    let pred : sub64 n 1 ≡ 2 ^ k - 1 = omega arith in
    let mask : bit_and n (2 ^ k - 1) ≡ 0 =
      ap (λ x. bit_and x (2 ^ k - 1)) e ∙ bit_and-low_mask k (2 ^ k) ∙ mod_self (2 ^ k) in
    rw (pred, mask) (ground arith)

-- l2_init with 2^k entries, k from 1 to 26, and buckets of 1, 2 or 4 slots returns 0 and sets up a
-- well-formed table, if the allocation succeeds.
pub l2_init-IsTable :
    (k b : ℕ) (t : L2Table)
    → 1 ≤ k
    → k ≤ 26
    → b ≤ 2
    → ((l2_init true (pos (2 ^ k)) (pos (2 ^ b)) t).0 ≡ pos 0)
      × IsTable k (l2_init true (pos (2 ^ k)) (pos (2 ^ b)) t).1
unfolding l2_init
l2_init-IsTable k b t more small narrow =
    let wide : 2 ^ b ≤ 4 = omega (arith, pow-le-pow_right {n = 2} (omega arith) narrow) in
    let size =
      valid_dimension-pow k (2 ^ k) max_table_size small refl
        (omega (arith, pow-le-pow_right {n = 2} (omega arith) small)) in
    let bucket = valid_dimension-pow b (2 ^ b) max_bucket_size (omega arith) refl wide in
    rw (size, bucket)
      (
        refl,
        record {
          more_than_one = more;
          in_range = small;
          size = refl;
          size_power = log2_loop-pow k (2 ^ k) 0 (le-pow k) ∙ omega arith;
          bucket_pos = one-le-pow b 2 (omega arith);
          bucket_le = wide;
        },
      )
