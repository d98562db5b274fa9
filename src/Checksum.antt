-- ===== src/Checksum.antt =====
-- core/utils/checksum.h: the Internet checksum over bytes in memory, computed with the carries of
-- 64-bit and 32-bit additions on a little-endian machine, and its incremental update.
pub mod Same
pub mod Carry
pub mod Lanes
pub mod Vector
pub mod Sum
pub mod Headers
pub mod Increment
pub mod Ttl
mod Examples
use nfv.Base.{
  ℕ, zero, suc, ◌+◌, ◌-◌, ◌*◌, ◌/◌, ◌%◌, ◌^◌, Bool, true, false, leb, ltb, ◌==◌, if◌then◌else◌,
  Memory, update, List, [], ◌∷◌,
}
use nfv.Base.Words.{u32, u64}

-- The words at an address.
abbrev pub load16 : Memory ℕ → ℕ → ℕ
load16 buf at = buf at + 2 ^ 8 * buf (at + 1)

abbrev pub load32 : Memory ℕ → ℕ → ℕ
load32 buf at = load16 buf at + 2 ^ 16 * load16 buf (at + 2)

abbrev pub load64 : Memory ℕ → ℕ → ℕ
load64 buf at = load32 buf at + 2 ^ 32 * load32 buf (at + 4)

abbrev pub store16 : Memory ℕ → ℕ → ℕ → Memory ℕ
store16 buf at v = update (update buf at (v % 2 ^ 8)) (at + 1) (v / 2 ^ 8 % 2 ^ 8)

-- `addq`, then `adcq` for each further word, then `adcq $0`; `carry` is the flag so far.
pub adcq : ℕ → ℕ → List ℕ → ℕ
adcq sum carry [] = u64 (sum + carry)
adcq sum carry (u ∷ us) = adcq (u64 (sum + u + carry)) ((sum + u + carry) / 2 ^ 64) us

-- The same with `addl` and `adcl`
pub adcl : ℕ → ℕ → List ℕ → ℕ
adcl sum carry [] = u32 (sum + carry)
adcl sum carry (u ∷ us) = adcl (u32 (sum + u + carry)) ((sum + u + carry) / 2 ^ 32) us

-- `n` 64-bit words from an address on
pub loads64 : ℕ → Memory ℕ → ℕ → List ℕ
loads64 zero buf at = []
loads64 (suc n) buf at = load64 buf at ∷ loads64 n buf (at + 8)

-- How far the sum over a buffer has come: `sum64`, the address that is next, the bytes left.
pub record Summing : Type 0 where
  pub sum64 : ℕ
  pub at : ℕ
  pub len : ℕ

-- A register of four 64-bit lanes
pub record Quad : Type 0 where
  pub q0 : ℕ
  pub q1 : ℕ
  pub q2 : ℕ
  pub q3 : ℕ

-- `_mm256_add_epi64`
abbrev pub add_epi64 : Quad → Quad → Quad
add_epi64 x y = record {
  q0 = u64 (x.q0 + y.q0);
  q1 = u64 (x.q1 + y.q1);
  q2 = u64 (x.q2 + y.q2);
  q3 = u64 (x.q3 + y.q3);
}

-- `_mm256_unpackhi_epi32` and `_mm256_unpacklo_epi32` of the 32 bytes at an address, with zeros
abbrev pub unpackhi : Memory ℕ → ℕ → Quad
unpackhi buf at = record {
  q0 = load32 buf (at + 8);
  q1 = load32 buf (at + 12);
  q2 = load32 buf (at + 24);
  q3 = load32 buf (at + 28);
}

abbrev pub unpacklo : Memory ℕ → ℕ → Quad
unpacklo buf at = record {
  q0 = load32 buf at;
  q1 = load32 buf (at + 4);
  q2 = load32 buf (at + 16);
  q3 = load32 buf (at + 20);
}

-- The accumulators of the two streams
pub record Streams : Type 0 where
  pub sum_a_hi : Quad
  pub sum_a_lo : Quad
  pub sum_b_hi : Quad
  pub sum_b_lo : Quad
  pub at : ℕ
  pub len : ℕ

pub add_streams : Memory ℕ → Streams → Streams
add_streams buf st = record {
  sum_a_hi = add_epi64 st.sum_a_hi (unpackhi buf st.at);
  sum_b_hi = add_epi64 st.sum_b_hi (unpackhi buf (st.at + 32));
  sum_a_lo = add_epi64 st.sum_a_lo (unpacklo buf st.at);
  sum_b_lo = add_epi64 st.sum_b_lo (unpacklo buf (st.at + 32));
  at = st.at + 64;
  len = st.len - 64;
}

-- `while (len >= sizeof(__m256i) * 2)`, at most `fuel` rounds
pub stream_loop : ℕ → Memory ℕ → Streams → Streams
stream_loop zero buf st = st
stream_loop (suc fuel) buf st =
    let rest = stream_loop fuel buf (add_streams buf st) in if leb 64 st.len then rest else st

-- The four sums are folded into 128 bits and then into 64.
pub fold_streams : Streams → Summing
fold_streams st =
    let sum256 =
      add_epi64 (add_epi64 st.sum_a_hi st.sum_a_lo) (add_epi64 st.sum_b_hi st.sum_b_lo) in
    record {
      sum64 = u64 (u64 (sum256.q0 + sum256.q2) + u64 (sum256.q1 + sum256.q3));
      at = st.at;
      len = st.len;
    }

-- The part for at least 128 bytes, where the machine has it
pub sum_vectors : Bool → Memory ℕ → ℕ → ℕ → Summing
sum_vectors avx2 buf at len =
    if if avx2 then leb 128 len else false
    then fold_streams (
        stream_loop len buf (record {
          sum_a_hi = unpackhi buf at;
          sum_a_lo = unpacklo buf at;
          sum_b_hi = unpackhi buf (at + 32);
          sum_b_lo = unpacklo buf (at + 32);
          at = at + 64;
          len = len - 64;
        }))
    else record { sum64 = 0; at = at; len = len }

-- `while (len >= sizeof(uint64_t) * n)`, at most `fuel` rounds of `n` additions
pub sum_quads : ℕ → ℕ → Memory ℕ → Summing → Summing
sum_quads zero n buf st = st
sum_quads (suc fuel) n buf st =
    let rest = sum_quads fuel n buf (record {
      sum64 = adcq st.sum64 0 (loads64 n buf st.at);
      at = st.at + 8 * n;
      len = st.len - 8 * n;
    }) in
    if leb (8 * n) st.len then rest else st

-- `while (len >= sizeof(uint16_t))`, at most `fuel` rounds
pub sum_shorts : ℕ → Memory ℕ → Summing → Summing
sum_shorts zero buf st = st
sum_shorts (suc fuel) buf st =
    let rest =
      sum_shorts fuel buf
        (record { sum64 = u64 (st.sum64 + load16 buf st.at); at = st.at + 2; len = st.len - 2 }) in
    if leb 2 st.len then rest else st

-- The upper half of a 64-bit sum is added to the lower one.
abbrev pub reduce : ℕ → ℕ
reduce sum64 = u64 (sum64 / 2 ^ 32 + sum64 % 2 ^ 32)

-- The last two reductions, to 32 bits
abbrev pub narrow : ℕ → ℕ
narrow sum64 = let once = reduce sum64 in u32 (u64 (once + once / 2 ^ 32))

pub calculate_sum : Bool → Memory ℕ → ℕ → ℕ → ℕ
calculate_sum avx2 buf at len =
    let odd = len % 2 in
    let vectors = sum_vectors avx2 buf at len in
    let quads = sum_quads len 2 buf (sum_quads len 8 buf vectors) in
    let shorts = sum_shorts len buf (record quads { sum64 = reduce quads.sum64 }) in
    narrow (if odd == 1 then u64 (shorts.sum64 + buf shorts.at) else shorts.sum64)

pub fold_checksum : ℕ → ℕ
fold_checksum cksum =
    let once = u32 (cksum / 2 ^ 16 + cksum % 2 ^ 16) in
    let twice = u32 (once + once / 2 ^ 16) in 2 ^ 16 - 1 - twice % 2 ^ 16

pub calculate_generic_checksum : Bool → Memory ℕ → ℕ → ℕ → ℕ
calculate_generic_checksum avx2 buf at len = fold_checksum (calculate_sum avx2 buf at len)

pub verify_generic_checksum : Bool → Memory ℕ → ℕ → ℕ → ℕ → Bool
verify_generic_checksum avx2 buf at len cksum = calculate_generic_checksum avx2 buf at len == cksum
