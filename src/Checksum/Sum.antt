-- ===== src/Checksum/Sum.antt =====
-- core/utils/checksum.h: the loops of `CalculateSum` in turn, and the generic checksum.
use nfv.Base.{
  ℕ, zero, suc, ◌+◌, ◌-◌, ◌*◌, ◌%◌, ◌^◌, ◌≤◌, ◌<◌, ◌≡◌, refl, inl, arith, Bool, leb, ◌==◌, if_split,
  if◌then◌else◌, Memory,
}
use nfv.Base.Words.{u64}
use nfv.Checksum.{
  load16, adcq, loads64, Summing, sum_vectors, sum_quads, sum_shorts, reduce, narrow, calculate_sum,
  calculate_generic_checksum,
}
use nfv.Checksum.Same.{
  IsSame, IsSame-refl, IsSame-eq, IsSame-sym, IsSame-trans, IsSame-add, IsBytes, sum16, sum16-suc,
  sum16_one, sum16_none, ones_sum-IsSame, rfc1071, fold_checksum_unique, words16, ones_sum,
}
use nfv.Checksum.Carry.{adcq-IsSame, load16_lt, loads64-IsSame, loads64-AllBelow}
use nfv.Checksum.Vector.{IsPart, sum_vectors-IsPart}

module _ (buf : Memory ℕ) (bytes : IsBytes buf) (whole : ℕ) where
  -- A loop of `n` additions a round leaves less than a round's bytes.
  sum_quads-IsPart :
      (fuel n : ℕ) (st : Summing)
      → 0 < n
      → st.len ≤ fuel
      → IsPart buf whole st
      → IsPart buf whole (sum_quads fuel n buf st)
        × ((sum_quads fuel n buf st).len < 8 * n)
        × ((sum_quads fuel n buf st).len ≤ st.len)
        × ((sum_quads fuel n buf st).len % 2 ≡ st.len % 2)
  unfolding sum_quads
  sum_quads-IsPart zero n st some enough v = (v, omega arith, omega arith, refl)
  sum_quads-IsPart (suc fuel) n st some enough v =
      if_split
        (λ (s : Summing).
          IsPart buf whole s × (s.len < 8 * n) × (s.len ≤ st.len) × (s.len % 2 ≡ st.len % 2))
        (leb (8 * n) st.len)
        (λ more.
          let room : 8 * n ≤ st.len = ground arith in
          let (few, same) =
            adcq-IsSame (loads64 n buf st.at) st.sum64 0 (loads64-AllBelow buf bytes n st.at)
              (v.few, inl refl) in
          let next : Summing = record {
            sum64 = adcq st.sum64 0 (loads64 n buf st.at);
            at = st.at + 8 * n;
            len = st.len - 8 * n;
          } in
          let part : IsPart buf whole next = record {
            few = few;
            same =
                IsSame-trans
                  (IsSame-add same (IsSame-refl (sum16 buf (st.at + 8 * n) (st.len - 8 * n))))
                  (IsSame-trans (IsSame-eq (omega arith)) (
                    IsSame-trans
                      (IsSame-add (IsSame-refl st.sum64) (loads64-IsSame buf n st.at st.len room))
                      v.same));
          } in
          let (w, a, b, c) = sum_quads-IsPart fuel n next some (omega arith) part in
          (w, a, omega arith, omega arith))
        (λ done. (v, ground arith, omega arith, refl))

  -- The loop over 16-bit words, with room for the rest of them
  sum_shorts-IsPart :
      (fuel : ℕ) (st : Summing)
      → st.len ≤ fuel
      → st.sum64 + 2 ^ 16 * st.len < 2 ^ 63
      → IsPart buf whole st
      → IsPart buf whole (sum_shorts fuel buf st)
        × ((sum_shorts fuel buf st).len ≡ st.len % 2)
        × ((sum_shorts fuel buf st).sum64 < 2 ^ 63)
  unfolding sum_shorts
  sum_shorts-IsPart zero st enough room v = (v, omega arith, omega arith)
  sum_shorts-IsPart (suc fuel) st enough room v =
      if_split (λ (s : Summing). IsPart buf whole s × (s.len ≡ st.len % 2) × (s.sum64 < 2 ^ 63))
        (leb 2 st.len)
        (λ more.
          let two : 2 ≤ st.len = ground arith in
          let next : Summing = record {
            sum64 = u64 (st.sum64 + load16 buf st.at);
            at = st.at + 2;
            len = st.len - 2;
          } in
          let w = load16_lt buf bytes st.at in
          let part : IsPart buf whole next = record {
            few = omega arith;
            same = IsSame-trans (IsSame-eq (omega (arith, sum16-suc buf st.at st.len two))) v.same;
          } in
          let (x, a, b) = sum_shorts-IsPart fuel next (omega arith) (omega arith) part in
          (x, omega arith, b))
        (λ done. (v, ground arith, omega arith))

-- The last byte of an odd number of bytes
finish_odd :
    (buf : Memory ℕ) (s at left odd : ℕ)
    → buf at < 2 ^ 8
    → left ≡ odd
    → left < 2
    → s < 2 ^ 63
    → ((if odd == 1 then u64 (s + buf at) else s) < 2 ^ 64)
      × IsSame (if odd == 1 then u64 (s + buf at) else s) (s + sum16 buf at left)
finish_odd buf s at left odd byte e few small =
    if_split (λ x. (x < 2 ^ 64) × IsSame x (s + sum16 buf at left)) (odd == 1)
      (λ one.
        let o = sum16_one buf at left (ground arith) in (omega arith, IsSame-eq (omega arith)))
      (λ none.
        let z = sum16_none buf at left (ground arith) in (omega arith, IsSame-eq (omega arith)))

reduce-IsSame : (s : ℕ) → s < 2 ^ 64 → (reduce s < 2 ^ 33) × IsSame (reduce s) s
reduce-IsSame s h = (
  omega arith,
  record { residue = omega arith; zero_to = λ z. omega arith; zero_from = λ z. omega arith },
)

narrow-IsSame : (s : ℕ) → s < 2 ^ 64 → (narrow s < 2 ^ 32) × IsSame (narrow s) s
narrow-IsSame s h = (
  omega arith,
  record { residue = omega arith; zero_to = λ z. omega arith; zero_from = λ z. omega arith },
)

-- The sum is the same as that of the 16-bit words.
pub calculate_sum-IsSame :
    (avx2 : Bool) (buf : Memory ℕ) (at len : ℕ)
    → IsBytes buf
    → len < 2 ^ 32
    → (calculate_sum avx2 buf at len < 2 ^ 32)
      × IsSame (calculate_sum avx2 buf at len) (sum16 buf at len)
unfolding calculate_sum
calculate_sum-IsSame avx2 buf at len bytes short =
    let whole = sum16 buf at len in
    let vectors = sum_vectors avx2 buf at len in
    let (v, vl, vp) = sum_vectors-IsPart avx2 buf at len bytes short in
    let eights = sum_quads len 8 buf vectors in
    let (e, el, em, ep) = sum_quads-IsPart buf bytes whole len 8 vectors (omega arith) vl v in
    let quads = sum_quads len 2 buf eights in
    let (q, ql, qm, qp) =
      sum_quads-IsPart buf bytes whole len 2 eights (omega arith) (omega arith) e in
    let (r, rs) = reduce-IsSame quads.sum64 q.few in
    let started : Summing = record quads { sum64 = reduce quads.sum64 } in
    let part : IsPart buf whole started = record {
      few = omega arith;
      same = IsSame-trans (IsSame-add rs (IsSame-refl (sum16 buf quads.at quads.len))) q.same;
    } in
    let shorts = sum_shorts len buf started in
    let (s, sl, ss) =
      sum_shorts-IsPart buf bytes whole len started (omega arith) (omega arith) part in
    let last = if len % 2 == 1 then u64 (shorts.sum64 + buf shorts.at) else shorts.sum64 in
    let (f, fs) =
      finish_odd buf shorts.sum64 shorts.at shorts.len (len % 2) (bytes shorts.at) (omega arith)
        (omega arith) ss in
    let (n, ns) = narrow-IsSame last f in (n, IsSame-trans ns (IsSame-trans fs s.same))

-- For every buffer of bytes shorter than 2^32, of even or odd length and at any address, and with
-- or without the wide registers, CalculateGenericChecksum returns the complement of the sum that
-- RFC 1071 asks for: the 16-bit words, an odd last byte padded with zero, added with the carry
-- brought around.
pub generic-rfc1071 :
    (avx2 : Bool) (buf : Memory ℕ) (at len : ℕ)
    → IsBytes buf
    → len < 2 ^ 32
    → calculate_generic_checksum avx2 buf at len ≡ rfc1071 buf at len
unfolding calculate_generic_checksum
generic-rfc1071 avx2 buf at len bytes short =
    let (few, same) = calculate_sum-IsSame avx2 buf at len bytes short in
    let (r, t) = ones_sum-IsSame buf bytes at len in
    fold_checksum_unique (calculate_sum avx2 buf at len) (ones_sum (words16 buf at len)) few r
      (IsSame-trans t (IsSame-sym same))
