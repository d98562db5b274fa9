-- ===== src/Checksum/Vector.antt =====
-- core/utils/checksum.h: the sum in four registers of four lanes.
use nfv.Base.{
  ℕ, zero, suc, ◌+◌, ◌-◌, ◌*◌, ◌/◌, ◌%◌, ◌^◌, ◌≤◌, ◌<◌, ◌≡◌, refl, ap₂, ◌∙◌, arith, Bool, true,
  false, leb, if_split, if◌then◌else◌, Memory,
}
use nfv.Base.Words.{u64}
use nfv.Checksum.{
  add_epi64, unpackhi, unpacklo, Streams, add_streams, stream_loop, fold_streams, Summing,
  sum_vectors,
}
use nfv.Checksum.Same.{IsSame, IsSame-refl, IsSame-eq, IsSame-trans, IsSame-add, IsBytes, sum16}
use nfv.Checksum.Lanes.{
  sum_of, IsBelow, add_epi64-sum, unpackhi-IsBelow, unpacklo-IsBelow, pair-IsSame,
}

-- A sum under way stands for `whole`: what is added up and what is left make it up.
pub record IsPart (buf : Memory ℕ) (whole : ℕ) (st : Summing) : Type 0 where
  pub few : st.sum64 < 2 ^ 64
  pub same : IsSame (st.sum64 + sum16 buf st.at st.len) whole

-- What stands in the four accumulators and is left of `n` bytes; each lane is at most `b`.
record IsStreaming (buf : Memory ℕ) (whole n b : ℕ) (st : Streams) : Type 0 where
  a_hi : IsBelow b st.sum_a_hi
  a_lo : IsBelow b st.sum_a_lo
  b_hi : IsBelow b st.sum_b_hi
  b_lo : IsBelow b st.sum_b_lo
  same :
      IsSame
        (sum_of st.sum_a_hi
          + sum_of st.sum_a_lo
          + (sum_of st.sum_b_hi + sum_of st.sum_b_lo)
          + sum16 buf st.at st.len)
        whole
  room : b + 2 ^ 32 * (st.len / 64) ≤ 2 ^ 59
  left : st.len ≤ n
  parity : st.len % 2 ≡ n % 2

module _ (buf : Memory ℕ) (bytes : IsBytes buf) (whole n : ℕ) where
  add_streams-IsStreaming :
      (b : ℕ) (st : Streams)
      → 64 ≤ st.len
      → IsStreaming buf whole n b st
      → IsStreaming buf whole n (b + 2 ^ 32) (add_streams buf st)
  unfolding add_streams
  add_streams-IsStreaming b st more v =
      let small : b + 2 ^ 32 < 2 ^ 64 = omega (arith, v.room) in
      let w =
        add_epi64-sum b (2 ^ 32) st.sum_a_hi (unpackhi buf st.at) v.a_hi
          (unpackhi-IsBelow buf bytes st.at) small in
      let x =
        add_epi64-sum b (2 ^ 32) st.sum_a_lo (unpacklo buf st.at) v.a_lo
          (unpacklo-IsBelow buf bytes st.at) small in
      let y =
        add_epi64-sum b (2 ^ 32) st.sum_b_hi (unpackhi buf (st.at + 32)) v.b_hi
          (unpackhi-IsBelow buf bytes (st.at + 32)) small in
      let z =
        add_epi64-sum b (2 ^ 32) st.sum_b_lo (unpacklo buf (st.at + 32)) v.b_lo
          (unpacklo-IsBelow buf bytes (st.at + 32)) small in
      record {
        a_hi = w.0;
        a_lo = x.0;
        b_hi = y.0;
        b_lo = z.0;
        same =
            IsSame-trans
              (IsSame-eq
                (regroup _ _ _ _ _ _ _ _ (sum16 buf (st.at + 64) (st.len - 64)) w.1 x.1 y.1 z.1))
              (IsSame-trans
                (IsSame-add
                  (IsSame-refl (
                    sum_of st.sum_a_hi
                    + sum_of st.sum_a_lo
                    + (sum_of st.sum_b_hi + sum_of st.sum_b_lo)))
                  (pair-IsSame buf st.at st.len more))
                v.same);
        room = omega (arith, v.room);
        left = omega (arith, v.left);
        parity = omega (arith, v.parity);
      }
    where
      regroup :
          (a b c d p q r s t : ℕ) {w x y z : ℕ}
          → w ≡ a + p
          → x ≡ b + q
          → y ≡ c + r
          → z ≡ d + s
          → w + x + (y + z) + t ≡ a + b + (c + d) + (p + q + (r + s) + t)
      regroup a b c d p q r s t e f g h = omega arith

  stream_loop-IsStreaming :
      (fuel b : ℕ) (st : Streams)
      → IsStreaming buf whole n b st
      → (c : ℕ) × IsStreaming buf whole n c (stream_loop fuel buf st)
  unfolding stream_loop
  stream_loop-IsStreaming zero b st v = (b, v)
  stream_loop-IsStreaming (suc fuel) b st v =
      if_split (λ s. (c : ℕ) × IsStreaming buf whole n c s) (leb 64 st.len)
        (λ more.
          stream_loop-IsStreaming fuel (b + 2 ^ 32) (add_streams buf st)
            (add_streams-IsStreaming b st (ground arith) v))
        (λ _. (b, v))

  fold_streams-IsPart :
      (b : ℕ) (st : Streams) → IsStreaming buf whole n b st → IsPart buf whole (fold_streams st)
  unfolding fold_streams
  fold_streams-IsPart b st v =
      let a = add_epi64-sum b b st.sum_a_hi st.sum_a_lo v.a_hi v.a_lo (omega (arith, v.room)) in
      let c = add_epi64-sum b b st.sum_b_hi st.sum_b_lo v.b_hi v.b_lo (omega (arith, v.room)) in
      let d =
        add_epi64-sum (b + b) (b + b) (add_epi64 st.sum_a_hi st.sum_a_lo)
          (add_epi64 st.sum_b_hi st.sum_b_lo) a.0 c.0 (omega (arith, v.room)) in
      let q = d.0 in
      let x = add_epi64 (add_epi64 st.sum_a_hi st.sum_a_lo) (add_epi64 st.sum_b_hi st.sum_b_lo) in
      let e = four_fit x.q0 x.q1 x.q2 x.q3 b (omega (arith, v.room)) q.q0 q.q1 q.q2 q.q3 in
      record {
        few = omega arith;
        same =
            IsSame-trans
              (IsSame-add (IsSame-eq (e ∙ d.1 ∙ ap₂ ◌+◌ a.1 c.1))
                (IsSame-refl (sum16 buf st.at st.len)))
              v.same;
      }
    where
      four_fit :
          (x y z w b : ℕ)
          → b ≤ 2 ^ 59
          → x ≤ b + b + (b + b)
          → y ≤ b + b + (b + b)
          → z ≤ b + b + (b + b)
          → w ≤ b + b + (b + b)
          → u64 (u64 (x + z) + u64 (y + w)) ≡ x + y + z + w
      four_fit x y z w b h i j k l = omega arith

-- The part of the buffer that the registers take, or nothing
pub sum_vectors-IsPart :
    (avx2 : Bool) (buf : Memory ℕ) (at len : ℕ)
    → IsBytes buf
    → len < 2 ^ 32
    → IsPart buf (sum16 buf at len) (sum_vectors avx2 buf at len)
      × ((sum_vectors avx2 buf at len).len ≤ len)
      × ((sum_vectors avx2 buf at len).len % 2 ≡ len % 2)
unfolding sum_vectors fold_streams
sum_vectors-IsPart avx2 buf at len bytes short =
    if_split
      (λ (st : Summing). IsPart buf (sum16 buf at len) st × (st.len ≤ len) × (st.len % 2 ≡ len % 2))
      (if avx2 then leb 128 len else false)
      (λ wide.
        let enough = wide_len avx2 len wide in
        let (b, v) =
          stream_loop-IsStreaming buf bytes (sum16 buf at len) len len (2 ^ 32) _ (begun enough) in
        (fold_streams-IsPart buf bytes (sum16 buf at len) len b _ v, v.left, v.parity))
      (λ _. (record { few = omega arith; same = IsSame-eq (omega arith) }, omega arith, refl))
  where
    wide_len : (avx2 : Bool) (len : ℕ) → (if avx2 then leb 128 len else false) ≡ true → 128 ≤ len
    wide_len true len e = ground arith
    wide_len false len e = ground arith

    begun :
        128 ≤ len
        → IsStreaming buf (sum16 buf at len) len (2 ^ 32) (record {
          sum_a_hi = unpackhi buf at;
          sum_a_lo = unpacklo buf at;
          sum_b_hi = unpackhi buf (at + 32);
          sum_b_lo = unpacklo buf (at + 32);
          at = at + 64;
          len = len - 64;
        })
    begun enough = record {
      a_hi = unpackhi-IsBelow buf bytes at;
      a_lo = unpacklo-IsBelow buf bytes at;
      b_hi = unpackhi-IsBelow buf bytes (at + 32);
      b_lo = unpacklo-IsBelow buf bytes (at + 32);
      same = pair-IsSame buf at len (omega arith);
      room = omega arith;
      left = omega arith;
      parity = omega arith;
    }
