-- ===== src/Checksum/Lanes.antt =====
-- core/utils/checksum.h: four lanes of 64 bits hold sums of 32-bit words.
use nfv.Base.{ℕ, ◌+◌, ◌-◌, ◌^◌, ◌≤◌, ◌<◌, ◌≡◌, ap, ap₂, ◌∙◌, arith, Memory}
use nfv.Base.Words.{u64}
use nfv.Checksum.{load32, Quad, add_epi64, unpackhi, unpacklo}
use nfv.Checksum.Same.{
  IsSame, IsSame-refl, IsSame-eq, IsSame-trans, IsSame-add, IsBytes, sum16, load32-IsSame,
}
use nfv.Checksum.Carry.{load32_lt}

abbrev pub sum_of : Quad → ℕ
sum_of x = x.q0 + x.q1 + x.q2 + x.q3

-- Each lane is at most `b`.
pub record IsBelow (b : ℕ) (x : Quad) : Type 0 where
  pub q0 : x.q0 ≤ b
  pub q1 : x.q1 ≤ b
  pub q2 : x.q2 ≤ b
  pub q3 : x.q3 ≤ b

-- Small lanes add up without wrapping.
pub add_epi64-sum :
    (b c : ℕ) (x y : Quad)
    → IsBelow b x
    → IsBelow c y
    → b + c < 2 ^ 64
    → IsBelow (b + c) (add_epi64 x y) × (sum_of (add_epi64 x y) ≡ sum_of x + sum_of y)
add_epi64-sum b c x y h k small =
    let e0 : u64 (x.q0 + y.q0) ≡ x.q0 + y.q0 = omega (arith, h.q0, k.q0) in
    let e1 : u64 (x.q1 + y.q1) ≡ x.q1 + y.q1 = omega (arith, h.q1, k.q1) in
    let e2 : u64 (x.q2 + y.q2) ≡ x.q2 + y.q2 = omega (arith, h.q2, k.q2) in
    let e3 : u64 (x.q3 + y.q3) ≡ x.q3 + y.q3 = omega (arith, h.q3, k.q3) in
    (
      record {
        q0 = omega (arith, h.q0, k.q0);
        q1 = omega (arith, h.q1, k.q1);
        q2 = omega (arith, h.q2, k.q2);
        q3 = omega (arith, h.q3, k.q3);
      },
      omega arith,
    )

module _ (buf : Memory ℕ) (bytes : IsBytes buf) where
  pub unpackhi-IsBelow : (at : ℕ) → IsBelow (2 ^ 32) (unpackhi buf at)
  unpackhi-IsBelow at = record {
    q0 = omega (arith, load32_lt buf bytes (at + 8));
    q1 = omega (arith, load32_lt buf bytes (at + 12));
    q2 = omega (arith, load32_lt buf bytes (at + 24));
    q3 = omega (arith, load32_lt buf bytes (at + 28));
  }

  pub unpacklo-IsBelow : (at : ℕ) → IsBelow (2 ^ 32) (unpacklo buf at)
  unpacklo-IsBelow at = record {
    q0 = omega (arith, load32_lt buf bytes at);
    q1 = omega (arith, load32_lt buf bytes (at + 4));
    q2 = omega (arith, load32_lt buf bytes (at + 16));
    q3 = omega (arith, load32_lt buf bytes (at + 20));
  }

-- One more 32-bit word of the buffer is added to `sum`.
pub add_word :
    (buf : Memory ℕ) (at len off sum whole : ℕ)
    → off + 4 ≤ len
    → IsSame (sum + sum16 buf (at + off) (len - off)) whole
    → IsSame (sum + load32 buf (at + off) + sum16 buf (at + (off + 4)) (len - (off + 4))) whole
add_word buf at len off sum whole room s =
    let w = load32 buf (at + off) in
    let e : sum16 buf (at + off + 4) (len - off - 4)
        ≡ sum16 buf (at + (off + 4)) (len - (off + 4)) =
      ap₂ (sum16 buf) (omega arith) (omega arith) in
    let next = load32-IsSame buf (at + off) (len - off) (omega arith) in
    IsSame-trans
      (IsSame-eq (
        regroup sum w (sum16 buf (at + (off + 4)) (len - (off + 4)))
          (sum16 buf (at + off + 4) (len - off - 4)) e))
      (IsSame-trans (IsSame-add (IsSame-refl sum) next) s)
  where
    regroup : (a b c d : ℕ) → d ≡ c → a + b + c ≡ a + (b + d)
    regroup a b c d e = omega arith

-- The eight words of 32 bytes
unpack-IsSame :
    (buf : Memory ℕ) (at len : ℕ)
    → 32 ≤ len
    → IsSame
        (sum_of (unpackhi buf at) + sum_of (unpacklo buf at) + sum16 buf (at + 32) (len - 32))
        (sum16 buf at len)
unpack-IsSame buf at len room =
    let w = λ (off : ℕ). load32 buf (at + off) in
    let rest = sum16 buf (at + 32) (len - 32) in
    let s0 : IsSame (0 + sum16 buf (at + 0) (len - 0)) (sum16 buf at len) = IsSame-eq (
      ap (λ x. 0 + x) (ap₂ (sum16 buf) (omega arith) (omega arith))
      ∙ add_left (sum16 buf at len)) in
    let s1 = add_word buf at len 0 0 (sum16 buf at len) (omega arith) s0 in
    let s2 = add_word buf at len 4 (0 + w 0) (sum16 buf at len) (omega arith) s1 in
    let s3 = add_word buf at len 8 (0 + w 0 + w 4) (sum16 buf at len) (omega arith) s2 in
    let s4 = add_word buf at len 12 (0 + w 0 + w 4 + w 8) (sum16 buf at len) (omega arith) s3 in
    let s5 =
      add_word buf at len 16 (0 + w 0 + w 4 + w 8 + w 12) (sum16 buf at len) (omega arith) s4 in
    let s6 =
      add_word buf at len 20 (0 + w 0 + w 4 + w 8 + w 12 + w 16) (sum16 buf at len) (omega arith)
        s5 in
    let s7 =
      add_word buf at len 24 (0 + w 0 + w 4 + w 8 + w 12 + w 16 + w 20) (sum16 buf at len)
        (omega arith) s6 in
    let s8 =
      add_word buf at len 28 (0 + w 0 + w 4 + w 8 + w 12 + w 16 + w 20 + w 24) (sum16 buf at len)
        (omega arith) s7 in
    IsSame-trans
      (IsSame-eq (
        regroup (load32 buf at) (w 0) (w 4) (w 8) (w 12) (w 16) (w 20) (w 24) (w 28) rest
          (ap (load32 buf) (omega arith))))
      s8
  where
    add_left : (a : ℕ) → 0 + a ≡ a
    add_left a = omega arith

    regroup :
        (z a b c d e f g h r : ℕ)
        → z ≡ a
        → c + d + g + h + (z + b + e + f) + r ≡ 0 + a + b + c + d + e + f + g + h + r
    regroup z a b c d e f g h r same = omega arith

-- The words of 64 bytes, in two halves of 32
pub pair-IsSame :
    (buf : Memory ℕ) (at len : ℕ)
    → 64 ≤ len
    → IsSame
        (sum_of (unpackhi buf at)
          + sum_of (unpacklo buf at)
          + (sum_of (unpackhi buf (at + 32)) + sum_of (unpacklo buf (at + 32)))
          + sum16 buf (at + 64) (len - 64))
        (sum16 buf at len)
pair-IsSame buf at len room =
    let e : sum16 buf (at + 32 + 32) (len - 32 - 32) ≡ sum16 buf (at + 64) (len - 64) =
      ap₂ (sum16 buf) (omega arith) (omega arith) in
    let first = sum_of (unpackhi buf at) + sum_of (unpacklo buf at) in
    let second = sum_of (unpackhi buf (at + 32)) + sum_of (unpacklo buf (at + 32)) in
    IsSame-trans (IsSame-eq (regroup first second (sum16 buf (at + 64) (len - 64)) _ e)) (
      IsSame-trans
        (IsSame-add (IsSame-refl first) (unpack-IsSame buf (at + 32) (len - 32) (omega arith)))
        (unpack-IsSame buf at len (omega arith)))
  where
    regroup : (a b c d : ℕ) → d ≡ c → a + b + c ≡ a + (b + d)
    regroup a b c d e = omega arith
