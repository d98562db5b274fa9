-- ===== src/Checksum/Same.antt =====
-- core/utils/checksum.h: sums that stand for the same ones' complement number, the 16-bit words of
-- a buffer, and the checksum of RFC 1071 over them.
use nfv.Base.{
  ℕ, zero, suc, ◌+◌, ◌-◌, ◌*◌, ◌/◌, ◌%◌, ◌^◌, ◌≤◌, ◌<◌, ◌≡◌, refl, sym, ap, ap₂, subst, ◌∙◌, arith,
  ltb, if◌then◌else◌, Memory, List, [], ◌∷◌,
}
use nfv.Base.Words.{u32}
use nfv.Checksum.{load16, load32, load64, fold_checksum}

-- The same residue modulo 65535, and zero only together: zero has two forms, 0 and 65535.
pub record IsSame (a b : ℕ) : Type 0 where
  pub residue : a % 65535 ≡ b % 65535
  pub zero_to : a ≡ 0 → b ≡ 0
  pub zero_from : b ≡ 0 → a ≡ 0

pub IsSame-refl : (a : ℕ) → IsSame a a
IsSame-refl a = record { residue = refl; zero_to = λ z. z; zero_from = λ z. z }

pub IsSame-eq : {a b : ℕ} → a ≡ b → IsSame a b
IsSame-eq {a} e = subst (IsSame a) e (IsSame-refl a)

pub IsSame-sym : {a b : ℕ} → IsSame a b → IsSame b a
IsSame-sym s = record { residue = sym s.residue; zero_to = s.zero_from; zero_from = s.zero_to }

pub IsSame-trans : {a b c : ℕ} → IsSame a b → IsSame b c → IsSame a c
IsSame-trans s t = record {
  residue = s.residue ∙ t.residue;
  zero_to = λ z. t.zero_to (s.zero_to z);
  zero_from = λ z. s.zero_from (t.zero_from z);
}

pub IsSame-add : {a b c d : ℕ} → IsSame a b → IsSame c d → IsSame (a + c) (b + d)
IsSame-add s t = record {
  residue = omega (arith, s.residue, t.residue);
  zero_to = λ z. grind (arith, s.zero_to, t.zero_to);
  zero_from = λ z. grind (arith, s.zero_from, t.zero_from);
}

-- A carry out of 16, 32 or 64 bits comes back at the bottom.
pub IsSame-carry16 : (a : ℕ) → IsSame (a % 2 ^ 16 + a / 2 ^ 16) a
IsSame-carry16 a = record {
  residue = omega arith;
  zero_to = λ z. omega arith;
  zero_from = λ z. omega arith;
}

pub IsSame-carry32 : (a : ℕ) → IsSame (a % 2 ^ 32 + a / 2 ^ 32) a
IsSame-carry32 a = record {
  residue = omega arith;
  zero_to = λ z. omega arith;
  zero_from = λ z. omega arith;
}

pub IsSame-carry64 : (a : ℕ) → IsSame (a % 2 ^ 64 + a / 2 ^ 64) a
IsSame-carry64 a = record {
  residue = omega arith;
  zero_to = λ z. omega arith;
  zero_from = λ z. omega arith;
}

-- Two 16-bit numbers that are the same are equal.
pub IsSame-unique : {a b : ℕ} → IsSame a b → a ≤ 65535 → b ≤ 65535 → a ≡ b
IsSame-unique s h k = grind (arith, s.residue, s.zero_to, s.zero_from)

-- The 16-bit words of a buffer, an odd last byte padded with zero
pub words16 : Memory ℕ → ℕ → ℕ → List ℕ
words16 buf at zero = []
words16 buf at (suc zero) = buf at ∷ []
words16 buf at (suc (suc len)) = load16 buf at ∷ words16 buf (at + 2) len

abbrev pub total : List ℕ → ℕ
total [] = 0
total (x ∷ xs) = x + total xs

-- Addition of 16-bit numbers with the carry around
abbrev pub ones_add : ℕ → ℕ → ℕ
ones_add a b = if ltb (a + b) (2 ^ 16) then a + b else a + b - 65535

abbrev pub ones_sum : List ℕ → ℕ
ones_sum [] = 0
ones_sum (x ∷ xs) = ones_add x (ones_sum xs)

-- The checksum of RFC 1071
abbrev pub rfc1071 : Memory ℕ → ℕ → ℕ → ℕ
rfc1071 buf at len = 65535 - ones_sum (words16 buf at len)

abbrev pub IsBytes : Memory ℕ → Type 0
IsBytes buf = (i : ℕ) → buf i < 2 ^ 8

-- What a fold returns: the complement of a 16-bit number that is the same as the sum.
pub fold_checksum-IsSame :
    (c : ℕ) → c < 2 ^ 32 → (v : ℕ) × (v ≤ 65535) × IsSame v c × (fold_checksum c ≡ 65535 - v)
unfolding fold_checksum
fold_checksum-IsSame c small =
    let once = u32 (c / 2 ^ 16 + c % 2 ^ 16) in
    let v = u32 (once + once / 2 ^ 16) % 2 ^ 16 in
    (
      v,
      omega arith,
      record { residue = omega arith; zero_to = λ z. omega arith; zero_from = λ z. omega arith },
      refl,
    )

-- So a fold is the complement of any 16-bit number that is the same as the sum.
pub fold_checksum_unique :
    (c v : ℕ) → c < 2 ^ 32 → v ≤ 65535 → IsSame v c → fold_checksum c ≡ 65535 - v
fold_checksum_unique c v small few same =
    let (w, few_w, same_w, e) = fold_checksum-IsSame c small in
    e ∙ ap (λ x. 65535 - x) (IsSame-unique (IsSame-trans same_w (IsSame-sym same)) few_w few)

abbrev pub sum16 : Memory ℕ → ℕ → ℕ → ℕ
sum16 buf at len = total (words16 buf at len)

sum16_last : (buf : Memory ℕ) (at : ℕ) → sum16 buf at 1 ≡ buf at
unfolding words16
sum16_last buf at = omega arith

sum16_empty : (buf : Memory ℕ) (at : ℕ) → sum16 buf at 0 ≡ 0
unfolding words16
sum16_empty buf at = refl

pub sum16-suc :
    (buf : Memory ℕ) (at len : ℕ)
    → 2 ≤ len
    → sum16 buf at len ≡ load16 buf at + sum16 buf (at + 2) (len - 2)
unfolding words16
sum16-suc buf at zero h = absurd (omega arith)
sum16-suc buf at (suc zero) h = absurd (omega arith)
sum16-suc buf at (suc (suc len)) h =
    ap (λ n. load16 buf at + sum16 buf (at + 2) n) {x = len} {y = suc (suc len) - 2} (omega arith)

pub sum16_one : (buf : Memory ℕ) (at len : ℕ) → len ≡ 1 → sum16 buf at len ≡ buf at
sum16_one buf at len e = ap (sum16 buf at) e ∙ sum16_last buf at

pub sum16_none : (buf : Memory ℕ) (at len : ℕ) → len ≡ 0 → sum16 buf at len ≡ 0
sum16_none buf at len e = ap (sum16 buf at) e ∙ sum16_empty buf at

pub load32-IsSame :
    (buf : Memory ℕ) (at len : ℕ)
    → 4 ≤ len
    → IsSame (load32 buf at + sum16 buf (at + 4) (len - 4)) (sum16 buf at len)
load32-IsSame buf at len h =
    let a = sum16-suc buf at len (omega arith) in
    let b = sum16-suc buf (at + 2) (len - 2) (omega arith) in
    let c : sum16 buf (at + 2 + 2) (len - 2 - 2) ≡ sum16 buf (at + 4) (len - 4) =
      ap₂ (sum16 buf) (omega arith) (omega arith) in
    let rest = sum16 buf (at + 4) (len - 4) in
    let low = load16 buf at in
    let high = load16 buf (at + 2) in
    record { residue = omega arith; zero_to = λ z. omega arith; zero_from = λ z. omega arith }

pub load64-IsSame :
    (buf : Memory ℕ) (at len : ℕ)
    → 8 ≤ len
    → IsSame (load64 buf at + sum16 buf (at + 8) (len - 8)) (sum16 buf at len)
load64-IsSame buf at len h =
    let a = load32-IsSame buf at len (omega arith) in
    let b = load32-IsSame buf (at + 4) (len - 4) (omega arith) in
    let c : sum16 buf (at + 4 + 4) (len - 4 - 4) ≡ sum16 buf (at + 8) (len - 8) =
      ap₂ (sum16 buf) (omega arith) (omega arith) in
    let rest = sum16 buf (at + 8) (len - 8) in
    let low = load32 buf at in
    let high = load32 buf (at + 4) in
    let d : IsSame (low + 2 ^ 32 * high + rest)
        (low + (high + sum16 buf (at + 4 + 4) (len - 4 - 4))) =
      record { residue = omega arith; zero_to = λ z. omega arith; zero_from = λ z. omega arith } in
    IsSame-trans d (IsSame-trans (IsSame-add (IsSame-refl low) b) a)

pub ones_add-IsSame :
    (a b : ℕ) → a ≤ 65535 → b ≤ 65535 → (ones_add a b ≤ 65535) × IsSame (ones_add a b) (a + b)
ones_add-IsSame a b h k = (
  ground arith,
  record { residue = ground arith; zero_to = λ z. ground arith; zero_from = λ z. ground arith },
)

-- The reference sum is a 16-bit number, and the same as the plain sum.
pub ones_sum-IsSame :
    (buf : Memory ℕ)
    → IsBytes buf
    → (at len : ℕ)
    → (ones_sum (words16 buf at len) ≤ 65535)
      × IsSame (ones_sum (words16 buf at len)) (sum16 buf at len)
unfolding words16
ones_sum-IsSame buf bytes at zero = (omega arith, IsSame-refl 0)
ones_sum-IsSame buf bytes at (suc zero) =
    let h = bytes at in ones_add-IsSame (buf at) 0 (omega arith) (omega arith)
ones_sum-IsSame buf bytes at (suc (suc len)) =
    let (few, same) = ones_sum-IsSame buf bytes (at + 2) len in
    let h = bytes at in
    let k = bytes (at + 1) in
    let (now, sum) =
      ones_add-IsSame (load16 buf at) (ones_sum (words16 buf (at + 2) len)) (omega arith) few in
    (now, IsSame-trans sum (IsSame-add (IsSame-refl (load16 buf at)) same))

-- The sum over bytes that agree is one sum.
pub sum16_congr :
    (b c : Memory ℕ) (at len : ℕ)
    → ((j : ℕ) → at ≤ j → j < at + len → b j ≡ c j)
    → sum16 b at len ≡ sum16 c at len
unfolding words16
sum16_congr b c at zero agree = refl
sum16_congr b c at (suc zero) agree = ap (λ x. x + 0) (agree at (omega arith) (omega arith))
sum16_congr b c at (suc (suc len)) agree =
    let low = agree at (omega arith) (omega arith) in
    let high = agree (at + 1) (omega arith) (omega arith) in
    ap₂ ◌+◌ (ap₂ (λ x y. x + 2 ^ 8 * y) low high)
      (sum16_congr b c (at + 2) len (λ j l h. agree j (omega arith) (omega arith)))

-- `fold_checksum` is a 16-bit number.
pub fold_lt : (c : ℕ) → fold_checksum c < 2 ^ 16
unfolding fold_checksum
fold_lt c = omega arith
