-- ===== src/Checksum/Carry.antt =====
-- core/utils/checksum.h: chains of additions with carry lose nothing.
use nfv.Base.{
  ℕ, zero, suc, ◌+◌, ◌-◌, ◌*◌, ◌/◌, ◌^◌, ◌≤◌, ◌<◌, ◌≡◌, ap₂, ◌⊎◌, arith, Memory, List, [], ◌∷◌,
}
use nfv.Base.Words.{u32, u64}
use nfv.Checksum.{load16, load32, load64, adcq, adcl, loads64}
use nfv.Checksum.Same.{
  IsSame, IsSame-refl, IsSame-eq, IsSame-trans, IsSame-add, IsBytes, total, sum16, load64-IsSame,
  IsSame-carry32, IsSame-carry64,
}

abbrev pub AllBelow : ℕ → List ℕ → Type 0
AllBelow b [] = Unit
AllBelow b (x ∷ xs) = (x < b) × AllBelow b xs

-- The carry flag, and that the sum is not full when it is set: so the last carry finds room.
abbrev pub HasRoom : ℕ → ℕ → ℕ → Type 0
HasRoom b sum carry = (sum < b) × ((carry ≡ 0) ⊎ ((carry ≡ 1) × (sum + 1 < b)))

pub adcq-IsSame :
    (us : List ℕ) (sum carry : ℕ)
    → AllBelow (2 ^ 64) us
    → HasRoom (2 ^ 64) sum carry
    → (adcq sum carry us < 2 ^ 64) × IsSame (adcq sum carry us) (sum + carry + total us)
unfolding adcq
adcq-IsSame [] sum carry all room = (omega arith, IsSame-eq (omega arith))
adcq-IsSame (u ∷ us) sum carry (lt, all) room =
    let s = sum + u + carry in
    let (few, same) = adcq-IsSame us (u64 s) (s / 2 ^ 64) all (omega arith, omega arith) in
    (
      few,
      IsSame-trans same (
          IsSame-trans (IsSame-add (IsSame-carry64 s) (IsSame-refl (total us)))
            (IsSame-eq (omega arith))),
    )

pub adcl-IsSame :
    (us : List ℕ) (sum carry : ℕ)
    → AllBelow (2 ^ 32) us
    → HasRoom (2 ^ 32) sum carry
    → (adcl sum carry us < 2 ^ 32) × IsSame (adcl sum carry us) (sum + carry + total us)
unfolding adcl
adcl-IsSame [] sum carry all room = (omega arith, IsSame-eq (omega arith))
adcl-IsSame (u ∷ us) sum carry (lt, all) room =
    let s = sum + u + carry in
    let (few, same) = adcl-IsSame us (u32 s) (s / 2 ^ 32) all (omega arith, omega arith) in
    (
      few,
      IsSame-trans same (
          IsSame-trans (IsSame-add (IsSame-carry32 s) (IsSame-refl (total us)))
            (IsSame-eq (omega arith))),
    )

module _ (buf : Memory ℕ) (bytes : IsBytes buf) where
  pub load16_lt : (at : ℕ) → load16 buf at < 2 ^ 16
  load16_lt at = omega (arith, bytes at, bytes (at + 1))

  pub load32_lt : (at : ℕ) → load32 buf at < 2 ^ 32
  load32_lt at = omega (arith, load16_lt at, load16_lt (at + 2))

  load64_lt : (at : ℕ) → load64 buf at < 2 ^ 64
  load64_lt at = omega (arith, load32_lt at, load32_lt (at + 4))

  pub loads64-AllBelow : (n at : ℕ) → AllBelow (2 ^ 64) (loads64 n buf at)
  unfolding loads64
  loads64-AllBelow zero at = tt
  loads64-AllBelow (suc n) at = (load64_lt at, loads64-AllBelow n (at + 8))

-- `n` words of 64 bits stand for the bytes that they are loaded from.
pub loads64-IsSame :
    (buf : Memory ℕ) (n at len : ℕ)
    → 8 * n ≤ len
    → IsSame (total (loads64 n buf at) + sum16 buf (at + 8 * n) (len - 8 * n)) (sum16 buf at len)
unfolding loads64
loads64-IsSame buf zero at len h =
    let e : sum16 buf (at + 8 * 0) (len - 8 * 0) ≡ sum16 buf at len =
      ap₂ (sum16 buf) (omega arith) (omega arith) in
    IsSame-eq (omega arith)
loads64-IsSame buf (suc n) at len h =
    let rest = loads64-IsSame buf n (at + 8) (len - 8) (omega arith) in
    let e : sum16 buf (at + 8 + 8 * n) (len - 8 - 8 * n)
        ≡ sum16 buf (at + 8 * suc n) (len - 8 * suc n) =
      ap₂ (sum16 buf) (omega arith) (omega arith) in
    IsSame-trans (IsSame-eq (omega arith)) (
      IsSame-trans (IsSame-add (IsSame-refl (load64 buf at)) rest)
        (load64-IsSame buf at len (omega arith)))
