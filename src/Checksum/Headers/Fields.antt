-- ===== src/Checksum/Headers/Fields.antt =====
-- core/utils/checksum.h: what a 16-bit store leaves in place, and that a checksum that is stored in
-- its field completes the sum.
use nfv.Base.{
  ℕ, ◌+◌, ◌-◌, ◌*◌, ◌/◌, ◌%◌, ◌^◌, ◌≤◌, ◌<◌, ◌≡◌, refl, ap₂, ◌∙◌, ◌⊎◌, inl, inr, arith, Bool, true,
  Memory, update, update_at, update_off, update_all, List, eq→==, ◌==◌,
}
use nfv.Checksum.{load16, load32, store16, adcl, calculate_sum, fold_checksum}
use nfv.Checksum.Same.{
  IsSame, IsSame-eq, IsSame-sym, IsSame-trans, IsBytes, sum16_congr, total, fold_checksum-IsSame,
  fold_checksum_unique,
}
use nfv.Checksum.Carry.{AllBelow, adcl-IsSame}
use nfv.Checksum.Sum.{calculate_sum-IsSame}

module _ (buf : Memory ℕ) (p v : ℕ) where
  pub store16-IsBytes : IsBytes buf → IsBytes (store16 buf p v)
  store16-IsBytes bytes =
      update_all (update buf p (v % 2 ^ 8)) (p + 1) (v / 2 ^ 8 % 2 ^ 8) (λ x. x < 2 ^ 8)
        (omega arith)
        (λ j _. update_all buf p (v % 2 ^ 8) (λ x. x < 2 ^ 8) (omega arith) (λ k _. bytes k) j)

  -- Bytes outside the field
  pub store16_off : (j : ℕ) → (j < p) ⊎ (p + 1 < j) → store16 buf p v j ≡ buf j
  store16_off j away =
      update_off (update buf p (v % 2 ^ 8)) (p + 1) (v / 2 ^ 8 % 2 ^ 8) j (omega arith)
      ∙ update_off buf p (v % 2 ^ 8) j (omega arith)

  pub load16-store16_off :
      (j : ℕ) → (j + 1 < p) ⊎ (p + 1 < j) → load16 (store16 buf p v) j ≡ load16 buf j
  load16-store16_off j away =
      ap₂ (λ a b. a + 2 ^ 8 * b) (store16_off j (omega arith)) (store16_off (j + 1) (omega arith))

  pub load32-store16_off :
      (j : ℕ) → (j + 3 < p) ⊎ (p + 1 < j) → load32 (store16 buf p v) j ≡ load32 buf j
  load32-store16_off j away =
      ap₂ (λ a b. a + 2 ^ 16 * b) (load16-store16_off j (omega arith))
        (load16-store16_off (j + 2) (omega arith))

  -- The field itself
  pub load16-store16 : v < 2 ^ 16 → load16 (store16 buf p v) p ≡ v
  load16-store16 small =
      let low =
        update_off (update buf p (v % 2 ^ 8)) (p + 1) (v / 2 ^ 8 % 2 ^ 8) p (omega arith)
        ∙ update_at buf p (v % 2 ^ 8) in
      let high = update_at (update buf p (v % 2 ^ 8)) (p + 1) (v / 2 ^ 8 % 2 ^ 8) in
      ap₂ (λ a b. a + 2 ^ 8 * b) low high ∙ halves v small
    where
      halves : (v : ℕ) → v < 2 ^ 16 → v % 2 ^ 8 + 2 ^ 8 * (v / 2 ^ 8 % 2 ^ 8) ≡ v
      halves v small = omega arith

-- The sum over bytes behind the field
pub calculate_sum-store16 :
    (avx2 : Bool) (buf : Memory ℕ) (p v at len : ℕ)
    → IsBytes buf
    → len < 2 ^ 32
    → p + 1 < at
    → IsSame (calculate_sum avx2 (store16 buf p v) at len) (calculate_sum avx2 buf at len)
calculate_sum-store16 avx2 buf p v at len bytes short behind =
    let (_, s) =
      calculate_sum-IsSame avx2 (store16 buf p v) at len (store16-IsBytes buf p v bytes) short in
    let (_, t) = calculate_sum-IsSame avx2 buf at len bytes short in
    IsSame-trans s (
      IsSame-trans
        (IsSame-eq
          (sum16_congr _ _ at len (λ j low high. store16_off buf p v j (inr (omega arith)))))
        (IsSame-sym t))

-- What a header's field may get: the fold of the other words, or 0xffff in place of 0.
abbrev pub Completes : ℕ → ℕ → Type 0
Completes folded cksum = (cksum ≡ folded) ⊎ ((folded ≡ 0) × (cksum ≡ 0xffff))

-- With the checksum among the words the fold is zero.
pub adcl-Completes :
    (sum : ℕ) (us : List ℕ) (sum' : ℕ) (us' : List ℕ) (cksum : ℕ)
    → sum < 2 ^ 32
    → AllBelow (2 ^ 32) us
    → sum' < 2 ^ 32
    → AllBelow (2 ^ 32) us'
    → IsSame (sum' + total us') (sum + total us + cksum)
    → Completes (fold_checksum (adcl sum 0 us)) cksum
    → (fold_checksum (adcl sum' 0 us') == 0) ≡ true
adcl-Completes sum us sum' us' cksum h all h' all' same c =
    let (few, s) = adcl-IsSame us sum 0 all (h, inl refl) in
    let (few', s') = adcl-IsSame us' sum' 0 all' (h', inl refl) in
    let (v, most, w, e) = fold_checksum-IsSame (adcl sum 0 us) few in
    let t : IsSame v (sum + total us) = IsSame-trans w (IsSame-trans s (IsSame-eq (omega arith))) in
    let whole : IsSame 65535 (adcl sum' 0 us') =
      IsSame-trans (completed v (sum + total us) cksum most t (omega arith))
        (IsSame-trans (IsSame-sym same) (IsSame-trans (IsSame-eq (omega arith)) (IsSame-sym s'))) in
    eq→== _ 0 (fold_checksum_unique (adcl sum' 0 us') 65535 few' (omega arith) whole)
  where
    completed :
        (v s cksum : ℕ)
        → v ≤ 65535
        → IsSame v s
        → (cksum ≡ 65535 - v) ⊎ ((65535 - v ≡ 0) × (cksum ≡ 0xffff))
        → IsSame 65535 (s + cksum)
    completed v s cksum most t c = record {
      residue = omega (arith, t.residue);
      zero_to = λ z. omega arith;
      zero_from = λ z. grind (arith, t.zero_from);
    }
