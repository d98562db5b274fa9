-- ===== src/Checksum/Headers/Meaning.antt =====
-- core/utils/checksum.h: what it means that an IPv4 header verifies.
use nfv.Base.{
  ℕ, ◌+◌, ◌-◌, ◌^◌, ◌≤◌, ◌<◌, ◌≡◌, refl, sym, ap, ap₂, ◌∙◌, inl, arith, Bool, true, ltb, Memory, [],
  ◌∷◌, if_split, ◌==◌, ==→eq, eq→==,
}
use nfv.Checksum.{load32, adcl, calculate_sum, fold_checksum}
use nfv.Checksum.Same.{
  IsSame, IsSame-refl, IsSame-eq, IsSame-sym, IsSame-trans, IsSame-add, total, IsBytes, sum16,
  sum16_none, fold_checksum_unique, fold_checksum-IsSame,
}
use nfv.Checksum.Carry.{adcl-IsSame, load32_lt}
use nfv.Checksum.Lanes.{add_word}
use nfv.Checksum.Sum.{calculate_sum-IsSame}
use nfv.Checksum.Headers.{ip_header_len, words5, verify_ipv4_no_opt_checksum, verify_ipv4_checksum}

module _ (avx2 : Bool) (buf : Memory ℕ) (bytes : IsBytes buf) (iph : ℕ) where
  -- Five words of 32 bits, and the bytes behind them
  words5-IsSame :
      (len : ℕ)
      → 20 ≤ len
      → IsSame (total (words5 buf iph) + sum16 buf (iph + 20) (len - 20)) (sum16 buf iph len)
  words5-IsSame len long =
      let whole = sum16 buf iph len in
      let w = λ (off : ℕ). load32 buf (iph + off) in
      let s0 : IsSame (0 + sum16 buf (iph + 0) (len - 0)) whole =
        IsSame-eq
          (ap (λ x. 0 + x) (ap₂ (sum16 buf) (omega arith) (omega arith)) ∙ add_left whole) in
      let s1 = add_word buf iph len 0 0 whole (omega arith) s0 in
      let s2 = add_word buf iph len 4 (0 + w 0) whole (omega arith) s1 in
      let s3 = add_word buf iph len 8 (0 + w 0 + w 4) whole (omega arith) s2 in
      let s4 = add_word buf iph len 12 (0 + w 0 + w 4 + w 8) whole (omega arith) s3 in
      let s5 = add_word buf iph len 16 (0 + w 0 + w 4 + w 8 + w 12) whole (omega arith) s4 in
      IsSame-trans
        (IsSame-eq (
          regroup (load32 buf iph) (w 0) (w 4) (w 8) (w 12) (w 16) (sum16 buf (iph + 20) (len - 20))
            (ap (load32 buf) (omega arith))))
        s5
    where
      add_left : (a : ℕ) → 0 + a ≡ a
      add_left a = omega arith

      regroup :
          (z a b c d e r : ℕ)
          → z ≡ a
          → z + (b + (c + (d + (e + 0)))) + r ≡ 0 + a + b + c + d + e + r
      regroup z a b c d e r same = omega arith

  -- The verification folds a number that is the same as the sum over the header.
  verify-fold :
      20 ≤ ip_header_len buf iph
      → (c : ℕ) × (c < 2 ^ 32)
        × IsSame c (sum16 buf iph (ip_header_len buf iph))
        × (verify_ipv4_checksum avx2 buf iph ≡ (fold_checksum c == 0))
  unfolding verify_ipv4_checksum verify_ipv4_no_opt_checksum
  verify-fold long =
      let len = ip_header_len buf iph in
      let lt = load32_lt buf bytes in
      let few = len_lt in
      if_split
        (λ b. (c : ℕ) × (c < 2 ^ 32) × IsSame c (sum16 buf iph len) × (b ≡ (fold_checksum c == 0)))
        (len == 20)
        (λ e.
          let us =
            load32 buf (iph + 4)
            ∷ load32 buf (iph + 8)
            ∷ load32 buf (iph + 12)
            ∷ load32 buf (iph + 16)
            ∷ [] in
          let (small, same) =
            adcl-IsSame us (load32 buf iph) 0
              (lt (iph + 4), (lt (iph + 8), (lt (iph + 12), (lt (iph + 16), tt))))
              (lt iph, inl refl) in
          let none_left = sum16_none buf (iph + 20) (len - 20) (ground arith) in
          (
            adcl (load32 buf iph) 0 us,
            small,
            IsSame-trans same (
                IsSame-trans (IsSame-eq (tidy (load32 buf iph) (total us) none_left))
                  (words5-IsSame len long)),
            refl,
          ))
        (λ _.
          if_split
            (λ b.
              (c : ℕ) × (c < 2 ^ 32) × IsSame c (sum16 buf iph len) × (b ≡ (fold_checksum c == 0)))
            (ltb len 20) (λ short. absurd (ground arith))
            (λ _.
              let (room, s) =
                calculate_sum-IsSame avx2 buf (iph + 20) (len - 20) bytes (omega arith) in
              let sum = calculate_sum avx2 buf (iph + 20) (len - 20) in
              let (small, same) =
                adcl-IsSame (words5 buf iph) sum 0
                  (lt iph, (lt (iph + 4), (lt (iph + 8), (lt (iph + 12), (lt (iph + 16), tt)))))
                  (room, inl refl) in
              (
                adcl sum 0 (words5 buf iph),
                small,
                IsSame-trans same (
                    IsSame-trans (IsSame-eq (swapped sum (total (words5 buf iph)))) (
                      IsSame-trans (IsSame-add (IsSame-refl (total (words5 buf iph))) s)
                        (words5-IsSame len long))),
                refl,
              )))
    where
      len_lt : ip_header_len buf iph < 2 ^ 8
      len_lt = omega arith

      tidy : (a b : ℕ) {r : ℕ} → r ≡ 0 → a + 0 + b ≡ a + b + r
      tidy a b e = omega arith

      swapped : (a b : ℕ) → a + 0 + b ≡ b + a
      swapped a b = omega arith

  -- A header verifies exactly if the sum over its words is zero in ones' complement, as 65535.
  pub sum-verified :
      20 ≤ ip_header_len buf iph
      → verify_ipv4_checksum avx2 buf iph ≡ true
      → IsSame 65535 (sum16 buf iph (ip_header_len buf iph))
  sum-verified long e =
      let (c, small, same, is) = verify-fold long in
      let (v, most, t, f) = fold_checksum-IsSame c small in
      let zero_fold : fold_checksum c ≡ 0 = ==→eq _ 0 (sym is ∙ e) in
      IsSame-trans (IsSame-eq (omega arith)) (IsSame-trans t same)

  pub verified-sum :
      20 ≤ ip_header_len buf iph
      → IsSame 65535 (sum16 buf iph (ip_header_len buf iph))
      → verify_ipv4_checksum avx2 buf iph ≡ true
  verified-sum long s =
      let (c, small, same, is) = verify-fold long in
      is
      ∙ eq→== _ 0
          (fold_checksum_unique c 65535 small (omega arith) (IsSame-trans s (IsSame-sym same)))
