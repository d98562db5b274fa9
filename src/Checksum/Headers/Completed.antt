-- ===== src/Checksum/Headers/Completed.antt =====
-- core/utils/checksum.h: the UDP and TCP checksums complete the sum over header, pseudo header and
-- payload.
use nfv.Base.{
  ℕ, ◌+◌, ◌-◌, ◌*◌, ◌/◌, ◌%◌, ◌^◌, ◌≤◌, ◌<◌, ◌≡◌, refl, ap, ap₂, ◌∙◌, inl, inr, arith, Bool, true,
  Memory, ◌∷◌, ==→eq, ◌==◌, if_split,
}
use nfv.Checksum.{load16, load32, store16, adcl, calculate_sum, fold_checksum}
use nfv.Checksum.Same.{fold_lt, IsSame, IsSame-eq, IsSame-trans, IsSame-add, IsBytes}
use nfv.Checksum.Carry.{load16_lt, load32_lt}
use nfv.Checksum.Sum.{calculate_sum-IsSame}
use nfv.Checksum.Headers.{
  swap16, pseudo, verify_udp_with, calculate_udp_with, verify_tcp_with, calculate_tcp_with,
}
use nfv.Checksum.Headers.Fields.{
  store16-IsBytes, load16-store16_off, load32-store16_off, load16-store16, calculate_sum-store16,
  adcl-Completes, Completes,
}

add_assoc : (a b c : ℕ) → a + (b + c) ≡ a + b + c
add_assoc a b c = omega arith

-- The checksum in the upper half of a UDP header's second word, or the lower half of a TCP header's
-- fifth, adds to the other words.
adds-udp :
    (ck a m c d l p : ℕ) {w t y z : ℕ}
    → w ≡ a
    → t ≡ m + 2 ^ 16 * ck
    → y ≡ c
    → z ≡ d
    → IsSame (w + (t + (y + (z + (l + (p + 0)))))) (a + (m + (c + (d + (l + (p + 0))))) + ck)
adds-udp ck a m c d l p e f g h = record {
  residue = omega arith;
  zero_to = λ z. omega arith;
  zero_from = λ z. omega arith;
}

adds-tcp :
    (ck a b c d m s e l p : ℕ) {a' b' c' d' t s' e' : ℕ}
    → a' ≡ a
    → b' ≡ b
    → c' ≡ c
    → d' ≡ d
    → t ≡ ck + 2 ^ 16 * m
    → s' ≡ s
    → e' ≡ e
    → IsSame
        (a' + (b' + (c' + (d' + (t + (s' + (e' + (l + (p + 0)))))))))
        (a + (b + (c + (d + (m + (s + (e + (l + (p + 0)))))))) + ck)
adds-tcp ck a b c d m s e l p q r u v w x y = record {
  residue = omega arith;
  zero_to = λ z. omega arith;
  zero_from = λ z. omega arith;
}

module _ (avx2 : Bool) (buf : Memory ℕ) (bytes : IsBytes buf) (iph l4 : ℕ)
    (behind : iph + 20 ≤ l4) where
  pub udp_completes :
      (len : ℕ)
      → len < 2 ^ 16
      → verify_udp_with avx2
          (store16 buf (l4 + 6) (calculate_udp_with avx2 buf iph l4 len))
          iph
          l4
          len
        ≡ true
  unfolding verify_udp_with calculate_udp_with
  udp_completes len short =
      let us = load32 buf l4 ∷ load32 buf (l4 + 4) % 2 ^ 16 ∷ pseudo buf iph len 0x1100 in
      let sum = calculate_sum avx2 buf (l4 + 8) (len - 8) in
      let folded = fold_checksum (adcl sum 0 us) in
      let ck = calculate_udp_with avx2 buf iph l4 len in
      let c : Completes folded ck =
        if_split (Completes folded) (folded == 0) (λ z. inr (==→eq folded 0 z, refl))
          (λ _. inl refl) in
      let most : folded < 2 ^ 16 = fold_lt _ in
      let small : ck < 2 ^ 16 = omega (arith, c) in
      let now = store16 buf (l4 + 6) ck in
      let bytes' = store16-IsBytes buf (l4 + 6) ck bytes in
      let lt = load32_lt buf bytes in
      let lt' = load32_lt now bytes' in
      let field : load32 now (l4 + 4) ≡ load32 buf (l4 + 4) % 2 ^ 16 + 2 ^ 16 * ck =
        ap₂ (λ a b. a + 2 ^ 16 * b)
          (load16-store16_off buf (l4 + 6) ck (l4 + 4) (inl (omega arith)))
          (ap (load16 now) (omega arith) ∙ load16-store16 buf (l4 + 6) ck small)
        ∙ split (load16 buf (l4 + 4)) (load16 buf (l4 + 4 + 2)) ck (load16_lt buf bytes (l4 + 4)) in
      if_split (λ b. b ≡ true) (load16 now (l4 + 6) == 0) (λ _. refl)
        (λ _.
          adcl-Completes sum us (calculate_sum avx2 now (l4 + 8) (len - 8)) _ ck
            (calculate_sum-IsSame avx2 buf (l4 + 8) (len - 8) bytes (omega arith)).0
            (
              lt l4,
              (omega arith, (lt (iph + 12), (lt (iph + 16), (omega arith, (omega arith, tt))))),
            )
            (calculate_sum-IsSame avx2 now (l4 + 8) (len - 8) bytes' (omega arith)).0
            (
              lt' l4,
              (lt' (l4 + 4), (lt' (iph + 12), (lt' (iph + 16), (omega arith, (omega arith, tt))))),
            )
            (IsSame-trans
              (IsSame-add
                (calculate_sum-store16 avx2 buf (l4 + 6) ck (l4 + 8) (len - 8) bytes (omega arith)
                  (omega arith))
                (adds-udp ck (load32 buf l4) (load32 buf (l4 + 4) % 2 ^ 16) (load32 buf (iph + 12))
                  (load32 buf (iph + 16)) (swap16 len) 0x1100
                  (load32-store16_off buf (l4 + 6) ck l4 (inl (omega arith))) field
                  (load32-store16_off buf (l4 + 6) ck (iph + 12) (inl (omega arith)))
                  (load32-store16_off buf (l4 + 6) ck (iph + 16) (inl (omega arith)))))
              (IsSame-eq (add_assoc sum _ ck)))
            c)
    where
      split : (a b ck : ℕ) → a < 2 ^ 16 → a + 2 ^ 16 * ck ≡ (a + 2 ^ 16 * b) % 2 ^ 16 + 2 ^ 16 * ck
      split a b ck h = omega arith

  pub tcp_completes :
      (len : ℕ)
      → len < 2 ^ 16
      → verify_tcp_with avx2
          (store16 buf (l4 + 16) (calculate_tcp_with avx2 buf iph l4 len))
          iph
          l4
          len
        ≡ true
  unfolding verify_tcp_with calculate_tcp_with
  tcp_completes len short =
      let sum = calculate_sum avx2 buf (l4 + 20) (len - 20) in
      let ck = calculate_tcp_with avx2 buf iph l4 len in
      let small : ck < 2 ^ 16 = fold_lt _ in
      let now = store16 buf (l4 + 16) ck in
      let bytes' = store16-IsBytes buf (l4 + 16) ck bytes in
      let lt = load32_lt buf bytes in
      let lt' = load32_lt now bytes' in
      let off = load32-store16_off buf (l4 + 16) ck in
      let field : load32 now (l4 + 16) ≡ ck + 2 ^ 16 * (load32 buf (l4 + 16) / 2 ^ 16) =
        ap₂ (λ a b. a + 2 ^ 16 * b) (load16-store16 buf (l4 + 16) ck small)
          (load16-store16_off buf (l4 + 16) ck (l4 + 16 + 2) (inr (omega arith)))
        ∙ split (load16 buf (l4 + 16)) (load16 buf (l4 + 16 + 2)) ck
            (load16_lt buf bytes (l4 + 16)) in
      adcl-Completes sum _ (calculate_sum avx2 now (l4 + 20) (len - 20)) _ ck
        (calculate_sum-IsSame avx2 buf (l4 + 20) (len - 20) bytes (omega arith)).0
        (
          lt l4,
          (
            lt (l4 + 4),
            (
              lt (l4 + 8),
              (
                lt (l4 + 12),
                (
                  omega (arith, lt (l4 + 16)),
                  (lt (iph + 12), (lt (iph + 16), (omega arith, (omega arith, tt)))),
                ),
              ),
            ),
          ),
        )
        (calculate_sum-IsSame avx2 now (l4 + 20) (len - 20) bytes' (omega arith)).0
        (
          lt' l4,
          (
            lt' (l4 + 4),
            (
              lt' (l4 + 8),
              (
                lt' (l4 + 12),
                (
                  lt' (l4 + 16),
                  (lt' (iph + 12), (lt' (iph + 16), (omega arith, (omega arith, tt)))),
                ),
              ),
            ),
          ),
        )
        (IsSame-trans
          (IsSame-add
            (calculate_sum-store16 avx2 buf (l4 + 16) ck (l4 + 20) (len - 20) bytes (omega arith)
              (omega arith))
            (adds-tcp ck (load32 buf l4) (load32 buf (l4 + 4)) (load32 buf (l4 + 8))
              (load32 buf (l4 + 12)) (load32 buf (l4 + 16) / 2 ^ 16) (load32 buf (iph + 12))
              (load32 buf (iph + 16)) (swap16 len) 0x0600 (off l4 (inl (omega arith)))
              (off (l4 + 4) (inl (omega arith))) (off (l4 + 8) (inl (omega arith)))
              (off (l4 + 12) (inl (omega arith))) field (off (iph + 12) (inl (omega arith)))
              (off (iph + 16) (inl (omega arith)))))
          (IsSame-eq (add_assoc sum _ ck)))
        (inl refl)
    where
      split :
          (a b ck : ℕ) → a < 2 ^ 16 → ck + 2 ^ 16 * b ≡ ck + 2 ^ 16 * ((a + 2 ^ 16 * b) / 2 ^ 16)
      split a b ck h = omega arith
