-- ===== src/Checksum/Headers/Verified.antt =====
-- core/utils/checksum.h, core/modules/ip_checksum.cc: an IPv4 header whose checksum field holds what
-- `CalculateIpv4Checksum` returns passes `VerifyIpv4Checksum`.
use nfv.Base.{
  ℕ, ◌+◌, ◌-◌, ◌*◌, ◌%◌, ◌^◌, ◌≤◌, ◌<◌, ◌≡◌, refl, ap, ap₂, ◌∙◌, ◌⊎◌, inl, arith, Bool, true, false,
  Memory, [], ◌∷◌, ◌==◌, if◌then◌else◌, ltb,
}
use nfv.Checksum.{load16, load32, store16, adcl, calculate_sum, fold_checksum}
use nfv.Checksum.Same.{fold_lt, IsSame, IsSame-eq, IsSame-trans, IsSame-add, IsBytes}
use nfv.Checksum.Carry.{load16_lt, load32_lt}
use nfv.Checksum.Sum.{calculate_sum-IsSame}
use nfv.Checksum.Headers.{
  be16, ip_header_len, words5, verify_ipv4_no_opt_checksum, calculate_ipv4_no_opt_checksum,
  verify_ipv4_checksum, calculate_ipv4_checksum, ip_checksum_ipv4, ip_checksum_vlan, ip_checksum,
}
use nfv.Checksum.Headers.Fields.{
  store16-IsBytes, store16_off, load16-store16_off, load32-store16_off, load16-store16,
  calculate_sum-store16, adcl-Completes,
}

-- The checksum adds to the other words.
adds-IsSame :
    (ck a b c d : ℕ) {w x y z : ℕ}
    → w ≡ a
    → x ≡ b
    → y ≡ c
    → z ≡ d
    → (m : ℕ) {t : ℕ} → t ≡ m + 2 ^ 16 * ck
    → IsSame (w + (x + (t + (y + (z + 0))))) (a + (b + (m + (c + (d + 0)))) + ck)
adds-IsSame ck a b c d e f g h m k = record {
  residue = omega arith;
  zero_to = λ z. omega arith;
  zero_from = λ z. omega arith;
}

-- Both ways of computing the checksum, each answered by its way of verifying it.
split_len :
    (b d : Bool) (c0 c1 c2 : ℕ) (one two : ℕ → Bool)
    → d ≡ false
    → one c1 ≡ true
    → two c2 ≡ true
    → (if b
        then one (if b then c1 else if d then c0 else c2)
        else if d
        then false
        else two (if b then c1 else if d then c0 else c2))
      ≡ true
split_len true d c0 c1 c2 one two e f g = f
split_len false false c0 c1 c2 one two e f g = g
split_len false true c0 c1 c2 one two e f g = absurd (ground arith)

module _ (buf : Memory ℕ) (bytes : IsBytes buf) (iph : ℕ) where
  -- The words of the header with the checksum set aside, and with `ck` in its field
  abbrev now : ℕ → Memory ℕ
  now ck = store16 buf (iph + 10) ck

  word : (ck j : ℕ) → (j + 3 < iph + 10) ⊎ (iph + 11 < j) → load32 (now ck) j ≡ load32 buf j
  word ck j away = load32-store16_off buf (iph + 10) ck j (omega arith)

  field :
      (ck : ℕ)
      → ck < 2 ^ 16
      → load32 (now ck) (iph + 8) ≡ load32 buf (iph + 8) % 2 ^ 16 + 2 ^ 16 * ck
  field ck small =
      let low = load16-store16_off buf (iph + 10) ck (iph + 8) (omega arith) in
      let e : load16 (now ck) (iph + 8 + 2) ≡ ck =
        ap (load16 (now ck)) (omega arith) ∙ load16-store16 buf (iph + 10) ck small in
      ap₂ (λ a b. a + 2 ^ 16 * b) low e
      ∙ split (load16 buf (iph + 8)) (load16 buf (iph + 8 + 2)) ck (load16_lt buf bytes (iph + 8))
    where
      split : (a b ck : ℕ) → a < 2 ^ 16 → a + 2 ^ 16 * ck ≡ (a + 2 ^ 16 * b) % 2 ^ 16 + 2 ^ 16 * ck
      split a b ck h = omega arith

  no_opt : verify_ipv4_no_opt_checksum (now (calculate_ipv4_no_opt_checksum buf iph)) iph ≡ true
  unfolding verify_ipv4_no_opt_checksum calculate_ipv4_no_opt_checksum
  no_opt =
      let ck = calculate_ipv4_no_opt_checksum buf iph in
      let small : ck < 2 ^ 16 = fold_lt _ in
      let lt = load32_lt buf bytes in
      let lt' = load32_lt (now ck) (store16-IsBytes buf (iph + 10) ck bytes) in
      adcl-Completes (load32 buf iph) _ (load32 (now ck) iph) _ ck (lt iph)
        (lt (iph + 4), (omega arith, (lt (iph + 12), (lt (iph + 16), tt)))) (lt' iph)
        (lt' (iph + 4), (lt' (iph + 8), (lt' (iph + 12), (lt' (iph + 16), tt))))
        (adds-IsSame ck (load32 buf iph) (load32 buf (iph + 4)) (load32 buf (iph + 12))
          (load32 buf (iph + 16)) (word ck iph (omega arith)) (word ck (iph + 4) (omega arith))
          (word ck (iph + 12) (omega arith)) (word ck (iph + 16) (omega arith))
          (load32 buf (iph + 8) % 2 ^ 16) (field ck small))
        (inl refl)

  with_options :
      (avx2 : Bool) (len : ℕ)
      → len < 2 ^ 32
      → (let ck = fold_checksum (
            adcl (calculate_sum avx2 buf (iph + 20) len) 0 (
              load32 buf iph
              ∷ load32 buf (iph + 4)
              ∷ load32 buf (iph + 8) % 2 ^ 16
              ∷ load32 buf (iph + 12)
              ∷ load32 buf (iph + 16)
              ∷ [])) in
          (fold_checksum (adcl (calculate_sum avx2 (now ck) (iph + 20) len) 0 (words5 (now ck) iph))
            == 0)
          ≡ true)
  with_options avx2 len short =
      let ck = fold_checksum (
        adcl (calculate_sum avx2 buf (iph + 20) len) 0 (
          load32 buf iph
          ∷ load32 buf (iph + 4)
          ∷ load32 buf (iph + 8) % 2 ^ 16
          ∷ load32 buf (iph + 12)
          ∷ load32 buf (iph + 16)
          ∷ [])) in
      let small : ck < 2 ^ 16 = fold_lt _ in
      let bytes' = store16-IsBytes buf (iph + 10) ck bytes in
      let lt = load32_lt buf bytes in
      let lt' = load32_lt (now ck) bytes' in
      let sum = calculate_sum avx2 buf (iph + 20) len in
      let rest =
        adds-IsSame ck (load32 buf iph) (load32 buf (iph + 4)) (load32 buf (iph + 12))
          (load32 buf (iph + 16)) (word ck iph (omega arith)) (word ck (iph + 4) (omega arith))
          (word ck (iph + 12) (omega arith)) (word ck (iph + 16) (omega arith))
          (load32 buf (iph + 8) % 2 ^ 16) (field ck small) in
      adcl-Completes sum _ (calculate_sum avx2 (now ck) (iph + 20) len) _ ck
        (calculate_sum-IsSame avx2 buf (iph + 20) len bytes short).0
        (lt iph, (lt (iph + 4), (omega arith, (lt (iph + 12), (lt (iph + 16), tt)))))
        (calculate_sum-IsSame avx2 (now ck) (iph + 20) len bytes' short).0
        (lt' iph, (lt' (iph + 4), (lt' (iph + 8), (lt' (iph + 12), (lt' (iph + 16), tt)))))
        (IsSame-trans
          (IsSame-add
            (calculate_sum-store16 avx2 buf (iph + 10) ck (iph + 20) len bytes short (omega arith))
            rest)
          (IsSame-eq (add_assoc sum _ ck)))
        (inl refl)
    where
      add_assoc : (a b c : ℕ) → a + (b + c) ≡ a + b + c
      add_assoc a b c = omega arith

  -- A header of at least 20 bytes verifies with the checksum that is calculated for it.
  pub verify-calculate :
      (avx2 : Bool)
      → 20 ≤ ip_header_len buf iph
      → verify_ipv4_checksum avx2 (now (calculate_ipv4_checksum avx2 buf iph)) iph ≡ true
  unfolding verify_ipv4_checksum calculate_ipv4_checksum
  verify-calculate avx2 long =
      let len = ip_header_len buf iph in
      let ck = calculate_ipv4_checksum avx2 buf iph in
      let e : ip_header_len (now ck) iph ≡ len =
        ap (λ b. b % 2 ^ 4 * 4) (store16_off buf (iph + 10) ck iph (inl (omega arith))) in
      ap
        (λ n.
          if n == 20
          then verify_ipv4_no_opt_checksum (now ck) iph
          else if ltb n 20
          then false
          else fold_checksum
              (adcl (calculate_sum avx2 (now ck) (iph + 20) (n - 20)) 0 (words5 (now ck) iph))
            == 0)
        e
      ∙ split_len (len == 20) (ltb len 20) 0 _ _ (λ c. verify_ipv4_no_opt_checksum (now c) iph)
          (λ c.
            fold_checksum
              (adcl (calculate_sum avx2 (now c) (iph + 20) (len - 20)) 0 (words5 (now c) iph))
            == 0)
          (ground arith) no_opt (with_options avx2 (len - 20) (omega arith))

-- Where the IPv4 header of an Ethernet packet stands: behind no, one or two VLAN tags.
pub data IsIpv4At (buf : Memory ℕ) : ℕ → Type 0 where
  plain : be16 buf 12 ≡ 0x0800 → IsIpv4At buf 14
  tagged : be16 buf 12 ≡ 0x8100 → be16 buf 16 ≡ 0x0800 → IsIpv4At buf 18
  double : be16 buf 12 ≡ 0x88a8 → be16 buf 16 ≡ 0x8100 → be16 buf 20 ≡ 0x0800 → IsIpv4At buf 22

ip_checksum-writes :
    (avx2 : Bool) (buf : Memory ℕ) (iph : ℕ)
    → IsIpv4At buf iph
    → ip_checksum avx2 buf ≡ store16 buf (iph + 10) (calculate_ipv4_checksum avx2 buf iph)
unfolding ip_checksum ip_checksum_vlan ip_checksum_ipv4
ip_checksum-writes avx2 buf _ (plain e) = rw (ip_checksum, e) refl
ip_checksum-writes avx2 buf _ (tagged e f) = rw (ip_checksum, e, f) refl
ip_checksum-writes avx2 buf _ (double e f g) = rw (ip_checksum, e, f, g) refl

-- If the bytes of a packet hold an IPv4 header of at least 20 bytes behind an Ethernet header with
-- no, one or two VLAN tags, then VerifyIpv4Checksum accepts the header after IPChecksum, whatever
-- stood in the checksum field and whether or not there are options.
pub verify-ip_checksum :
    (avx2 : Bool) (buf : Memory ℕ) (iph : ℕ)
    → IsBytes buf
    → IsIpv4At buf iph
    → 20 ≤ ip_header_len buf iph
    → verify_ipv4_checksum avx2 (ip_checksum avx2 buf) iph ≡ true
verify-ip_checksum avx2 buf iph bytes at long =
    ap (λ b. verify_ipv4_checksum avx2 b iph) (ip_checksum-writes avx2 buf iph at)
    ∙ verify-calculate buf bytes iph avx2 long
