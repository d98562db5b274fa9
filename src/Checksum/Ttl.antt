-- ===== src/Checksum/Ttl.antt =====
-- core/modules/update_ttl.cc: the time to live of an IPv4 packet goes down by one.
use nfv.Base.{
  ℕ, ◌+◌, ◌-◌, ◌*◌, ◌/◌, ◌%◌, ◌^◌, ◌≤◌, ◌<◌, ◌≡◌, ◌≢◌, sym, ap, ap₂, ◌∙◌, arith, Bool, true, ltb,
  ltb→lt, Memory, update, update_off, update_all, Option, none, some, if◌then◌else◌, if_split,
}
use nfv.Base.Words.{u32}
use nfv.Checksum.{load16, store16}
use nfv.Checksum.Same.{
  IsSame, IsSame-eq, IsSame-trans, IsBytes, sum16, sum16-suc, sum16_congr, fold_checksum-IsSame,
}
use nfv.Checksum.Carry.{load16_lt}
use nfv.Checksum.Headers.{ip_header_len, verify_ipv4_checksum}
use nfv.Checksum.Headers.Fields.{store16-IsBytes, store16_off}
use nfv.Checksum.Headers.Meaning.{sum-verified, verified-sum}
use nfv.Checksum.Increment.{
  not16, checksum_increment16, update_checksum_with_increment, update_checksum16,
}

-- `UpdateTTL::ProcessBatch` on the packet whose bytes are `buf` from 0 on, or nothing if it drops
-- the packet: the time to live is byte 22, the checksum stands at 24.
pub update_ttl : Memory ℕ → Option (Memory ℕ)
update_ttl buf =
    if ltb 1 (buf 22)
    then (let updated = store16 buf 24 (update_checksum16 (load16 buf 24) 2 1) in
        some (update updated 22 (buf 22 - 1)))
    else none

-- The sum over a header, with the words of the time to live and the checksum in the open
sum16-six :
    (b : Memory ℕ) (len : ℕ)
    → 20 ≤ len
    → sum16 b 14 len
      ≡ load16 b 14
        + (load16 b 16
            + (load16 b 18 + (load16 b 20 + (load16 b 22 + (load16 b 24 + sum16 b 26 (len - 12))))))
sum16-six b len long =
    sum16-suc b 14 len (omega arith)
    ∙ ap (λ n. load16 b 14 + n)
        (sum16-suc b 16 (len - 2) (omega arith)
          ∙ ap (λ n. load16 b 16 + n)
              (sum16-suc b 18 (len - 2 - 2) (omega arith)
                ∙ ap (λ n. load16 b 18 + n)
                    (sum16-suc b 20 (len - 2 - 2 - 2) (omega arith)
                      ∙ ap (λ n. load16 b 20 + n)
                          (sum16-suc b 22 (len - 2 - 2 - 2 - 2) (omega arith)
                            ∙ ap (λ n. load16 b 22 + n)
                                (sum16-suc b 24 (len - 2 - 2 - 2 - 2 - 2) (omega arith)
                                  ∙ ap (λ n. load16 b 24 + sum16 b 26 n) (omega arith))))))

-- One off the time to live and one more in the checksum leave a valid sum valid.
balanced :
    (a b c d t ck rest v : ℕ)
    → 0 < a
    → 1 < t
    → ck < 2 ^ 16
    → v ≤ 65535
    → IsSame v (2 ^ 16 - 1 - ck + 65534)
    → IsSame 65535 (a + (b + (c + (d + (t + (ck + rest))))))
    → IsSame 65535 (a + (b + (c + (d + (t - 1 + (65535 - v + rest))))))
balanced a b c d t ck rest v filled more small most s whole = record {
  residue = omega (arith, s.residue, whole.residue);
  zero_to = λ z. omega arith;
  zero_from = λ z. omega arith;
}

-- What becomes of a packet with a valid header
pub data Ages (avx2 : Bool) (buf : Memory ℕ) : Option (Memory ℕ) → Type 0 where
  expires : buf 22 ≤ 1 → Ages avx2 buf none
  ages :
      (aged : Memory ℕ)
      → 1 < buf 22
      → aged 22 + 1 ≡ buf 22
      → verify_ipv4_checksum avx2 aged 14 ≡ true
      → ((j : ℕ) → j ≢ 22 → j ≢ 24 → j ≢ 25 → aged j ≡ buf j)
      → Ages avx2 buf (some aged)

abbrev aged : Memory ℕ → Memory ℕ
aged buf = update (store16 buf 24 (update_checksum16 (load16 buf 24) 2 1)) 22 (buf 22 - 1)

aged-keeps : (buf : Memory ℕ) (j : ℕ) → j ≢ 22 → j ≢ 24 → j ≢ 25 → aged buf j ≡ buf j
aged-keeps buf j a b c =
    update_off (store16 buf 24 (update_checksum16 (load16 buf 24) 2 1)) 22 (buf 22 - 1) j a
    ∙ store16_off buf 24 (update_checksum16 (load16 buf 24) 2 1) j (omega arith)

aged-IsBytes : (buf : Memory ℕ) → IsBytes buf → IsBytes (aged buf)
aged-IsBytes buf bytes =
    let ck = update_checksum16 (load16 buf 24) 2 1 in
    update_all (store16 buf 24 ck) 22 (buf 22 - 1) (λ x. x < 2 ^ 8) (omega (arith, bytes 22))
      (λ j _. store16-IsBytes buf 24 ck bytes j)

-- The new checksum is the complement of a number that is the old sum less one.
aged_checksum :
    (ck : ℕ)
    → ck < 2 ^ 16
    → (v : ℕ) × (v ≤ 65535)
      × IsSame v (2 ^ 16 - 1 - ck + 65534)
      × (update_checksum16 ck 2 1 ≡ 65535 - v)
unfolding update_checksum16 update_checksum_with_increment checksum_increment16
aged_checksum ck small =
    let (v, most, s, e) = fold_checksum-IsSame (u32 (not16 ck + (not16 2 + 1))) (omega arith) in
    (v, most, IsSame-trans s (IsSame-eq (omega arith)), e)

aged-valid :
    (avx2 : Bool) (buf : Memory ℕ)
    → IsBytes buf
    → 20 ≤ ip_header_len buf 14
    → verify_ipv4_checksum avx2 buf 14 ≡ true
    → 1 < buf 22
    → verify_ipv4_checksum avx2 (aged buf) 14 ≡ true
aged-valid avx2 buf bytes long valid more =
    let ck = load16 buf 24 in
    let len = ip_header_len buf 14 in
    let small : ck < 2 ^ 16 = load16_lt buf bytes 24 in
    let (v, most, s, e) = aged_checksum ck small in
    let whole = sum-verified avx2 buf bytes 14 long valid in
    let t : load16 (aged buf) 22 ≡ load16 buf 22 - 1 = down (buf 22) (buf 23) more in
    let c : load16 (aged buf) 24 ≡ 65535 - v =
      halves (update_checksum16 ck 2 1) (65535 - v) e (omega arith) in
    let r : sum16 (aged buf) 26 (len - 12) ≡ sum16 buf 26 (len - 12) =
      sum16_congr (aged buf) buf 26 (len - 12)
        (λ j low high. aged-keeps buf j (omega arith) (omega arith) (omega arith)) in
    let now =
      balanced (load16 buf 14) (load16 buf 16) (load16 buf 18) (load16 buf 20) (load16 buf 22) ck
        (sum16 buf 26 (len - 12)) v (omega arith) (omega arith) small most s
        (IsSame-trans whole (IsSame-eq (sum16-six buf len long))) in
    let tail : load16 (aged buf) 22 + (load16 (aged buf) 24 + sum16 (aged buf) 26 (len - 12))
        ≡ load16 buf 22 - 1 + (65535 - v + sum16 buf 26 (len - 12)) =
      ap₂ ◌+◌ t (ap₂ ◌+◌ c r) in
    verified-sum avx2 (aged buf) (aged-IsBytes buf bytes) 14 long (
      IsSame-trans now (
        IsSame-eq (
          ap (λ n. load16 buf 14 + (load16 buf 16 + (load16 buf 18 + (load16 buf 20 + n))))
            (sym tail)
          ∙ sym (sum16-six (aged buf) len long))))
  where
    down : (a b : ℕ) → 1 < a → a - 1 + 2 ^ 8 * b ≡ a + 2 ^ 8 * b - 1
    down a b more = omega arith

    halves : (a b : ℕ) → a ≡ b → b < 2 ^ 16 → a % 2 ^ 8 + 2 ^ 8 * (a / 2 ^ 8 % 2 ^ 8) ≡ b
    halves a b e small = omega arith

-- UpdateTTL on the bytes of an untagged packet with a valid IPv4 header of at least 20 bytes: it
-- drops the packet if the time to live is at most 1; otherwise the time to live goes down by one,
-- the header is valid again, and only the time to live and the checksum change.
pub update_ttl-Ages :
    (avx2 : Bool) (buf : Memory ℕ)
    → IsBytes buf
    → 20 ≤ ip_header_len buf 14
    → verify_ipv4_checksum avx2 buf 14 ≡ true
    → Ages avx2 buf (update_ttl buf)
unfolding update_ttl
update_ttl-Ages avx2 buf bytes long valid =
    if_split (Ages avx2 buf) (ltb 1 (buf 22))
      (λ alive.
        let more : 1 < buf 22 = ltb→lt _ _ alive in
        ages (aged buf) more (omega arith) (aged-valid avx2 buf bytes long valid more)
          (aged-keeps buf))
      (λ dead. expires (ground arith))
