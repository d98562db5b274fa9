-- ===== src/Checksum/Headers/L4.antt =====
-- core/utils/checksum.h, core/modules/l4_checksum.cc: a UDP or TCP packet whose checksum field holds
-- what the code calculates passes the verification.
use nfv.Base.{
  ℕ, ◌+◌, ◌-◌, ◌*◌, ◌%◌, ◌^◌, ◌≤◌, ◌<◌, ◌≡◌, ap, ap₂, ◌∙◌, inl, arith, Bool, true, false, Memory,
  if◌then◌else◌, ltb, le→ltb,
}
use nfv.Checksum.{store16}
use nfv.Checksum.Same.{IsBytes}
use nfv.Checksum.Carry.{load16_lt}
use nfv.Checksum.Headers.{
  swap16, be16, ip_header_len, verify_udp_with, verify_ipv4_udp_checksum, calculate_udp_with,
  calculate_ipv4_udp_checksum, verify_tcp_with, verify_ipv4_tcp_checksum, calculate_tcp_with,
  calculate_ipv4_tcp_checksum, l4_checksum,
}
use nfv.Checksum.Headers.Fields.{store16_off, load16-store16_off}
use nfv.Checksum.Headers.Completed.{udp_completes, tcp_completes}

module _ (avx2 : Bool) (buf : Memory ℕ) (bytes : IsBytes buf) (iph l4 : ℕ)
    (behind : iph + 20 ≤ l4) where
  be16_lt : (at : ℕ) → be16 buf at < 2 ^ 16
  be16_lt at = omega (arith, load16_lt buf bytes at)

  verify-udp :
      8 ≤ be16 buf (l4 + 4)
      → verify_ipv4_udp_checksum avx2
          (store16 buf (l4 + 6) (calculate_ipv4_udp_checksum avx2 buf iph l4))
          iph
          l4
        ≡ true
  unfolding verify_ipv4_udp_checksum calculate_ipv4_udp_checksum
  verify-udp long =
      let len = be16 buf (l4 + 4) in
      let ck = calculate_ipv4_udp_checksum avx2 buf iph l4 in
      let e : be16 (store16 buf (l4 + 6) ck) (l4 + 4) ≡ len =
        ap swap16 (load16-store16_off buf (l4 + 6) ck (l4 + 4) (inl (omega arith))) in
      let big : ltb len 8 ≡ false = le→ltb len 8 long in
      let c : ck ≡ calculate_udp_with avx2 buf iph l4 len =
        ap (λ b. if b then 0 else calculate_udp_with avx2 buf iph l4 len) big in
      ap (λ n. if ltb n 8 then false else verify_udp_with avx2 (store16 buf (l4 + 6) ck) iph l4 n) e
      ∙ ap (λ b. if b then false else verify_udp_with avx2 (store16 buf (l4 + 6) ck) iph l4 len) big
      ∙ ap (λ c. verify_udp_with avx2 (store16 buf (l4 + 6) c) iph l4 len) c
      ∙ udp_completes avx2 buf bytes iph l4 behind len (be16_lt (l4 + 4))

  verify-tcp :
      ip_header_len buf iph + 20 ≤ be16 buf (iph + 2)
      → verify_ipv4_tcp_checksum avx2
          (store16 buf (l4 + 16) (calculate_ipv4_tcp_checksum avx2 buf iph l4))
          iph
          l4
        ≡ true
  unfolding verify_ipv4_tcp_checksum calculate_ipv4_tcp_checksum
  verify-tcp long =
      let len = be16 buf (iph + 2) in
      let header = ip_header_len buf iph in
      let ck = calculate_ipv4_tcp_checksum avx2 buf iph l4 in
      let now = store16 buf (l4 + 16) ck in
      let e : be16 now (iph + 2) ≡ len =
        ap swap16 (load16-store16_off buf (l4 + 16) ck (iph + 2) (inl (omega arith))) in
      let f : ip_header_len now iph ≡ header =
        ap (λ b. b % 2 ^ 4 * 4) (store16_off buf (l4 + 16) ck iph (inl (omega arith))) in
      let big : ltb len (header + 20) ≡ false = le→ltb len (header + 20) long in
      let c : ck ≡ calculate_tcp_with avx2 buf iph l4 (len - header) =
        ap (λ b. if b then 0 else calculate_tcp_with avx2 buf iph l4 (len - header)) big in
      ap₂ (λ n h. if ltb n (h + 20) then false else verify_tcp_with avx2 now iph l4 (n - h)) e f
      ∙ ap (λ b. if b then false else verify_tcp_with avx2 now iph l4 (len - header)) big
      ∙ ap (λ c. verify_tcp_with avx2 (store16 buf (l4 + 16) c) iph l4 (len - header)) c
      ∙ tcp_completes avx2 buf bytes iph l4 behind (len - header) (omega (arith, be16_lt (iph + 2)))

-- A whole UDP or TCP header behind the IPv4 header of an untagged packet, and what verifies it.
pub data Carries (avx2 : Bool) (buf : Memory ℕ) : (Memory ℕ → Bool) → Type 0 where
  udp :
      buf 23 ≡ 17
      → 8 ≤ be16 buf (14 + ip_header_len buf 14 + 4)
      → Carries avx2 buf (λ b. verify_ipv4_udp_checksum avx2 b 14 (14 + ip_header_len buf 14))
  tcp :
      buf 23 ≡ 6
      → ip_header_len buf 14 + 20 ≤ be16 buf 16
      → Carries avx2 buf (λ b. verify_ipv4_tcp_checksum avx2 b 14 (14 + ip_header_len buf 14))

-- If an untagged IPv4 packet has an IPv4 header of at least 20 bytes and behind it a whole UDP
-- header by its length field, or a whole TCP header by the IPv4 length field, then
-- VerifyIpv4UdpChecksum or VerifyIpv4TcpChecksum accepts the packet after L4Checksum.
pub verify-l4_checksum :
    (avx2 : Bool) (buf : Memory ℕ) (verify : Memory ℕ → Bool)
    → IsBytes buf
    → be16 buf 12 ≡ 0x0800
    → 20 ≤ ip_header_len buf 14
    → Carries avx2 buf verify
    → verify (l4_checksum avx2 buf) ≡ true
unfolding l4_checksum
verify-l4_checksum avx2 buf _ bytes ip long (udp proto whole) =
    rw (ip, proto) (verify-udp avx2 buf bytes 14 (14 + ip_header_len buf 14) (omega arith) whole)
verify-l4_checksum avx2 buf _ bytes ip long (tcp proto whole) =
    rw (ip, proto) (verify-tcp avx2 buf bytes 14 (14 + ip_header_len buf 14) (omega arith) whole)
