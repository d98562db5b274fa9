-- ===== src/Checksum/Headers.antt =====
-- core/utils/checksum.h: the checksums of IPv4, UDP and TCP headers at an address, and
-- core/modules/ip_checksum.cc, core/modules/l4_checksum.cc, which write them.
pub mod Fields
pub mod Meaning
pub mod Verified
pub mod Completed
pub mod L4
use nfv.Base.{
  ℕ, ◌+◌, ◌-◌, ◌*◌, ◌/◌, ◌%◌, ◌^◌, Bool, true, false, ltb, ◌==◌, if◌then◌else◌, Memory, List, [],
  ◌∷◌,
}
use nfv.Checksum.{load16, load32, store16, adcl, calculate_sum, fold_checksum}

-- `be16_t::swap`; the value of a big-endian field at an address
abbrev pub swap16 : ℕ → ℕ
swap16 x = x % 2 ^ 8 * 2 ^ 8 + x / 2 ^ 8

abbrev pub be16 : Memory ℕ → ℕ → ℕ
be16 buf at = swap16 (load16 buf at)

-- `iph.header_length << 2`
abbrev pub ip_header_len : Memory ℕ → ℕ → ℕ
ip_header_len buf iph = buf iph % 2 ^ 4 * 4

-- The first five words of a header
abbrev pub words5 : Memory ℕ → ℕ → List ℕ
words5 buf at =
    load32 buf at
    ∷ load32 buf (at + 4)
    ∷ load32 buf (at + 8)
    ∷ load32 buf (at + 12)
    ∷ load32 buf (at + 16)
    ∷ []

unfoldable pub verify_ipv4_no_opt_checksum : Memory ℕ → ℕ → Bool
verify_ipv4_no_opt_checksum buf iph =
    fold_checksum (
      adcl (load32 buf iph) 0 (
        load32 buf (iph + 4)
        ∷ load32 buf (iph + 8)
        ∷ load32 buf (iph + 12)
        ∷ load32 buf (iph + 16)
        ∷ []))
    == 0

pub calculate_ipv4_no_opt_checksum : Memory ℕ → ℕ → ℕ
calculate_ipv4_no_opt_checksum buf iph = fold_checksum (
    adcl (load32 buf iph) 0 (
      load32 buf (iph + 4)
      ∷ load32 buf (iph + 8) % 2 ^ 16
      ∷ load32 buf (iph + 12)
      ∷ load32 buf (iph + 16)
      ∷ []))

unfoldable pub verify_ipv4_checksum : Bool → Memory ℕ → ℕ → Bool
verify_ipv4_checksum avx2 buf iph =
    let len = ip_header_len buf iph in
    if len == 20
    then verify_ipv4_no_opt_checksum buf iph
    else if ltb len 20
    then false
    else fold_checksum (adcl (calculate_sum avx2 buf (iph + 20) (len - 20)) 0 (words5 buf iph)) == 0

pub calculate_ipv4_checksum : Bool → Memory ℕ → ℕ → ℕ
calculate_ipv4_checksum avx2 buf iph =
    let len = ip_header_len buf iph in
    if len == 20
    then calculate_ipv4_no_opt_checksum buf iph
    else if ltb len 20
    then 0
    else fold_checksum (
        adcl (calculate_sum avx2 buf (iph + 20) (len - 20)) 0 (
          load32 buf iph
          ∷ load32 buf (iph + 4)
          ∷ load32 buf (iph + 8) % 2 ^ 16
          ∷ load32 buf (iph + 12)
          ∷ load32 buf (iph + 16)
          ∷ []))

-- The pseudo header: addresses, length and protocol, all in network order
abbrev pub pseudo : Memory ℕ → ℕ → ℕ → ℕ → List ℕ
pseudo buf iph len proto = load32 buf (iph + 12) ∷ load32 buf (iph + 16) ∷ swap16 len ∷ proto ∷ []

pub verify_udp_with : Bool → Memory ℕ → ℕ → ℕ → ℕ → Bool
verify_udp_with avx2 buf iph udph udp_len =
    if load16 buf (udph + 6) == 0
    then true
    else fold_checksum (
        adcl (calculate_sum avx2 buf (udph + 8) (udp_len - 8)) 0
          (load32 buf udph ∷ load32 buf (udph + 4) ∷ pseudo buf iph udp_len 0x1100))
      == 0

pub verify_ipv4_udp_checksum : Bool → Memory ℕ → ℕ → ℕ → Bool
verify_ipv4_udp_checksum avx2 buf iph udph =
    let udp_len = be16 buf (udph + 4) in
    if ltb udp_len 8 then false else verify_udp_with avx2 buf iph udph udp_len

pub calculate_udp_with : Bool → Memory ℕ → ℕ → ℕ → ℕ → ℕ
calculate_udp_with avx2 buf iph udph udp_len =
    let folded = fold_checksum (
      adcl (calculate_sum avx2 buf (udph + 8) (udp_len - 8)) 0
        (load32 buf udph ∷ load32 buf (udph + 4) % 2 ^ 16 ∷ pseudo buf iph udp_len 0x1100)) in
    if folded == 0 then 0xffff else folded

pub calculate_ipv4_udp_checksum : Bool → Memory ℕ → ℕ → ℕ → ℕ
calculate_ipv4_udp_checksum avx2 buf iph udph =
    let udp_len = be16 buf (udph + 4) in
    if ltb udp_len 8 then 0 else calculate_udp_with avx2 buf iph udph udp_len

pub verify_tcp_with : Bool → Memory ℕ → ℕ → ℕ → ℕ → Bool
verify_tcp_with avx2 buf iph tcph tcp_len =
    fold_checksum (
      adcl (calculate_sum avx2 buf (tcph + 20) (tcp_len - 20)) 0 (
        load32 buf tcph
        ∷ load32 buf (tcph + 4)
        ∷ load32 buf (tcph + 8)
        ∷ load32 buf (tcph + 12)
        ∷ load32 buf (tcph + 16)
        ∷ pseudo buf iph tcp_len 0x0600))
    == 0

pub verify_ipv4_tcp_checksum : Bool → Memory ℕ → ℕ → ℕ → Bool
verify_ipv4_tcp_checksum avx2 buf iph tcph =
    let ip_len = be16 buf (iph + 2) in
    let header = ip_header_len buf iph in
    if ltb ip_len (header + 20) then false else verify_tcp_with avx2 buf iph tcph (ip_len - header)

pub calculate_tcp_with : Bool → Memory ℕ → ℕ → ℕ → ℕ → ℕ
calculate_tcp_with avx2 buf iph tcph tcp_len = fold_checksum (
    adcl (calculate_sum avx2 buf (tcph + 20) (tcp_len - 20)) 0 (
      load32 buf tcph
      ∷ load32 buf (tcph + 4)
      ∷ load32 buf (tcph + 8)
      ∷ load32 buf (tcph + 12)
      ∷ load32 buf (tcph + 16) / 2 ^ 16
      ∷ pseudo buf iph tcp_len 0x0600))

pub calculate_ipv4_tcp_checksum : Bool → Memory ℕ → ℕ → ℕ → ℕ
calculate_ipv4_tcp_checksum avx2 buf iph tcph =
    let ip_len = be16 buf (iph + 2) in
    let header = ip_header_len buf iph in
    if ltb ip_len (header + 20) then 0 else calculate_tcp_with avx2 buf iph tcph (ip_len - header)

-- `IPChecksum::ProcessBatch`, on the packet whose bytes are `buf` from 0 on; ether_type 0x0800 is
-- IPv4, 0x8100 a VLAN tag and 0x88a8 an outer one.
pub ip_checksum_ipv4 : Bool → Memory ℕ → ℕ → ℕ → Memory ℕ
ip_checksum_ipv4 avx2 buf ether_type header =
    if ether_type == 0x0800
    then store16 buf (header + 10) (calculate_ipv4_checksum avx2 buf header)
    else buf

pub ip_checksum_vlan : Bool → Memory ℕ → ℕ → ℕ → Memory ℕ
ip_checksum_vlan avx2 buf ether_type header =
    if ether_type == 0x8100
    then ip_checksum_ipv4 avx2 buf (be16 buf (header + 2)) (header + 4)
    else ip_checksum_ipv4 avx2 buf ether_type header

pub ip_checksum : Bool → Memory ℕ → Memory ℕ
ip_checksum avx2 buf =
    let ether_type = be16 buf 12 in
    if ether_type == 0x88a8
    then if be16 buf 16 == 0x8100 then ip_checksum_vlan avx2 buf 0x8100 18 else buf
    else ip_checksum_vlan avx2 buf ether_type 14

-- `L4Checksum::ProcessBatch`, on one packet; protocol 17 is UDP, 6 TCP.
pub l4_checksum : Bool → Memory ℕ → Memory ℕ
l4_checksum avx2 buf =
    let l4 = 14 + ip_header_len buf 14 in
    if be16 buf 12 == 0x0800
    then if buf 23 == 17
      then store16 buf (l4 + 6) (calculate_ipv4_udp_checksum avx2 buf 14 l4)
      else if buf 23 == 6
      then store16 buf (l4 + 16) (calculate_ipv4_tcp_checksum avx2 buf 14 l4)
      else buf
    else buf
