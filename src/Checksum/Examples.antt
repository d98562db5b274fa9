-- ===== src/Checksum/Examples.antt =====
-- Checksums of core/utils/checksum.h at concrete packets.
use nfv.Base.{ℕ, ◌%◌, ◌^◌, ◌≡◌, refl, arith, true, false, Memory, update, [], ◌∷◌}
use nfv.Checksum.{
  adcq, adcl, loads64, stream_loop, add_streams, fold_streams, sum_vectors, sum_quads, sum_shorts,
  calculate_sum, fold_checksum, calculate_generic_checksum,
}
use nfv.Checksum.Same.{IsBytes, rfc1071}
use nfv.Checksum.Sum.{generic-rfc1071}
use nfv.Checksum.Headers.{
  verify_ipv4_no_opt_checksum, verify_ipv4_checksum, verify_ipv4_udp_checksum, ip_checksum,
  l4_checksum,
}
use nfv.Checksum.Headers.Verified.{plain, verify-ip_checksum}
use nfv.Checksum.Headers.L4.{udp, verify-l4_checksum}
use nfv.Checksum.Increment.{update_checksum32, checksum_of, full, update-recompute}
use nfv.Checksum.Ttl.{update_ttl, Ages, update_ttl-Ages}

abbrev counting : Memory ℕ
counting i = i % 2 ^ 8

counting-IsBytes : IsBytes counting
counting-IsBytes i = omega arith

-- With and without the wide registers
sums_alike : calculate_sum true counting 0 131 ≡ calculate_sum false counting 0 131
unfolding calculate_sum sum_vectors stream_loop add_streams fold_streams sum_quads sum_shorts adcq
    loads64
sums_alike = refl

generic-rfc1071_example : calculate_generic_checksum true counting 3 131 ≡ rfc1071 counting 3 131
generic-rfc1071_example = generic-rfc1071 true counting 3 131 counting-IsBytes (omega arith)

-- An IPv4 packet of 20 bytes of header, with time to live 64, protocol UDP and checksum 0x7aee
abbrev packet : Memory ℕ
packet =
    update
      (update
        (update (update (update (update (update (λ _. 0) 12 0x08) 14 0x45) 22 64) 23 17) 24 0x7a) 25
        0xee)
      39 8

packet-IsBytes : IsBytes packet
packet-IsBytes i = ground arith

packet_verifies : verify_ipv4_checksum false packet 14 ≡ true
unfolding verify_ipv4_checksum verify_ipv4_no_opt_checksum adcl fold_checksum
packet_verifies = refl

verify-ip_checksum_example : verify_ipv4_checksum false (ip_checksum false packet) 14 ≡ true
verify-ip_checksum_example =
    verify-ip_checksum false packet 14 packet-IsBytes (plain refl) (omega arith)

verify-l4_checksum_example : verify_ipv4_udp_checksum true (l4_checksum true packet) 14 34 ≡ true
verify-l4_checksum_example =
    verify-l4_checksum true packet (λ b. verify_ipv4_udp_checksum true b 14 34) packet-IsBytes refl
      (omega arith) (udp refl (omega arith))

update-recompute_example :
    update_checksum32 (checksum_of (0x4500 ∷ 0x0001 ∷ 0x0a00 ∷ 7 ∷ [])) 0x0a000001 0xc0a80002
    ≡ checksum_of (0x4500 ∷ 0x0002 ∷ 0xc0a8 ∷ 7 ∷ [])
update-recompute_example =
    update-recompute full (0x4500 ∷ []) (7 ∷ []) 0x0a000001 0xc0a80002 (omega arith, tt)
      (omega arith, tt) (omega arith) (omega arith) (λ e. absurd (omega arith))

update_ttl-Ages_example : Ages false packet (update_ttl packet)
update_ttl-Ages_example = update_ttl-Ages false packet packet-IsBytes (omega arith) packet_verifies
