-- ===== src/Vlan/Examples.antt =====
-- A tag is pushed onto a packet and comes off again (core/modules/vlan_push.cc, vlan_pop.cc).
use nfv.Base.{◌+◌, ◌%◌, ◌^◌, ◌≡◌, refl, arith, [], ◌∷◌, tabulate}
use nfv.Vlan.{Packet, prepend, vlan_push, vlan_pop, vlan_split}
use nfv.Vlan.RoundTrip.{HasHeadroom, Restores, pop-push}

abbrev packet : Packet
packet = record { buf = λ i. i % 2 ^ 8; data_off = 128; data_len = 60; pkt_len = 60 }

packet-HasHeadroom : HasHeadroom packet
packet-HasHeadroom = record {
  head = omega arith;
  offset = omega arith;
  segment = omega arith;
  whole = omega arith;
}

-- The addresses, the tag with identifier 5, and the old type
pushed_bytes :
    tabulate 18 (λ i. (vlan_push 5 packet).buf (124 + i))
    ≡ 128 ∷ 129 ∷ 130 ∷ 131 ∷ 132 ∷ 133 ∷ 134 ∷ 135 ∷ 136 ∷ 137 ∷ 138 ∷ 139 ∷ 0x81 ∷ 0 ∷ 0 ∷ 5 ∷ 140
      ∷ 141 ∷ []
unfolding vlan_push prepend
pushed_bytes = refl

pop-push_example :
    Restores packet (vlan_pop (vlan_push 5 packet))
    × (vlan_split (vlan_push 5 packet) ≡ (5, vlan_pop (vlan_push 5 packet)))
pop-push_example = pop-push 5 packet (omega arith) packet-HasHeadroom
