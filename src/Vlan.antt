-- ===== src/Vlan.antt =====
-- core/modules/vlan_push.cc, core/modules/vlan_pop.cc, core/modules/vlan_split.cc: 802.1Q and 802.1ad
-- tags, with the head of a packet (core/packet.h) moved by `prepend` and `adj`.
pub mod RoundTrip
mod Examples
use nfv.Base.{
  ℕ, ◌+◌, ◌-◌, ◌*◌, ◌/◌, ◌%◌, ◌^◌, Bool, true, false, ◌||◌, Option, none, some, Memory, ltb, leb,
  ◌==◌, if◌then◌else◌,
}
use nfv.Base.Words.{u32, sub32}

-- The buffer's bytes, the head's place in it, and the lengths of the segment and of the packet.
pub record Packet : Type 0 where
  pub buf : Memory ℕ
  pub data_off : ℕ
  pub data_len : ℕ
  pub pkt_len : ℕ

-- `none` is the null pointer.
unfoldable pub prepend : ℕ → Packet → Option Packet
prepend len p =
    if ltb p.data_off len
    then none
    else some (record p {
      data_off = p.data_off - len;
      data_len = (p.data_len + len) % 2 ^ 16;
      pkt_len = u32 (p.pkt_len + len);
    })

pub adj : ℕ → Packet → Option Packet
adj len p =
    if ltb p.data_len len
    then none
    else some (record p {
      data_off = (p.data_off + len) % 2 ^ 16;
      data_len = p.data_len - len;
      pkt_len = sub32 p.pkt_len len;
    })

-- `_mm_loadu_si128`, `_mm_storeu_si128`: sixteen bytes
abbrev pub load128 : Memory ℕ → ℕ → Memory ℕ
load128 buf at i = buf (at + i)

abbrev pub store128 : Memory ℕ → ℕ → Memory ℕ → Memory ℕ
store128 buf at v j = if ltb j at then buf j else if leb (at + 16) j then buf j else v (j - at)

-- `be16_t::swap(_mm_extract_epi16(v, k))`
abbrev pub be16_at : Memory ℕ → ℕ → ℕ
be16_at v k = 2 ^ 8 * v (2 * k) + v (2 * k + 1)

-- `_mm_insert_epi32(v, w, 3)`, with `w` in network order
abbrev pub insert_last : Memory ℕ → ℕ → Memory ℕ
insert_last v w i =
    if ltb i 12
    then v i
    else if i == 12
    then w / 2 ^ 24 % 2 ^ 8
    else if i == 13
    then w / 2 ^ 16 % 2 ^ 8
    else if i == 14
    then w / 2 ^ 8 % 2 ^ 8
    else w % 2 ^ 8

-- `_mm_slli_si128(v, 4)`
abbrev pub shift4 : Memory ℕ → Memory ℕ
shift4 v i = if ltb i 4 then 0 else v (i - 4)

-- Ethernet::Type::kVlan and kQinQ
abbrev pub vlan_type : ℕ
vlan_type = 0x8100

abbrev pub qinq_type : ℕ
qinq_type = 0x88a8

-- `vlan_tag_` and `qinq_tag_`, as CommandSetTci leaves them
abbrev pub tag_of : ℕ → ℕ → ℕ
tag_of ether_type tci = ether_type * 2 ^ 16 + tci

-- VLANPush::ProcessBatch, on one packet
unfoldable pub vlan_push : ℕ → Packet → Packet
vlan_push tci p = elim (prepend 4 p) [
  | none ↦ p
  | some q ↦
      let ethh = load128 q.buf (q.data_off + 4) in
      let tag =
        if be16_at ethh 6 == vlan_type then tag_of qinq_type tci else tag_of vlan_type tci in
      record q { buf = store128 q.buf q.data_off (insert_last ethh tag) }
]

abbrev pub is_tagged : Memory ℕ → Bool
is_tagged eth = (be16_at eth 6 == vlan_type) || (be16_at eth 6 == qinq_type)

-- The tag is overwritten with the addresses, and the four bytes before them with zeros.
abbrev pub close_up : Packet → Packet → Packet
close_up p q = record q { buf = store128 q.buf p.data_off (shift4 (load128 p.buf p.data_off)) }

-- VLANPop::ProcessBatch, on one packet
pub vlan_pop : Packet → Packet
vlan_pop p = elim (if is_tagged (load128 p.buf p.data_off) then adj 4 p else none) [
  | none ↦ p
  | some q ↦ close_up p q
]

-- VLANSplit::ProcessBatch, on one packet: the output gate and the packet
pub vlan_split : Packet → ℕ × Packet
vlan_split p = elim (if is_tagged (load128 p.buf p.data_off) then adj 4 p else none) [
  | none ↦ (0, p)
  | some q ↦ (be16_at (load128 p.buf p.data_off) 7 % 2 ^ 12, close_up p q)
]
