-- ===== src/Vlan/RoundTrip.antt =====
-- core/modules/vlan_push.cc, core/modules/vlan_pop.cc, core/modules/vlan_split.cc: a tag that was
-- pushed comes off again, and tells the gate.
use native.Mathlib.Decide.{dec_lt}
use nfv.Base.{
  ℕ, ◌+◌, ◌-◌, ◌*◌, ◌/◌, ◌%◌, ◌^◌, ◌≤◌, ◌<◌, ◌≡◌, refl, sym, ap, ◌∙◌, ◌⊎◌, inl, inr, arith, true,
  false, none, some, Memory, ltb, leb, ◌==◌, ◌||◌, if◌then◌else◌, le→ltb, if_split, subst,
}
use nfv.Vlan.{
  Packet, prepend, adj, load128, store128, be16_at, insert_last, shift4, vlan_type, qinq_type,
  tag_of, vlan_push, is_tagged, close_up, vlan_pop, vlan_split,
}

-- A packet with four bytes of headroom, whose lengths can grow by four.
pub record HasHeadroom (p : Packet) : Type 0 where
  pub head : 4 ≤ p.data_off
  pub offset : p.data_off < 2 ^ 16
  pub segment : p.data_len + 4 < 2 ^ 16
  pub whole : p.pkt_len + 4 < 2 ^ 32

-- `q` is the packet `p` again, but for the bytes before its head.
pub record Restores (p q : Packet) : Type 0 where
  pub data_off : q.data_off ≡ p.data_off
  pub data_len : q.data_len ≡ p.data_len
  pub pkt_len : q.pkt_len ≡ p.pkt_len
  pub bytes : (i : ℕ) → q.buf (p.data_off + i) ≡ p.buf (p.data_off + i)

-- Inside and outside the sixteen bytes that are stored
store128_in :
    (buf : Memory ℕ) (at : ℕ) (v : Memory ℕ) (i : ℕ) → i < 16 → store128 buf at v (at + i) ≡ v i
store128_in buf at v i low =
    if_split (λ x. x ≡ v i) (ltb (at + i) at) (λ under. absurd (ground arith))
      (λ _.
        if_split (λ x. x ≡ v i) (leb (at + 16) (at + i)) (λ over. absurd (ground arith))
          (λ _. ap v (omega arith)))

store128_out :
    (buf : Memory ℕ) (at : ℕ) (v : Memory ℕ) (j : ℕ) → at + 16 ≤ j → store128 buf at v j ≡ buf j
store128_out buf at v j high =
    if_split (λ x. x ≡ buf j) (ltb j at) (λ _. refl)
      (λ _.
        if_split (λ x. x ≡ buf j) (leb (at + 16) j) (λ _. refl) (λ under. absurd (ground arith)))

insert_last_low : (v : Memory ℕ) (w i : ℕ) → i < 12 → insert_last v w i ≡ v i
insert_last_low v w i low =
    if_split (λ x. x ≡ v i) (ltb i 12) (λ _. refl) (λ over. absurd (ground arith))

shift4_back : (v : Memory ℕ) (i : ℕ) → shift4 v (4 + i) ≡ v i
shift4_back v i =
    if_split (λ x. x ≡ v i) (ltb (4 + i) 4) (λ under. absurd (ground arith))
      (λ _. ap v (omega arith))

either_type :
    (n : ℕ) → (n ≡ vlan_type) ⊎ (n ≡ qinq_type) → ((n == vlan_type) || (n == qinq_type)) ≡ true
either_type n e = ground arith

module _ (tci : ℕ) (p : Packet) (small : tci < 2 ^ 16) (room : HasHeadroom p) where
  abbrev at : ℕ
  at = p.data_off - 4

  abbrev tag : ℕ
  tag =
      if be16_at (load128 p.buf (at + 4)) 6 == vlan_type
      then tag_of qinq_type tci
      else tag_of vlan_type tci

  -- The packet with the tag
  abbrev tagged : Packet
  tagged = record {
    buf = store128 p.buf at (insert_last (load128 p.buf (at + 4)) tag);
    data_off = at;
    data_len = (p.data_len + 4) % 2 ^ 16;
    pkt_len = (p.pkt_len + 4) % 2 ^ 32;
  }

  push_tags : vlan_push tci p ≡ tagged
  unfolding vlan_push prepend
  push_tags =
      ap
        (λ b.
          elim (if b
              then none
              else some (record p {
                data_off = at;
                data_len = (p.data_len + 4) % 2 ^ 16;
                pkt_len = (p.pkt_len + 4) % 2 ^ 32;
              }))
            as (λ _. Packet) [
              | none ↦ p
              | some q ↦ record q {
                buf = store128 q.buf q.data_off (
                    insert_last (load128 q.buf (q.data_off + 4)) (
                      if be16_at (load128 q.buf (q.data_off + 4)) 6 == vlan_type
                      then tag_of qinq_type tci
                      else tag_of vlan_type tci));
              }
            ])
        (le→ltb p.data_off 4 room.head)

  abbrev frame : Memory ℕ
  frame = load128 tagged.buf tagged.data_off

  -- The sixteen bytes from the new head on
  frame_byte : (i : ℕ) → i < 16 → frame i ≡ insert_last (load128 p.buf (at + 4)) tag i
  frame_byte i low = store128_in p.buf at (insert_last (load128 p.buf (at + 4)) tag) i low

  -- What VLANPop makes of it
  popped : Packet
  popped = close_up tagged (record tagged {
    data_off = (at + 4) % 2 ^ 16;
    data_len = (p.data_len + 4) % 2 ^ 16 - 4;
    pkt_len = ((p.pkt_len + 4) % 2 ^ 32 + 2 ^ 32 - 4) % 2 ^ 32;
  })

  type_there : (be16_at frame 6 ≡ vlan_type) ⊎ (be16_at frame 6 ≡ qinq_type)
  type_there =
      let high = frame_byte 12 (omega arith) in
      let low = frame_byte 13 (omega arith) in
      joined tag high low (
        if_split (λ t. (t / 2 ^ 16 ≡ vlan_type) ⊎ (t / 2 ^ 16 ≡ qinq_type))
          (be16_at (load128 p.buf (at + 4)) 6 == vlan_type) (λ _. inr (omega arith))
          (λ _. inl (omega arith)))
    where
      joined :
          (t : ℕ) {x y : ℕ}
          → x ≡ t / 2 ^ 24 % 2 ^ 8
          → y ≡ t / 2 ^ 16 % 2 ^ 8
          → (t / 2 ^ 16 ≡ vlan_type) ⊎ (t / 2 ^ 16 ≡ qinq_type)
          → (2 ^ 8 * x + y ≡ vlan_type) ⊎ (2 ^ 8 * x + y ≡ qinq_type)
      joined t e f (inl g) = inl (omega arith)
      joined t e f (inr g) = inr (omega arith)

  tci_there : be16_at frame 7 ≡ tci
  tci_there =
      let high = frame_byte 14 (omega arith) in
      let low = frame_byte 15 (omega arith) in
      joined tag high low (
        if_split (λ t. t % 2 ^ 16 ≡ tci) (be16_at (load128 p.buf (at + 4)) 6 == vlan_type)
          (λ _. omega arith) (λ _. omega arith))
    where
      joined :
          (t : ℕ) {x y : ℕ}
          → x ≡ t / 2 ^ 8 % 2 ^ 8
          → y ≡ t % 2 ^ 8
          → t % 2 ^ 16 ≡ tci
          → 2 ^ 8 * x + y ≡ tci
      joined t e f g = omega arith

  popped-Restores : Restores p popped
  unfolding popped
  popped-Restores = record {
    data_off = omega (arith, room.head, room.offset);
    data_len = omega (arith, room.segment);
    pkt_len = omega (arith, room.whole);
    bytes = λ i. elim (dec_lt i 12) [
      | yes low ↦
          ap popped.buf {x = p.data_off + i} {y = at + (4 + i)} (omega (arith, room.head))
          ∙ store128_in tagged.buf at (shift4 frame) (4 + i) (omega arith)
          ∙ shift4_back frame i
          ∙ frame_byte i (omega arith)
          ∙ insert_last_low (load128 p.buf (at + 4)) tag i low
          ∙ ap p.buf (omega (arith, room.head))
      | no high ↦
          store128_out tagged.buf at (shift4 frame) (p.data_off + i) (omega (arith, room.head))
          ∙ store128_out p.buf at (insert_last (load128 p.buf (at + 4)) tag) (p.data_off + i)
              (omega (arith, room.head))
    ];
  }

  frame-is_tagged : is_tagged frame ≡ true
  frame-is_tagged = either_type (be16_at frame 6) type_there

  whole_tag : ltb tagged.data_len 4 ≡ false
  whole_tag = le→ltb tagged.data_len 4 (omega (arith, room.segment))

  adj_taken :
      (if is_tagged frame then adj 4 tagged else none)
      ≡ some (record tagged {
        data_off = (at + 4) % 2 ^ 16;
        data_len = (p.data_len + 4) % 2 ^ 16 - 4;
        pkt_len = ((p.pkt_len + 4) % 2 ^ 32 + 2 ^ 32 - 4) % 2 ^ 32;
      })
  unfolding adj
  adj_taken = rw (frame-is_tagged, whole_tag) refl

  pop_takes : vlan_pop (vlan_push tci p) ≡ popped
  unfolding vlan_pop popped
  pop_takes =
      ap vlan_pop push_tags
      ∙ ap (λ o. elim o as (λ _. Packet) [ none ↦ tagged | some q ↦ close_up tagged q ]) adj_taken

  split_takes : vlan_split (vlan_push tci p) ≡ (tci % 2 ^ 12, popped)
  unfolding vlan_split popped
  split_takes =
      ap vlan_split push_tags
      ∙ ap
          (λ o. elim o as (λ _. ℕ × Packet) [
            | none ↦ (0, tagged)
            | some q ↦ (be16_at frame 7 % 2 ^ 12, close_up tagged q)
          ])
          adj_taken
      ∙ ap (λ n. (n % 2 ^ 12, popped)) tci_there

  -- For a tag control value below 2^16 and a packet with four bytes of headroom whose offset fits
  -- 16 bits and whose lengths can grow by four, VLANPop after VLANPush gives the packet back (its
  -- offset, its lengths and every byte from its head on), whether or not it carried a tag before;
  -- and VLANSplit sends the pushed packet to the gate of the low 12 bits of the tag control value,
  -- with the packet that VLANPop makes.
  pub pop-push :
      Restores p (vlan_pop (vlan_push tci p))
      × (vlan_split (vlan_push tci p) ≡ (tci % 2 ^ 12, vlan_pop (vlan_push tci p)))
  pop-push = (
    subst (Restores p) (sym pop_takes) popped-Restores,
    split_takes ∙ ap (λ q. (tci % 2 ^ 12, q)) (sym pop_takes),
  )
