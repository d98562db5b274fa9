-- ===== src/Drr/Turn.antt =====
-- core/modules/drr.cc: where a visit leaves the flow.
use nfv.Base.{
  ℕ, ◌+◌, ◌^◌, ◌<◌, ◌≡◌, refl, sym, ap, arith, true, false, Option, none, some, List, [], ◌∷◌, ◌++◌,
  ltb, if◌then◌else◌, if_split, subst,
}
use nfv.Base.Words.{u32, sub32}
use nfv.Drr.{
  Packet, Flow, Drr, full, less, Taken, give, take_queued, get_next_packets, idle, skipped, found,
  ttl, take_turn, get_next_flow, has_no_more, served, put_back, Visit, visited, visit, serve,
}
use nfv.Drr.Serve.{pending, Fits, Serves, get_next_packets-Serves}

-- A packet that is held back is too long for the deficit.
give-has_no_more :
    (pkt : Packet) (queue : List Packet) (deficit : ℕ) (batch : List Packet) (rest : Taken)
    → has_no_more rest.deficit rest.next_packet ≡ true
    → let t = give pkt queue deficit batch rest in has_no_more t.deficit t.next_packet ≡ true
unfolding give
give-has_no_more pkt queue deficit batch rest later =
    if_split (λ (t : Taken). has_no_more t.deficit t.next_packet ≡ true)
      (less deficit pkt.total_len) (λ short. short) (λ _. later)

take_queued-has_no_more :
    (queue : List Packet) (deficit : ℕ) (batch : List Packet)
    → let t = take_queued queue deficit batch in has_no_more t.deficit t.next_packet ≡ true
unfolding take_queued
take_queued-has_no_more [] deficit batch = refl
take_queued-has_no_more (pkt ∷ queue) deficit batch =
    if_split (λ (t : Taken). has_no_more t.deficit t.next_packet ≡ true) (full batch) (λ _. refl)
      (λ _.
        give-has_no_more pkt queue deficit batch
          (take_queued queue (sub32 deficit pkt.total_len) (batch ++ pkt ∷ []))
          (take_queued-has_no_more queue (sub32 deficit pkt.total_len) (batch ++ pkt ∷ [])))

next-has_no_more :
    (f : Flow) (batch : List Packet) (next : Option Packet)
    → full batch ≡ false
    → let t = get_next_packets (record f { next_packet = next }) batch in
      has_no_more t.deficit t.next_packet ≡ true
unfolding get_next_packets
next-has_no_more f batch none h = take_queued-has_no_more f.queue f.deficit batch
next-has_no_more f batch (some pkt) h =
    if_split (λ (t : Taken). has_no_more t.deficit t.next_packet ≡ true) (full batch)
      (λ e. absurd (ground arith))
      (λ _.
        give-has_no_more pkt f.queue f.deficit batch
          (take_queued f.queue (sub32 f.deficit pkt.total_len) (batch ++ pkt ∷ []))
          (take_queued-has_no_more f.queue (sub32 f.deficit pkt.total_len) (batch ++ pkt ∷ [])))

served-has_no_more :
    (f : Flow) (t : Taken) (next : Option Packet)
    → has_no_more t.deficit next ≡ true
    → has_no_more (served f (record t { next_packet = next })).deficit next ≡ true
served-has_no_more f t none h = refl
served-has_no_more f t (some pkt) h = h

-- What a visit does with the flow `f` at the head of the ring: `f` with its quantum gives packets to
-- the batch, and goes to the back of the ring; no flow is kept as the current one.
pub data Turned (f : Flow) (rest : List Flow) (quantum : ℕ) (batch : List Packet)
    : Visit → Type 0 where
  turned :
      {e : Drr} {t : Taken}
      → Serves (pending f.next_packet f.queue) (f.deficit + quantum) batch t
      → e.flow_ring ≡ rest ++ served f t ∷ []
      → e.current_flow ≡ none
      → Turned f rest quantum batch (visited e t.batch t.bytes)

put_back-has_no_more :
    (d : Drr) (g : Flow)
    → has_no_more g.deficit g.next_packet ≡ true
    → put_back d g ≡ record d { flow_ring = d.flow_ring ++ g ∷ [] }
unfolding put_back
put_back-has_no_more d g h =
    ap
      (λ b.
        if b
        then record d { flow_ring = d.flow_ring ++ g ∷ [] }
        else record d { current_flow = some g })
      h

take_turn-idle :
    (now : ℕ) (d : Drr) (f : Flow) (ring : List Flow)
    → idle f.queue f.next_packet ≡ false
    → take_turn now d f ring
      ≡ found (record f { deficit = u32 (f.deficit + d.quantum) }) (record d { flow_ring = ring })
unfolding take_turn
take_turn-idle now d f ring h =
    ap
      (λ b.
        if b
        then (if ltb (f.timer + ttl) now
            then skipped (record d { flow_ring = ring })
            else skipped (record d { flow_ring = ring ++ f ∷ [] }))
        else found (record f { deficit = u32 (f.deficit + d.quantum) })
            (record d { flow_ring = ring }))
      h

module _ (now : ℕ) (d : Drr) (f : Flow) (rest : List Flow) (batch : List Packet)
    (room : full batch ≡ false) (busy : idle f.queue f.next_packet ≡ false)
    (small : f.deficit + d.quantum < 2 ^ 31)
    (fit : Fits (2 ^ 31) (pending f.next_packet f.queue)) where
  -- The flow with its quantum, and what it gives
  abbrev paid_flow : Flow
  paid_flow = record f { deficit = u32 (f.deficit + d.quantum) }

  abbrev taken : Taken
  taken = get_next_packets paid_flow batch

  abbrev left_ring : Drr
  left_ring = record { quantum = d.quantum; flow_ring = rest; current_flow = none }

  serve_turn :
      visit now (record d { flow_ring = f ∷ rest; current_flow = none }) batch
      ≡ visited (put_back left_ring (served f taken)) taken.batch taken.bytes
  unfolding visit get_next_flow serve
  serve_turn =
      ap (serve batch)
        (take_turn-idle now (record d { flow_ring = f ∷ rest; current_flow = none }) f rest busy)

  -- If the batch is not full, no flow is current, the flow at the head of the ring has packets,
  -- and its deficit with the quantum and its packet lengths are below 2^31, then a visit of the
  -- loop of GetNextBatch lets that flow, with the quantum added, give packets to the batch, puts
  -- it at the back of the ring behind all others, and keeps no flow as the current one.
  pub visit-Turned :
      Turned f rest d.quantum batch
        (visit now (record d { flow_ring = f ∷ rest; current_flow = none }) batch)
  visit-Turned =
      let back = put_back-has_no_more left_ring (served f taken) (
        served-has_no_more f taken taken.next_packet
          (next-has_no_more paid_flow batch f.next_packet room)) in
      subst (Turned f rest d.quantum batch) (sym serve_turn) (
        turned
          (subst (λ n. Serves (pending f.next_packet f.queue) n batch taken)
            {x = u32 (f.deficit + d.quantum)} (omega (arith, small))
            (get_next_packets-Serves paid_flow batch (omega (arith, small)) fit))
          (ap (λ (e : Drr). e.flow_ring) back) (ap (λ (e : Drr). e.current_flow) back))
