-- ===== src/Drr.antt =====
-- core/modules/drr.cc: the task side of the deficit round robin. The queue of a flow and the ring of
-- the flows are lists (Llring is about the rings themselves), the first element in front.
pub mod Serve
pub mod Turn
pub mod History
mod Examples
use nfv.Base.{
  ℕ, ◌+◌, ◌-◌, ◌^◌, Bool, true, false, Option, none, some, List, [], ◌∷◌, ◌++◌, ltb, length, ◌==◌,
  if◌then◌else◌,
}
use nfv.Base.Words.{u32, sub32}

-- A packet by its `total_len()`, and what tells it from others
pub record Packet : Type 0 where
  pub id : ℕ
  pub total_len : ℕ

-- `deficit` is the two's complement of an int.
pub record Flow : Type 0 where
  pub deficit : ℕ
  pub timer : ℕ
  pub queue : List Packet
  pub next_packet : Option Packet

-- What RunTask uses of the module. A flow is in the ring or the current one; `flows_` finds the same
-- flows by their addresses and ports.
pub record Drr : Type 0 where
  pub quantum : ℕ
  pub flow_ring : List Flow
  pub current_flow : Option Flow

-- PacketBatch
abbrev pub full : List Packet → Bool
full batch = length batch == 32

-- `a < b` on ints
pub less : ℕ → ℕ → Bool
less a b = ltb (u32 (a + 2 ^ 31)) (u32 (b + 2 ^ 31))

-- The batch, the flow and `total_bytes` after a call of GetNextPackets
pub record Taken : Type 0 where
  pub batch : List Packet
  pub queue : List Packet
  pub next_packet : Option Packet
  pub deficit : ℕ
  pub bytes : ℕ

-- `pkt` is held back if the deficit does not cover it; `rest` is what follows if it does.
pub give : Packet → List Packet → ℕ → List Packet → Taken → Taken
give pkt queue deficit batch rest =
    if less deficit pkt.total_len
    then record {
      batch = batch;
      queue = queue;
      next_packet = some pkt;
      deficit = deficit;
      bytes = 0;
    }
    else record rest { bytes = u32 (pkt.total_len + rest.bytes) }

abbrev pub stop : List Packet → Option Packet → ℕ → List Packet → Taken
stop queue next deficit batch = record {
  batch = batch;
  queue = queue;
  next_packet = next;
  deficit = deficit;
  bytes = 0;
}

-- The loop, once nothing is held back
unfoldable pub take_queued : List Packet → ℕ → List Packet → Taken
take_queued [] deficit batch = stop [] none deficit batch
take_queued (pkt ∷ queue) deficit batch =
    let rest = take_queued queue (sub32 deficit pkt.total_len) (batch ++ pkt ∷ []) in
    if full batch then stop (pkt ∷ queue) none deficit batch else give pkt queue deficit batch rest

pub get_next_packets : Flow → List Packet → Taken
get_next_packets f batch = elim f.next_packet [
  | none ↦ take_queued f.queue f.deficit batch
  | some pkt ↦
      if full batch
      then stop f.queue (some pkt) f.deficit batch
      else give pkt f.queue f.deficit batch
          (take_queued f.queue (sub32 f.deficit pkt.total_len) (batch ++ pkt ∷ []))
]

abbrev pub is_empty : {A : Type 0} → List A → Bool
is_empty [] = true
is_empty (_ ∷ _) = false

abbrev pub is_none : {A : Type 0} → Option A → Bool
is_none none = true
is_none (some _) = false

-- What GetNextFlow hands back: an error, the null pointer or a flow
pub data Next : Type 0 where
  failed : Next
  skipped : Drr → Next
  found : Flow → Drr → Next

-- `kTtl`, in seconds
abbrev pub ttl : ℕ
ttl = 300

abbrev pub idle : List Packet → Option Packet → Bool
idle queue next = if is_none next then is_empty queue else false

-- The flow taken off the ring: an idle one is dropped when it has expired, and else put back.
unfoldable pub take_turn : ℕ → Drr → Flow → List Flow → Next
take_turn now d f ring =
    if idle f.queue f.next_packet
    then if ltb (f.timer + ttl) now
      then skipped (record d { flow_ring = ring })
      else skipped (record d { flow_ring = ring ++ f ∷ [] })
    else found (record f { deficit = u32 (f.deficit + d.quantum) }) (record d { flow_ring = ring })

pub get_next_flow : ℕ → Drr → Next
get_next_flow now d = elim d.current_flow [
  | none ↦ elim d.flow_ring [ [] ↦ failed | f ∷ ring ↦ take_turn now d f ring ]
  | some f ↦ found f (record d { current_flow = none })
]

-- `!f->next_packet || f->next_packet->total_len() > f->deficit`
abbrev pub has_no_more : ℕ → Option Packet → Bool
has_no_more deficit none = true
has_no_more deficit (some pkt) = less deficit pkt.total_len

-- The flow after GetNextPackets
abbrev pub served : Flow → Taken → Flow
served f t = record f {
  deficit = if idle t.queue t.next_packet then 0 else t.deficit;
  queue = t.queue;
  next_packet = t.next_packet;
}

-- Back to the ring, or kept as the current flow
unfoldable pub put_back : Drr → Flow → Drr
put_back d g =
    if has_no_more g.deficit g.next_packet
    then record d { flow_ring = d.flow_ring ++ g ∷ [] }
    else record d { current_flow = some g }

pub data Visit : Type 0 where
  error : Visit
  visited : Drr → List Packet → ℕ → Visit

-- The loop's body once GetNextFlow has returned
unfoldable pub serve : List Packet → Next → Visit
serve batch failed = error
serve batch (skipped d) = visited d batch 0
serve batch (found f d) =
    let t = get_next_packets f batch in visited (put_back d (served f t)) t.batch t.bytes

-- The body of the loop of GetNextBatch: the module, the batch and the bytes added
pub visit : ℕ → Drr → List Packet → Visit
visit now d batch = serve batch (get_next_flow now d)
