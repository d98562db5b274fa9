-- ===== src/Drr/Serve.antt =====
-- core/modules/drr.cc: what a visit of a flow takes from it.
use nfv.Base.{
  ℕ, ◌+◌, ◌^◌, ◌≤◌, ◌<◌, ◌≡◌, refl, sym, ap, ◌∙◌, arith, true, false, Option, none, some, List, [],
  ◌∷◌, ◌++◌, append_assoc, append-nil, if_split,
}
use nfv.Base.Words.{u32, sub32}
use nfv.Drr.{Packet, Flow, full, less, Taken, give, stop, take_queued, get_next_packets}

-- The packets of a flow, in the order of their arrival
abbrev pub pending : Option Packet → List Packet → List Packet
pending none queue = queue
pending (some pkt) queue = pkt ∷ queue

abbrev pub total : List Packet → ℕ
total [] = 0
total (pkt ∷ rest) = pkt.total_len + total rest

-- Lengths below a bound
pub data Fits (bound : ℕ) : List Packet → Type 0 where
  nil : Fits bound []
  cons :
      {pkt : Packet} {rest : List Packet}
      → pkt.total_len < bound
      → Fits bound rest
      → Fits bound (pkt ∷ rest)

-- Why GetNextPackets stops
pub data Stops (t : Taken) : Type 0 where
  batch_full : full t.batch ≡ true → Stops t
  drained : t.next_packet ≡ none → t.queue ≡ [] → Stops t
  too_long : {pkt : Packet} → t.next_packet ≡ some pkt → t.deficit < pkt.total_len → Stops t

-- `t` is what a flow with the packets `packets` and this deficit gives to `batch`: the packets
-- `sent`, in their order, which the deficit pays for.
pub record Serves (packets : List Packet) (deficit : ℕ) (batch : List Packet) (t : Taken)
    : Type 0 where
  pub sent : List Packet
  pub added : t.batch ≡ batch ++ sent
  pub left : packets ≡ sent ++ pending t.next_packet t.queue
  pub counted : t.bytes ≡ total sent
  pub paid : t.deficit + t.bytes ≡ deficit
  pub ends : Stops t

less-true : (a b : ℕ) → a < 2 ^ 31 → b < 2 ^ 31 → less a b ≡ true → a < b
unfolding less
less-true a b h k e = ground arith

less-false : (a b : ℕ) → a < 2 ^ 31 → b < 2 ^ 31 → less a b ≡ false → b ≤ a
unfolding less
less-false a b h k e = ground arith

nothing_sent :
    (queue : List Packet) (next : Option Packet) (deficit : ℕ) (batch : List Packet)
    → Stops (stop queue next deficit batch)
    → Serves (pending next queue) deficit batch (stop queue next deficit batch)
nothing_sent queue next deficit batch e = record {
  sent = [];
  added = sym (append-nil batch);
  left = refl;
  counted = refl;
  paid = omega arith;
  ends = e;
}

Stops-again : {t : Taken} (n : ℕ) → Stops t → Stops (record t { bytes = n })
Stops-again n (batch_full e) = batch_full e
Stops-again n (drained e g) = drained e g
Stops-again n (too_long e lt) = too_long e lt

give-Serves :
    (pkt : Packet) (queue : List Packet) (deficit : ℕ) (batch : List Packet) (rest : Taken)
    → deficit < 2 ^ 31
    → pkt.total_len < 2 ^ 31
    → (pkt.total_len ≤ deficit
        → Serves queue (sub32 deficit pkt.total_len) (batch ++ pkt ∷ []) rest)
    → Serves (pkt ∷ queue) deficit batch (give pkt queue deficit batch rest)
unfolding give
give-Serves pkt queue deficit batch rest h k later =
    if_split (Serves (pkt ∷ queue) deficit batch) (less deficit pkt.total_len)
      (λ short.
        nothing_sent queue (some pkt) deficit batch
          (too_long refl (less-true deficit pkt.total_len h k short)))
      (λ covered.
        let low = less-false deficit pkt.total_len h k covered in
        let r = later low in
        record {
          sent = pkt ∷ r.sent;
          added = r.added ∙ append_assoc batch (pkt ∷ []) r.sent;
          left = ap (pkt ∷◌) r.left;
          counted = omega (arith, low, r.counted, r.paid, k, h);
          paid = omega (arith, low, r.paid, k, h);
          ends = Stops-again (u32 (pkt.total_len + rest.bytes)) r.ends;
        })

take_queued-Serves :
    (queue : List Packet) (deficit : ℕ) (batch : List Packet)
    → deficit < 2 ^ 31
    → Fits (2 ^ 31) queue
    → Serves queue deficit batch (take_queued queue deficit batch)
unfolding take_queued
take_queued-Serves [] deficit batch h fit = nothing_sent [] none deficit batch (drained refl refl)
take_queued-Serves (pkt ∷ queue) deficit batch h (cons k fit) =
    if_split (Serves (pkt ∷ queue) deficit batch) (full batch)
      (λ e. nothing_sent (pkt ∷ queue) none deficit batch (batch_full e))
      (λ _.
        give-Serves pkt queue deficit batch
          (take_queued queue (sub32 deficit pkt.total_len) (batch ++ pkt ∷ [])) h k
          (λ low.
            take_queued-Serves queue (sub32 deficit pkt.total_len) (batch ++ pkt ∷ []) (omega arith)
              fit))

from_next :
    (f : Flow) (batch : List Packet) (next : Option Packet)
    → f.deficit < 2 ^ 31
    → Fits (2 ^ 31) (pending next f.queue)
    → Serves
        (pending next f.queue)
        f.deficit
        batch
        (get_next_packets (record f { next_packet = next }) batch)
unfolding get_next_packets
from_next f batch none h fit = take_queued-Serves f.queue f.deficit batch h fit
from_next f batch (some pkt) h (cons k fit) =
    if_split (Serves (pkt ∷ f.queue) f.deficit batch) (full batch)
      (λ e. nothing_sent f.queue (some pkt) f.deficit batch (batch_full e))
      (λ _.
        give-Serves pkt f.queue f.deficit batch
          (take_queued f.queue (sub32 f.deficit pkt.total_len) (batch ++ pkt ∷ [])) h k
          (λ low.
            take_queued-Serves f.queue (sub32 f.deficit pkt.total_len) (batch ++ pkt ∷ [])
              (omega arith) fit))

-- For a flow whose deficit and packet lengths are below 2^31, GetNextPackets adds to the batch the
-- first packets of the flow, in their order, and leaves the others in order; the bytes it returns
-- are the sum of their lengths and exactly what the deficit lost. It stops only if the batch is
-- full, the flow has no packets left, or the packet held back is longer than the deficit.
pub get_next_packets-Serves :
    (f : Flow) (batch : List Packet)
    → f.deficit < 2 ^ 31
    → Fits (2 ^ 31) (pending f.next_packet f.queue)
    → Serves (pending f.next_packet f.queue) f.deficit batch (get_next_packets f batch)
get_next_packets-Serves f batch h fit = from_next f batch f.next_packet h fit
