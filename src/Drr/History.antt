-- ===== src/Drr/History.antt =====
-- core/modules/drr.cc: what a flow with packets waiting sends in the turns it gets.
use nfv.Base.{
  ℕ, suc, ◌+◌, ◌*◌, ◌^◌, ◌≤◌, ◌<◌, ◌≡◌, ap, arith, Option, none, some, List, [], ◌∷◌, if◌then◌else◌,
  ◌++◌, subst,
}
use nfv.Base.Words.{u32}
use nfv.Drr.{Packet, Flow, Taken, get_next_packets, served, idle}
use nfv.Drr.Serve.{pending, Fits, nil, cons, get_next_packets-Serves}

-- What a turn of `f` gives to a batch
abbrev pub turn : ℕ → Flow → List Packet → Taken
turn quantum f batch = get_next_packets (record f { deficit = u32 (f.deficit + quantum) }) batch

-- `Turns quantum bound f n sent g`: in `n` turns, each with a batch that has room when it begins and
-- ended by a packet that the deficit does not cover, the flow `f` sent that many bytes and became
-- `g`, while packets shorter than the bound arrived.
pub data Turns (quantum bound : ℕ) (f : Flow) : ℕ → ℕ → Flow → Type 0 where
  start : Turns quantum bound f 0 0 f
  arrive :
      {n sent : ℕ} {g : Flow} (pkt : Packet)
      → Turns quantum bound f n sent g
      → pkt.total_len < bound
      → Turns quantum bound f n sent (record g { queue = g.queue ++ pkt ∷ [] })
  again :
      {n sent : ℕ} {g : Flow} {pkt : Packet} (batch : List Packet)
      → Turns quantum bound f n sent g
      → (turn quantum g batch).next_packet ≡ some pkt
      → (turn quantum g batch).deficit < pkt.total_len
      → Turns quantum bound f
          (suc n)
          (sent + (turn quantum g batch).bytes)
          (served g (turn quantum g batch))

Fits-weaken :
    {bound : ℕ} (larger : ℕ) {packets : List Packet}
    → bound ≤ larger
    → Fits bound packets
    → Fits larger packets
Fits-weaken larger h nil = nil
Fits-weaken larger h (cons k fit) = cons (omega (arith, h, k)) (Fits-weaken larger h fit)

-- The packets left
Fits-append :
    {bound : ℕ} (sent : List Packet) {left : List Packet}
    → Fits bound (sent ++ left)
    → Fits bound left
Fits-append [] fit = fit
Fits-append (pkt ∷ sent) (cons k fit) = Fits-append sent fit

queue_Fits :
    {bound : ℕ} (queue : List Packet) (pkt : Packet)
    → pkt.total_len < bound
    → Fits bound queue
    → Fits bound (queue ++ pkt ∷ [])
queue_Fits [] pkt h nil = cons h nil
queue_Fits (p ∷ queue) pkt h (cons k fit) = cons k (queue_Fits queue pkt h fit)

pending-Fits :
    {bound : ℕ} (next : Option Packet) (queue : List Packet) (pkt : Packet)
    → pkt.total_len < bound
    → Fits bound (pending next queue)
    → Fits bound (pending next (queue ++ pkt ∷ []))
pending-Fits none queue pkt h fit = queue_Fits queue pkt h fit
pending-Fits (some p) queue pkt h (cons k fit) = cons k (queue_Fits queue pkt h fit)

-- The accounts of a flow
pub record Accounts (quantum bound : ℕ) (f : Flow) (n sent : ℕ) (g : Flow) : Type 0 where
  pub balance : sent + g.deficit ≡ f.deficit + n * quantum
  pub under : g.deficit < bound
  pub waiting : Fits bound (pending g.next_packet g.queue)

head_bound :
    {bound : ℕ} (next : Option Packet) (queue : List Packet) {pkt : Packet}
    → next ≡ some pkt
    → Fits bound (pending next queue)
    → pkt.total_len < bound
head_bound {bound} next queue e fit = first (subst (λ o. Fits bound (pending o queue)) e fit)
  where
    first : {p : Packet} {rest : List Packet} → Fits bound (p ∷ rest) → p.total_len < bound
    first (cons k _) = k

served_deficit :
    (g : Flow) (t : Taken) {pkt : Packet}
    → t.next_packet ≡ some pkt
    → (served g t).deficit ≡ t.deficit
served_deficit g t e = ap (λ o. if idle t.queue o then 0 else t.deficit) e

module _ (quantum bound : ℕ) (f : Flow) (room : quantum + bound < 2 ^ 31)
    (under : f.deficit < bound) (fit : Fits bound (pending f.next_packet f.queue)) where
  -- For a flow whose deficit and packet lengths are below a bound, with the quantum and the bound
  -- together below 2^31: after n turns that each end at a packet the deficit does not cover, with
  -- packets below the bound arriving meanwhile, the bytes sent and the deficit add up to n quanta
  -- and the first deficit, and the deficit is again below the bound.
  pub Turns-Accounts :
      {n sent : ℕ} {g : Flow} → Turns quantum bound f n sent g → Accounts quantum bound f n sent g
  Turns-Accounts start = record { balance = omega arith; under = under; waiting = fit }
  Turns-Accounts (arrive {g = g} pkt h short) =
      let a = Turns-Accounts h in
      record {
        balance = a.balance;
        under = a.under;
        waiting = pending-Fits g.next_packet g.queue pkt short a.waiting;
      }
  Turns-Accounts (again {n} {sent} {g} {pkt} batch h held over) =
      let a = Turns-Accounts h in
      let t = turn quantum g batch in
      let s =
        get_next_packets-Serves (record g { deficit = u32 (g.deficit + quantum) }) batch
          (omega arith) (Fits-weaken (2 ^ 31) (omega (arith, room)) a.waiting) in
      let left = Fits-append s.sent (subst (Fits bound) s.left a.waiting) in
      let same = served_deficit g t held in
      record {
        balance = omega (arith, same, s.paid, a.balance, a.under, room);
        under = omega (arith, same, over, head_bound t.next_packet t.queue held left);
        waiting = left;
      }
