-- ===== src/Drr/Examples.antt =====
-- Flows of the deficit round robin (core/modules/drr.cc).
use nfv.Base.{ℕ, zero, suc, map, ◌^◌, ◌≡◌, refl, arith, none, some, List, [], ◌∷◌, tabulate}
use nfv.Drr.{
  Packet, Flow, Drr, less, give, take_queued, get_next_packets, visit, serve, error, visited,
  get_next_flow, take_turn, put_back, served,
}
use nfv.Drr.History.{Turns, turn, start, again, Accounts, Turns-Accounts}
use nfv.Drr.Serve.{Fits, nil, cons, pending, Serves, get_next_packets-Serves}
use nfv.Drr.Turn.{Turned, visit-Turned}

abbrev short : Packet
short = record { id = 1; total_len = 60 }

abbrev long : Packet
long = record { id = 2; total_len = 1500 }

-- One packet is held back, two are queued.
abbrev flow : Flow
flow = record { deficit = 1600; timer = 0; queue = short ∷ long ∷ []; next_packet = some short }

abbrev flow_Fits : Fits (2 ^ 31) (pending flow.next_packet flow.queue)
flow_Fits = cons (omega arith) (cons (omega arith) (cons (omega arith) nil))

-- The deficit does not cover the third packet.
held_back : (get_next_packets flow []).next_packet ≡ some long
unfolding get_next_packets give take_queued less
held_back = refl

get_next_packets-Serves_example :
    Serves (short ∷ short ∷ long ∷ []) 1600 [] (get_next_packets flow [])
get_next_packets-Serves_example = get_next_packets-Serves flow [] (omega arith) flow_Fits

abbrev module_state : Drr
module_state = record { quantum = 1500; flow_ring = []; current_flow = none }

visit-Turned_example :
    Turned flow
      (flow ∷ [])
      1500
      []
      (visit 7 (record module_state { flow_ring = flow ∷ flow ∷ [] }) [])
visit-Turned_example =
    visit-Turned 7 module_state flow (flow ∷ []) [] refl refl (omega arith) flow_Fits

-- A flow that the end of the batch cuts short keeps its deficit, goes to the back of the ring and
-- gets another quantum on top of it.
abbrev many : Flow
many = record {
  deficit = 0;
  timer = 0;
  queue = tabulate 100 (λ i. record { id = i; total_len = 10 });
  next_packet = none;
}

abbrev deficits : List Flow → List ℕ
deficits [] = []
deficits (f ∷ ring) = f.deficit ∷ deficits ring

abbrev after : ℕ → Drr → List ℕ
after zero d = deficits d.flow_ring
after (suc n) d = elim (visit 7 d []) [ error ↦ [] | visited e _ _ ↦ after n e ]

cut_short :
    map (λ n. after n (record module_state { flow_ring = many ∷ [] })) (1 ∷ 2 ∷ 3 ∷ [])
    ≡ (1180 ∷ []) ∷ (2360 ∷ []) ∷ (3540 ∷ []) ∷ []
unfolding visit get_next_flow take_turn put_back serve get_next_packets give take_queued less
cut_short = refl

-- Packets of 60 bytes from a quantum of 100: the first turn sends one packet and holds the next.
abbrev waiting : Flow
waiting = record { deficit = 0; timer = 0; queue = short ∷ short ∷ short ∷ []; next_packet = none }

abbrev waiting_Fits : Fits 100 waiting.queue
waiting_Fits = cons (omega arith) (cons (omega arith) (cons (omega arith) nil))

abbrev first : Turns 100 100 waiting 1 60 (served waiting (turn 100 waiting []))
unfolding get_next_packets give take_queued less
first = again [] start refl (omega arith)

Turns-Accounts_example : Accounts 100 100 waiting 1 60 (served waiting (turn 100 waiting []))
Turns-Accounts_example =
    Turns-Accounts 100 100 waiting (omega arith) (omega arith) waiting_Fits first
