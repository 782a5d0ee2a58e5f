-- ===== src/Controller/Tests.antt =====
-- The controllers' messages in a world whose sockets split the bytes.
use t4p4s_ma.Common.{
  ℕ, ◌≡◌, refl, true, false, List, [], ◌∷◌, arith, replicate, length-replicate, negsuc,
}
use t4p4s_ma.Sock.{at_most}
use t4p4s_ma.Controller.Parts.{Mac, Ip}
use t4p4s_ma.Controller.Session.{World, IsSteady, AllConvey}
use t4p4s_ma.Fifo.{Fifo, init}
use t4p4s_ma.Fifo.Inv.{IsValid, init-IsValid}
use t4p4s_ma.Controller.Outbox.{Outbox, Turn, sends, takes, run}
use t4p4s_ma.Controller.Outbox.Kept.{Queued, AreSent, Kept, run-Kept}
use t4p4s_ma.Controller.Outbox.Sent.{Arrives, AllConvey-AreSent}
use t4p4s_ma.Controller.L2fwd
use t4p4s_ma.Controller.L2fwd.Delivery.{init_orders, init_lem}
use t4p4s_ma.Controller.L3fwd
use t4p4s_ma.Controller.L3fwd.Delivery.{l3_init_orders, init_complex_lem}
use t4p4s_ma.Controller.Portfwd
use t4p4s_ma.Controller.Smgw
use t4p4s_ma.Controller.Smgw.Delivery

abbrev pub world : World
world = record {
  buffer = λ a. 1;
  junk = λ a. 2;
  cell = λ a. 3;
  stack = record {
    typ = 0;
    xid = 0;
    table_name = 0;
    action_type = 0;
    action_name = 0;
    num_action_params = 0;
    action_params = λ i. 0;
    num_field_matches = 0;
    field_matches = λ i. 0;
  };
  writes = at_most 2 ∷ at_most 0 ∷ at_most 99 ∷ [];
  reads = at_most 0 ∷ at_most 5 ∷ [];
}

pub world-IsSteady : IsSteady world
world-IsSteady = record { writes = tt; reads = tt }

abbrev pub mac : Mac
mac = record { b0 = 210; b1 = 105; b2 = 15; b3 = 168; b4 = 57; b5 = 156 }

abbrev pub ip : Ip
ip = record { b0 = 10; b1 = 0; b2 = 99; b3 = 99 }

abbrev macs : List (ℕ × Mac)
macs = (1, mac) ∷ (2, mac) ∷ []

-- An empty queue, and the turns of a busy output thread.
abbrev no_messages : Fifo
no_messages = record { queue = replicate 1024 0; head = 0; size = 0; tail = negsuc 0 }

no_messages-IsValid : IsValid no_messages × (no_messages.size ≡ 0)
no_messages-IsValid =
    init-IsValid (replicate 1024 0) 0 0 0 (length-replicate {A = ℕ} 1024 0) (unfold init in refl)

abbrev outbox : Outbox
outbox = record { output_queue = no_messages; made = 0; cells = λ p. (λ a. 0, 0) }

outbox-Queued : Queued world outbox []
outbox-Queued = record { valid = no_messages-IsValid.0; stand = tt }

abbrev turns : List Turn
turns = sends ∷ takes ∷ takes ∷ sends ∷ sends ∷ takes ∷ []

sent : AreSent world (L2fwd.init macs)
sent =
    AllConvey-AreSent world (L2fwd.init macs) (init_orders macs)
      (init_lem world world-IsSteady macs outbox turns outbox-Queued (omega arith)).0

run-Kept_example : Kept world (L2fwd.init macs) (run world turns (L2fwd.init macs) outbox)
unfolding L2fwd.init L2fwd.fill_all
run-Kept_example = run-Kept world turns [] (L2fwd.init macs) outbox outbox-Queued sent (omega arith)

init_lem_example :
    AllConvey world (L2fwd.init macs) (init_orders macs)
    × Kept world (L2fwd.init macs) (run world turns (L2fwd.init macs) outbox)
    × Arrives world (L2fwd.init macs) outbox
init_lem_example = init_lem world world-IsSteady macs outbox turns outbox-Queued (omega arith)

abbrev l3_lines : List L3fwd.Line
l3_lines =
    L3fwd.mac_line mac
    ∷ L3fwd.lpm_line ip 16 70000
    ∷ L3fwd.hop_line 1 15 mac mac
    ∷ L3fwd.wrong_format
    ∷ L3fwd.mac_line mac
    ∷ []

init_complex_lem_example : AllConvey world (L3fwd.init_complex l3_lines) (l3_init_orders l3_lines)
init_complex_lem_example = init_complex_lem world world-IsSteady l3_lines (omega arith, tt)

abbrev up : Portfwd.Link
up = record { with_mac = true; mac = mac; port = 0; inport = 1 }

abbrev down : Portfwd.Link
down = record { with_mac = false; mac = mac; port = 1; inport = 0 }

abbrev smgw_lines : List Smgw.Line
smgw_lines =
    Smgw.ue_line ip 80 1 77 ip
    ∷ Smgw.teid_line 300 2
    ∷ Smgw.filter_line 1 0
    ∷ Smgw.lpm_line ip 24 3
    ∷ Smgw.forward_line 3 1 mac mac
    ∷ Smgw.smac_line
    ∷ Smgw.wrong_format
    ∷ []
