-- ===== src/NicOff/Tests.antt =====
-- A test suite of two test cases run on a small switch.
use t4p4s_ma.Common.{
  ℕ, ◌-◌, ◌≡◌, ◌↔◌, refl, arith, Bool, true, false, none, some, List, [], ◌∷◌, ◌++◌, ◌==◌, pos,
  if◌then◌else◌, min,
}
use t4p4s_ma.Memory.{codes, store_bytes}
use t4p4s_ma.MainLoop.{dpdk_main_loop, ended, broadcast_packet, launch_dpdk}
use t4p4s_ma.MainLoop.Broadcast.{targets, send_clones, broadcast_packet_lem}
use t4p4s_ma.NicOff.{
  Cmd, fake_pkt, fake_setdef, fake_end, Packet, Switch, World, nic_off, port_count, init_lcore_data,
  total_fake_byte_count, fake_bytes, get_wrong_byte_count,
}
use t4p4s_ma.NicOff.Checks.{clone_count}
use t4p4s_ma.NicOff.Run.{packet, pause, set_default}
use t4p4s_ma.NicOff.Verdict.{AllSay, Result, dpdk_main_loop-Result}
use t4p4s_ma.NicOff.Suite.{
  Suite, code, crash, Setup, t4p4s_normal_exit, main, Case, written, SuiteMeets,
}
use t4p4s_ma.NicOff.Exit.{main_lem}

-- A switch that sends each packet as it is to its default port, which is kept as its state, and drops
-- it while the port is 0.
abbrev hub : Switch ℕ
hub = record {
  handle_packet = λ s pd port. (
    s,
    record pd { drop = (if s == 0 then true else false); egress_port = s; ingress_port = port },
  );
  setdef = λ ptr arg s. ptr;
  headroom = 128;
  fresh = λ a. 0;
  max_ethports = 32;
}

abbrev no_packet : Packet
no_packet = record { pkt_len = 0; bytes = λ a. 0; drop = false; egress_port = 0; ingress_port = 0 }

abbrev plain : Setup ℕ
plain = record { init = λ s. s; init_dataplane = λ s. no_packet; flush_tables = λ s. 0 }

abbrev world : World ℕ
world = record {
  is_valid = false;
  idx = 0;
  pkt_idx = 0;
  pd = no_packet;
  encountered_error = false;
  free_mbufs = 1023;
  switch = 0;
}

abbrev fend : Cmd
fend = record {
  action = fake_end;
  ptr = 0;
  in_port = 0;
  in_texts = codes "" ∷ [];
  out_port = 0;
  out_texts = codes "" ∷ [];
}

abbrev fsleep : Cmd
fsleep = record fend { action = fake_pkt }

-- The default port becomes 2.
abbrev to_port_2 : Cmd
to_port_2 = record fend { action = fake_setdef; ptr = 2; in_texts = codes "t" ∷ codes "2" ∷ [] }

abbrev to_all : Cmd
to_all = record fend { action = fake_setdef; ptr = 100; in_texts = codes "t" ∷ codes "a" ∷ [] }

abbrev ping : ℕ → Cmd
ping port = record {
  action = fake_pkt;
  ptr = 0;
  in_port = 1;
  in_texts = codes "0a0B" ∷ codes "ff" ∷ codes "" ∷ [];
  out_port = port;
  out_texts = codes "0a" ∷ codes "0bff" ∷ codes "" ∷ [];
}

abbrev bytes : List ℕ
bytes = 10 ∷ 11 ∷ 255 ∷ []

ping_reads : fake_bytes (ping 2).in_texts ≡ some bytes
unfolding fake_bytes
ping_reads = refl

ping_expects : fake_bytes (ping 2).out_texts ≡ some bytes
unfolding fake_bytes
ping_expects = refl

abbrev first_case : Case
first_case = record {
  cmds = ping 2 ∷ fsleep ∷ to_port_2 ∷ ping 2 ∷ [];
  steps = packet bytes 1 2 bytes ∷ pause ∷ set_default 2 (codes "2") ∷ packet bytes 1 2 bytes ∷ [];
  last = fend;
  rest = [];
}

abbrev second_case : Case
second_case = record {
  cmds = to_all ∷ ping 100 ∷ [];
  steps = set_default 100 (codes "a") ∷ packet bytes 1 100 bytes ∷ [];
  last = fend;
  rest = fend ∷ [];
}

abbrev suite : Suite
suite = written (first_case ∷ second_case ∷ []) []

suite_passes : main hub plain suite 10 (λ i. []) world ≡ code (pos 0)
unfolding main dpdk_main_loop broadcast_packet nic_off init_lcore_data total_fake_byte_count
    fake_bytes get_wrong_byte_count store_bytes
suite_passes = refl

-- The port that is expected of the last packet is not the one it is sent on.
abbrev wrong_suite : Suite
wrong_suite = some (to_all ∷ ping 2 ∷ fend ∷ []) ∷ none ∷ []

suite_fails : main hub plain wrong_suite 10 (λ i. []) world ≡ code (pos 3)
unfolding main dpdk_main_loop broadcast_packet nic_off init_lcore_data total_fake_byte_count
    fake_bytes get_wrong_byte_count store_bytes
suite_fails = refl

-- A broadcast takes four buffers, for its packet and three clones, and none is given back: where the pool
-- has no more than four, the next packet is made in a null pointer.
pool_empty :
    main hub plain
      (some (to_all ∷ ping 100 ∷ ping 100 ∷ fend ∷ []) ∷ none ∷ [])
      10
      (λ i. [])
      (record world { free_mbufs = 4 })
    ≡ crash
unfolding main dpdk_main_loop broadcast_packet nic_off init_lcore_data total_fake_byte_count
    fake_bytes get_wrong_byte_count store_bytes
pool_empty = refl

first_says : AllSay hub first_case.cmds first_case.steps
first_says = (
  (refl, refl, ping_reads, omega arith, refl, refl, ping_expects),
  (
    (refl, refl),
    ((refl, refl, refl), ((refl, refl, ping_reads, omega arith, refl, refl, ping_expects), tt)),
  ),
)

second_says : AllSay hub second_case.cmds second_case.steps
second_says =
    ((refl, refl, refl), ((refl, refl, ping_reads, omega arith, refl, refl, ping_expects), tt))

dpdk_main_loop-Result_example :
    (w' : World ℕ) × (dpdk_main_loop
        (nic_off hub (first_case.cmds ++ fend ∷ []))
        5
        (init_lcore_data world)
      ≡ ended w')
    × Result hub first_case.steps world w'
unfolding clone_count
dpdk_main_loop-Result_example =
    dpdk_main_loop-Result hub first_case.cmds first_case.steps fend [] world 5 (omega arith)
      first_says refl (omega arith) (omega arith)

main_lem_example :
    (e : Bool) × (main hub plain suite 10 (λ i. []) world ≡ code (t4p4s_normal_exit e))
    × ((e ≡ false) ↔ (
        (world.encountered_error ≡ false) × SuiteMeets hub plain (first_case ∷ second_case ∷ []) 0))
unfolding clone_count port_count
main_lem_example =
    main_lem hub plain (λ i. []) 10 (first_case ∷ second_case ∷ []) [] world (omega arith)
      (first_says, refl, omega arith, (second_says, refl, omega arith, tt)) (omega arith)
      (unfold launch_dpdk in λ k. refl)

broadcast_packet_lem_example :
    broadcast_packet (nic_off hub (to_all ∷ fend ∷ [])) 100 1 world
    ≡ send_clones
        (nic_off hub (to_all ∷ fend ∷ []))
        (min
          ((nic_off hub (to_all ∷ fend ∷ [])).port_count - 1)
          (targets (nic_off hub (to_all ∷ fend ∷ [])) 32 0 1))
        100
        1
        world
unfolding nic_off
broadcast_packet_lem_example = broadcast_packet_lem (nic_off hub (to_all ∷ fend ∷ [])) 100 1 world
