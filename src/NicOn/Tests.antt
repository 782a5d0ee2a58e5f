-- ===== src/NicOn/Tests.antt =====
-- A core with two ports, whose card takes three packets of a burst.
use t4p4s_ma.Common.{
  ℕ, ◌+◌, ◌≡◌, ◌≤◌, refl, arith, false, none, some, [], ◌∷◌, ◌++◌, ◌==◌, inr, if◌then◌else◌, min,
}
use t4p4s_ma.MainLoop.{send_packet, rounds, goes_on}
use t4p4s_ma.MainLoop.Broadcast.{targets}
use t4p4s_ma.NicOn.{
  Driver, Config, World, nic_on, dpdk_send_packet, tx_burst_queue_drain, transmitted, freed,
}
use t4p4s_ma.NicOn.Fates.{fates_on}
use t4p4s_ma.NicOn.Trail.{IsValid, Bursts, trail, dpdk_send_packet_lem}
use t4p4s_ma.NicOn.Drain.{tx_burst_queue_drain_sends}
use t4p4s_ma.NicOn.Safe.{IsSafe, rounds-IsValid}
use t4p4s_ma.NicOn.Broadcast.{send_packet_broadcast}

at_most_three : (time port n : ℕ) → min n 3 ≤ n
at_most_three time port n = omega arith

abbrev driver : Driver ℕ
driver = record {
  tx_burst = λ time port n. min n 3;
  tx_burst_le = at_most_three;
  rx_burst = λ time port queue. time ∷ [];
  rdtsc = λ time. 100 + time;
}

-- The switch sends each packet to port 1.
abbrev cfg : Config ℕ ℕ
cfg = record {
  driver = driver;
  handle_packet =
      λ s p port. (s, record { wrapper = p; drop = false; egress_port = 1; ingress_port = port });
  clone = λ p. p;
  rx_queue_list = record { port_id = 0; queue_id = 0 } ∷ [];
  drain_tsc = 50;
  nb_ports = 2;
  enabled_port_mask = 3;
  max_ethports = 32;
}

abbrev filled : ℕ → World ℕ ℕ
filled n = record {
  tx_mbufs = λ q. record { len = (if q == 1 then n else 0); m_table = λ i. i };
  prev_tsc = 0;
  pkts_burst = [];
  pd = record { wrapper = 0; drop = false; egress_port = 0; ingress_port = 0 };
  switch = 0;
  time = 0;
  fates = [];
}

filled-IsValid : IsValid cfg (filled 5)
filled-IsValid = record { room = λ q. ground arith }

to_port_1 : IsSafe cfg
to_port_1 = λ s p port. inr (omega arith)

-- The drain gives the card five packets, of which it takes three.
drained :
    (tx_burst_queue_drain cfg (filled 5)).fates
    ≡ transmitted 1 0 ∷ transmitted 1 1 ∷ transmitted 1 2 ∷ freed 1 3 ∷ freed 1 4 ∷ []
unfolding tx_burst_queue_drain
drained = refl

dpdk_send_packet_lem_example :
    (w' : World ℕ ℕ) × (dpdk_send_packet cfg 77 1 (filled 5) ≡ some w')
    × IsValid cfg w'
    × ((q : ℕ) → trail cfg q w' ≡ trail cfg q (filled 5) ++ (if 1 == q then 77 ∷ [] else []))
    × (w'.pkts_burst ≡ [])
    × Bursts cfg 77 1 (filled 5) w'
dpdk_send_packet_lem_example = dpdk_send_packet_lem cfg 77 1 (filled 5) filled-IsValid (omega arith)

tx_burst_queue_drain_sends_example :
    fates_on 1 (tx_burst_queue_drain cfg (filled 5)).fates ≡ trail cfg 1 (filled 5)
tx_burst_queue_drain_sends_example = tx_burst_queue_drain_sends cfg (filled 5) 1 refl (omega arith)

rounds-IsValid_example :
    (w' : World ℕ ℕ) × (rounds (nic_on cfg) 1000 (filled 5) ≡ goes_on w') × IsValid cfg w'
rounds-IsValid_example = rounds-IsValid cfg 1000 (filled 5) (omega arith) to_port_1 filled-IsValid

send_packet_broadcast_example : send_packet (nic_on cfg) 100 0 (filled 5) ≡ none
send_packet_broadcast_example =
    send_packet_broadcast cfg 0 (filled 5) (omega arith) (omega arith)
      (unfold targets in unfold nic_on in omega arith)
