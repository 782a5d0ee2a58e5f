-- ===== src/NicOn/Broadcast.antt =====
-- src/hardware_dep/dpdk/dpdk_nicon.c in main.c: a broadcast.
use t4p4s_ma.Common.{ℕ, suc, ◌-◌, ◌≡◌, ◌<◌, ◌≤◌, arith, none, min, le→ltb}
use t4p4s_ma.MainLoop.{send_clone, send_packet}
use t4p4s_ma.MainLoop.Broadcast.{targets, send_clones, broadcast_packet_lem}
use t4p4s_ma.NicOn.{Config, World, nic_on, send_single_packet, dpdk_send_packet}

-- The clones go to the port that stands for a broadcast, 100, and not to the ports of the card. Where
-- DPDK has room for 100 ports at most, and at least two ports are present, a broadcast is a write out of
-- bounds, as soon as there is one enabled port other than the ingress port.
pub send_packet_broadcast :
    {P S : Type 0} (cfg : Config P S) (ingress_port : ℕ) (w : World P S)
    → cfg.max_ethports ≤ 100
    → 1 < cfg.nb_ports
    → 0 < targets (nic_on cfg) cfg.max_ethports 0 ingress_port
    → send_packet (nic_on cfg) 100 ingress_port w ≡ none
unfolding send_packet send_clones send_clone nic_on send_single_packet dpdk_send_packet
send_packet_broadcast cfg i w few ports one =
    let t = targets (nic_on cfg) cfg.max_ethports 0 i in
    let clones : min (cfg.nb_ports - 1) t ≡ suc (min (cfg.nb_ports - 1) t - 1) = omega arith in
    rw (broadcast_packet_lem (nic_on cfg) 100 i w)
      (rw clones (rw (le→ltb 100 cfg.max_ethports few)))
