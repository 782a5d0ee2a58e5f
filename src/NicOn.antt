-- ===== src/NicOn.antt =====
-- src/hardware_dep/dpdk/dpdk_nicon.c: the variant with network cards, whose packets wait in a buffer
-- for each port until there are enough for a burst, or until the time is over.
pub mod Safe
pub mod Broadcast
mod Tests
pub mod Fates
pub mod Trail
pub mod Drain
use t4p4s_ma.Common.{
  ℕ, zero, suc, ◌+◌, ◌-◌, ◌*◌, ◌/◌, ◌%◌, ◌^◌, ◌≤◌, Bool, true, false, Option, none, some, List, [],
  ◌∷◌, ◌++◌, ltb, leb, ◌==◌, length, get_elem?, take, drop, if◌then◌else◌,
}
use t4p4s_ma.MainLoop.{Nic, ◌>>=◌}

abbrev pub max_pkt_burst : ℕ
max_pkt_burst = 32

-- `struct mbuf_table`
pub record Buffer (P : Type 0) : Type 0 where
  pub len : ℕ
  pub m_table : ℕ → P

-- What became of a packet: it went out on a port, or its buffer was freed.
pub data Fate (P : Type 0) : Type 0 where
  transmitted : ℕ → P → Fate P
  freed : ℕ → P → Fate P
  dropped : P → Fate P

-- The driver, whose answers depend on how many calls there were before: how many packets
-- `rte_eth_tx_burst` takes, what `rte_eth_rx_burst` gives, and the clock `rte_rdtsc`.
pub record Driver (P : Type 0) : Type 0 where
  pub tx_burst : ℕ → ℕ → ℕ → ℕ
  pub tx_burst_le : (time port n : ℕ) → tx_burst time port n ≤ n
  pub rx_burst : ℕ → ℕ → ℕ → List P
  pub rdtsc : ℕ → ℕ

-- The metadata that main.c reads, and the packet.
pub record Packet (P : Type 0) : Type 0 where
  pub wrapper : P
  pub drop : Bool
  pub egress_port : ℕ
  pub ingress_port : ℕ

-- A receiving queue of the core: `rx_queue_list[i]`.
pub record RxQueue : Type 0 where
  pub port_id : ℕ
  pub queue_id : ℕ

-- What does not change while the core runs: its configuration, the ports, the switch, the clones that
-- `rte_pktmbuf_clone` makes.
pub record Config (P S : Type 0) : Type 0 where
  pub driver : Driver P
  pub handle_packet : S → P → ℕ → S × Packet P
  pub clone : P → P
  pub rx_queue_list : List RxQueue
  pub drain_tsc : ℕ
  pub nb_ports : ℕ
  pub enabled_port_mask : ℕ
  pub max_ethports : ℕ

pub record World (P S : Type 0) : Type 0 where
  pub tx_mbufs : ℕ → Buffer P
  pub prev_tsc : ℕ
  pub pkts_burst : List P
  pub pd : Packet P
  pub switch : S
  -- how many calls of the driver there were, and what became of packets, the first first
  pub time : ℕ
  pub fates : List (Fate P)

module _ {P : Type 0} where
  -- `n` entries of the table from `i` on.
  unfoldable pub entries : (ℕ → P) → ℕ → ℕ → List P
  entries table i zero = []
  entries table i (suc n) = table i ∷ entries table (i + 1) n

  abbrev pub all_as : (P → Fate P) → List P → List (Fate P)
  all_as fate [] = []
  all_as fate (p ∷ ps) = fate p ∷ all_as fate ps

module _ {P S : Type 0} (cfg : Config P S) where
  -- `send_burst`: what the driver does not take is freed.
  unfoldable pub send_burst : ℕ → ℕ → World P S → World P S
  unfolding entries
  send_burst n port w =
      let table = (w.tx_mbufs port).m_table in
      let ret = cfg.driver.tx_burst w.time port n in
      record w {
        time = w.time + 1;
        fates =
            w.fates
            ++ (all_as (transmitted port) (entries table 0 ret)
                ++ all_as (freed port) (entries table ret (n - ret)));
      }

  abbrev pub set_buffer : ℕ → Buffer P → World P S → World P S
  set_buffer port b w = record w { tx_mbufs = λ q. if port == q then b else w.tx_mbufs q }

  -- The loop of `tx_burst_queue_drain`, with `n` ports left from `portid` on.
  unfoldable pub drain_from : ℕ → ℕ → World P S → World P S
  unfolding send_burst
  drain_from zero portid w = w
  drain_from (suc n) portid w =
      let b = w.tx_mbufs portid in
      drain_from n (portid + 1) (
        if b.len == 0
        then w
        else set_buffer portid (record b { len = 0 }) (send_burst b.len portid w))

  unfoldable pub tx_burst_queue_drain : World P S → World P S
  unfolding drain_from
  tx_burst_queue_drain w =
      let cur_tsc = cfg.driver.rdtsc w.time in
      let diff_tsc = (cur_tsc + 2 ^ 64 - w.prev_tsc) % 2 ^ 64 in
      let w₁ = record w { time = w.time + 1 } in
      if ltb cfg.drain_tsc diff_tsc
      then record (drain_from cfg.nb_ports 0 w₁) { prev_tsc = cur_tsc }
      else w₁

  -- `add_packet_to_queue`: the queue's new length, which is not stored yet.
  unfoldable pub add_packet_to_queue : P → ℕ → World P S → ℕ × World P S
  add_packet_to_queue mbuf port w =
      let b = w.tx_mbufs port in
      (
        (b.len + 1) % 2 ^ 16,
        set_buffer port (record b { m_table = λ i. if i == b.len then mbuf else b.m_table i }) w,
      )

  abbrev pub set_len : ℕ → ℕ → World P S → World P S
  set_len port len w = set_buffer port (record (w.tx_mbufs port) { len = len }) w

  -- `dpdk_send_packet`; a port that has no buffer is a write out of bounds.
  unfoldable pub dpdk_send_packet : P → ℕ → World P S → Option (World P S)
  unfolding add_packet_to_queue send_burst
  dpdk_send_packet mbuf port w =
      if ltb port cfg.max_ethports
      then (let (queue_length, w₁) = add_packet_to_queue mbuf port w in
          if queue_length == max_pkt_burst
          then some (set_len port 0 (send_burst max_pkt_burst port w₁))
          else some (set_len port queue_length w₁))
      else none

  -- `send_single_packet`: the port is cut to a byte.
  unfoldable pub send_single_packet : P → ℕ → ℕ → World P S → Option (World P S)
  unfolding dpdk_send_packet
  send_single_packet pkt egress_port ingress_port w = dpdk_send_packet pkt (egress_port % 256) w

  unfoldable pub receive_packet : ℕ → World P S → Option (Bool × World P S)
  receive_packet pkt_idx w = do
    p ← get_elem? w.pkts_burst pkt_idx
    some (true, record w { pd = record w.pd { wrapper = p } })

  unfoldable pub get_portid : ℕ → World P S → Option ℕ
  get_portid queue_idx w = do q ← get_elem? cfg.rx_queue_list queue_idx; some q.port_id

  unfoldable pub main_loop_rx_group : ℕ → World P S → Option (World P S)
  main_loop_rx_group queue_idx w = do
    q ← get_elem? cfg.rx_queue_list queue_idx
    some (record w {
      pkts_burst = take max_pkt_burst (cfg.driver.rx_burst w.time (q.port_id % 256) q.queue_id);
      time = w.time + 1;
    })

  abbrev pub handle_packet : ℕ → World P S → World P S
  handle_packet port w =
      let (s, pd) = cfg.handle_packet w.switch w.pd.wrapper port in record w { switch = s; pd = pd }

  abbrev pub free_packet : World P S → World P S
  free_packet w = record w { fates = w.fates ++ dropped w.pd.wrapper ∷ [] }

  unfoldable pub nic_on : Nic P (World P S)
  unfolding tx_burst_queue_drain send_single_packet receive_packet get_portid main_loop_rx_group
  nic_on = record {
    is_valid = λ w. if length cfg.rx_queue_list == 0 then false else true;
    core_is_working = λ w. some true;
    main_loop_pre_rx = λ w. some (tx_burst_queue_drain w);
    main_loop_post_rx = some;
    get_queue_count = λ w. length cfg.rx_queue_list;
    main_loop_rx_group = main_loop_rx_group;
    get_pkt_count_in_group = λ w. length w.pkts_burst;
    receive_packet = receive_packet;
    is_packet_handled = λ w. some true;
    get_portid = get_portid;
    main_loop_post_single_rx = λ got_packet w. some w;
    handle_packet = handle_packet;
    drop = λ w. w.pd.drop;
    egress_port = λ w. w.pd.egress_port;
    ingress_port = λ w. w.pd.ingress_port;
    wrapper = λ w. w.pd.wrapper;
    clone_packet = λ p w. (cfg.clone p, w);
    free_packet = free_packet;
    send_single_packet = send_single_packet;
    port_count = cfg.nb_ports;
    port_mask = cfg.enabled_port_mask;
    max_ethports = cfg.max_ethports;
  }
