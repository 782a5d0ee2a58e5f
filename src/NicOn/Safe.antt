-- ===== src/NicOn/Safe.antt =====
-- src/hardware_dep/dpdk/dpdk_nicon.c in the loop of main.c: the buffers have room in every round, and
-- the loop does not end.
use t4p4s_ma.Common.{
  ℕ, zero, suc, ◌+◌, ◌%◌, ◌≡◌, ◌<◌, ◌≤◌, refl, ◌∙◌, arith, true, ==_ne, length, get_or, take,
  get_elem?-eq-get_or, Bool-cases, ◌⊎◌, inl, inr, Option, some,
}
use t4p4s_ma.MainLoop.{
  do_single_tx, process, do_single_rx, rx_packets, rx_queues, round, rounds, goes_on, send_packet,
}
use t4p4s_ma.MainLoop.Tx.{do_single_tx_dropped, do_single_tx_kept}
use t4p4s_ma.MainLoop.Rounds.{rounds_goes_on}
use t4p4s_ma.NicOn.{
  Config, World, RxQueue, max_pkt_burst, nic_on, tx_burst_queue_drain, dpdk_send_packet,
  send_single_packet, receive_packet, get_portid, main_loop_rx_group, handle_packet,
}
use t4p4s_ma.NicOn.Trail.{IsValid, dpdk_send_packet_lem}
use t4p4s_ma.NicOn.Drain.{tx_burst_queue_drain-Drains}

module _ {P S : Type 0} (cfg : Config P S) where
  -- The switch drops each packet, or sends it to a port that there can be.
  abbrev pub IsSafe : Type 0
  IsSafe =
      (s : S) (p : P) (port : ℕ)
      → ((cfg.handle_packet s p port).1.drop ≡ true)
        ⊎ ((cfg.handle_packet s p port).1.egress_port < cfg.max_ethports)

  -- The step gives a valid state with the same packets received.
  abbrev Keeps : World P S → Option (World P S) → Type 0
  Keeps w r = (w' : World P S) × (r ≡ some w') × IsValid cfg w' × (w'.pkts_burst ≡ w.pkts_burst)

  send_packet_lem :
      (e i : ℕ) (w : World P S)
      → e < 100
      → send_packet (nic_on cfg) e i w ≡ dpdk_send_packet cfg w.pd.wrapper e w
  unfolding nic_on send_packet send_single_packet
  send_packet_lem e i w h =
      let small : e % 256 ≡ e = omega arith in
      rw (==_ne e 100 (λ f. absurd (omega (arith, f))), small)

  do_single_tx-Keeps :
      (w : World P S)
      → cfg.max_ethports ≤ 100
      → IsValid cfg w
      → (w.pd.drop ≡ true) ⊎ (w.pd.egress_port < cfg.max_ethports)
      → Keeps w (do_single_tx (nic_on cfg) w)
  unfolding nic_on
  do_single_tx-Keeps w few v safe = elim (Bool-cases w.pd.drop) [
    | inl gone ↦ (_, do_single_tx_dropped (nic_on cfg) w gone, record { room = v.room }, refl)
    | inr kept ↦
        let present : w.pd.egress_port < cfg.max_ethports = elim safe [
          | inl gone ↦ absurd (cc (kept, gone))
          | inr h ↦ h
        ] in
        let (w', run, v', _, same, _) =
          dpdk_send_packet_lem cfg w.pd.wrapper w.pd.egress_port w v present in
        (
          w',
          do_single_tx_kept (nic_on cfg) w kept
              ∙ send_packet_lem w.pd.egress_port w.pd.ingress_port w (omega arith)
              ∙ run,
          v',
          same,
        )
  ]

  do_single_rx-Keeps :
      (queue_idx pkt_idx : ℕ) (w : World P S)
      → cfg.max_ethports ≤ 100
      → IsSafe
      → IsValid cfg w
      → queue_idx < length cfg.rx_queue_list
      → pkt_idx < length w.pkts_burst
      → Keeps w (do_single_rx (nic_on cfg) queue_idx pkt_idx w)
  unfolding do_single_rx process nic_on receive_packet get_portid
  do_single_rx-Keeps queue_idx pkt_idx w few safe v queue got =
      let p = get_elem?-eq-get_or w.pkts_burst pkt_idx w.pd.wrapper got in
      let w₁ = record w {
        pd = record w.pd { wrapper = get_or w.pkts_burst pkt_idx w.pd.wrapper };
      } in
      let q =
        get_elem?-eq-get_or cfg.rx_queue_list queue_idx (record { port_id = 0; queue_id = 0 })
          queue in
      let w₂ =
        handle_packet cfg
          (get_or cfg.rx_queue_list queue_idx (record { port_id = 0; queue_id = 0 })).port_id w₁ in
      let (w', run, v', same) = do_single_tx-Keeps w₂ few (record { room = v.room }) (safe _ _ _) in
      (w', rw (p, q, run), v', same)

  rx_packets-Keeps :
      (n queue_idx pkt_idx : ℕ) (w : World P S)
      → cfg.max_ethports ≤ 100
      → IsSafe
      → IsValid cfg w
      → queue_idx < length cfg.rx_queue_list
      → pkt_idx + n ≤ length w.pkts_burst
      → (w' : World P S) × (rx_packets (nic_on cfg) n queue_idx pkt_idx w ≡ some w')
        × IsValid cfg w'
  unfolding rx_packets
  rx_packets-Keeps zero queue_idx pkt_idx w few safe v queue got = (w, refl, v)
  rx_packets-Keeps (suc n) queue_idx pkt_idx w few safe v queue got =
      let (w₁, run, v₁, same) =
        do_single_rx-Keeps queue_idx pkt_idx w few safe v queue (omega arith) in
      let (w', rest, v') =
        rx_packets-Keeps n queue_idx (pkt_idx + 1) w₁ few safe v₁ queue (rw same (omega arith)) in
      (w', rw run rest, v')

  rx_queues-Keeps :
      (n queue_idx : ℕ) (w : World P S)
      → cfg.max_ethports ≤ 100
      → IsSafe
      → IsValid cfg w
      → queue_idx + n ≤ length cfg.rx_queue_list
      → (w' : World P S) × (rx_queues (nic_on cfg) n queue_idx w ≡ some w') × IsValid cfg w'
  unfolding rx_queues nic_on main_loop_rx_group
  rx_queues-Keeps zero queue_idx w few safe v queue = (w, refl, v)
  rx_queues-Keeps (suc n) queue_idx w few safe v queue =
      let none_there : RxQueue = record { port_id = 0; queue_id = 0 } in
      let q = get_elem?-eq-get_or cfg.rx_queue_list queue_idx none_there (omega arith) in
      let r = get_or cfg.rx_queue_list queue_idx none_there in
      let pkts = take max_pkt_burst (cfg.driver.rx_burst w.time (r.port_id % 256) r.queue_id) in
      let w₁ = record w { pkts_burst = pkts; time = w.time + 1 } in
      let (w₂, run, v₂) =
        rx_packets-Keeps (length pkts) queue_idx 0 w₁ few safe (record { room = v.room })
          (omega arith) (omega arith) in
      let (w', rest, v') = rx_queues-Keeps n (queue_idx + 1) w₂ few safe v₂ (omega arith) in
      (w', rw (q, run) rest, v')

  -- A round neither writes out of bounds nor fills a buffer.
  pub round-IsValid :
      (w : World P S)
      → cfg.max_ethports ≤ 100
      → IsSafe
      → IsValid cfg w
      → (w' : World P S) × (round (nic_on cfg) w ≡ some w') × IsValid cfg w'
  unfolding round nic_on
  round-IsValid w few safe v =
      let d = tx_burst_queue_drain-Drains cfg w in
      let w₁ = tx_burst_queue_drain cfg w in
      let v₁ : IsValid cfg w₁ = record { room = λ q. ground (arith, d.lens q, v.room q) } in
      let (w', run, v') =
        rx_queues-Keeps (length cfg.rx_queue_list) 0 w₁ few safe v₁ (omega arith) in
      (w', rw run, v')

  -- With at most 100 ports that there can be, and a switch that drops each packet or sends it to one of
  -- them, the loop of a core that starts with room in each buffer never ends and never crashes: after
  -- any number of rounds it goes on, with room in each buffer.
  pub rounds-IsValid :
      (fuel : ℕ) (w : World P S)
      → cfg.max_ethports ≤ 100
      → IsSafe
      → IsValid cfg w
      → (w' : World P S) × (rounds (nic_on cfg) fuel w ≡ goes_on w') × IsValid cfg w'
  unfolding rounds nic_on
  rounds-IsValid zero w few safe v = (w, refl, v)
  rounds-IsValid (suc fuel) w few safe v =
      let (w₁, run, v₁) = round-IsValid w few safe v in
      let (w', rest, v') = rounds-IsValid fuel w₁ few safe v₁ in
      (w', rounds_goes_on (nic_on cfg) fuel refl run ∙ rest, v')
