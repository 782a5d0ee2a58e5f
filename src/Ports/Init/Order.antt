-- ===== src/Ports/Init/Order.antt =====
-- src/hardware_dep/dpdk/data_plane/dpdk_lib_init_hw.c: the initialisation sets every configured queue
-- up, on a port that was configured with it before.
use t4p4s_ma.Common.{
  ℕ, ◌+◌, ◌≡◌, ◌<◌, ◌≤◌, inl, inr, sym, ap, ◌∙◌, subst, arith, true, false, some, List, ◌++◌,
  append_assoc, length, pos,
}
use t4p4s_ma.Ports.{
  LcoreParams, Confs, check_lcore_params, check_port_config, init_lcore_rx_queues,
  get_port_n_rx_queues,
}
use t4p4s_ma.Ports.Queues.{get_port_n_rx_queues_lem}
use t4p4s_ma.Ports.Cores
use t4p4s_ma.Ports.Cores.{listed, queues, given, init_lcore_rx_queues-Assigned}
use t4p4s_ma.Ports.Init.{Call, Machine, Setup, get_nb_ports, dpdk_init_nic}
use t4p4s_ma.Ports.Init.Log.{
  In, In-append_left, In-append_right, init_pools-Ran, configure, init_ports-Ran,
}
use t4p4s_ma.Ports.Init.Rx.{rx_setup, AllCores, init_lcores-Ran, start_ports-Ran}
use t4p4s_ma.Ports.Init.Params.{
  queue, check_lcore_params-In, check_port_config-In, AllBelow-In, AllBelow-queues_of, given-In,
  listed-In,
}

module _ (hw : Machine) (works : (c : Call) → hw.succeeds c ≡ true) where
  -- The port of the parameter is configured with more receiving queues than the id of its queue, and
  -- behind that the queue is set up on the socket of its core.
  abbrev pub IsSetUp : LcoreParams → List Call → Type 0
  IsSetUp p calls =
      (before : List Call) × (after : List Call) × (calls ≡ before ++ after)
      × In (configure hw works p.port_id) before
      × In (rx_setup hw works p.lcore_id (queue p)) after
      × (p.queue_id < get_port_n_rx_queues p.port_id hw.lcore_params)

  enough_queues :
      (p : LcoreParams)
      → check_lcore_params hw.lcore_is_enabled hw.lcore_params ≡ pos 0
      → In p hw.lcore_params
      → p.queue_id < get_port_n_rx_queues p.port_id hw.lcore_params
  enough_queues p h i =
      let small = AllBelow-queues_of 255 p.port_id hw.lcore_params (λ q j.
        let (lt, _) = check_lcore_params-In hw.lcore_is_enabled q hw.lcore_params h j in
        omega (arith, lt)) in
      AllBelow-In (get_port_n_rx_queues p.port_id hw.lcore_params) p hw.lcore_params
        (get_port_n_rx_queues_lem p.port_id hw.lcore_params small).0 i

  rx-In :
      (p : LcoreParams) (conf conf' : Confs) (cs : List Call)
      → In p hw.lcore_params
      → p.lcore_id < hw.max_lcore
      → hw.lcore_is_enabled p.lcore_id ≡ true
      → queues conf' p.lcore_id ≡ queues conf p.lcore_id ++ given p.lcore_id hw.lcore_params
      → AllCores hw works conf' hw.max_lcore 0 cs
      → In (rx_setup hw works p.lcore_id (queue p)) cs
  rx-In p conf conf' cs i lt on all done =
      let l = p.lcore_id in
      let there = subst (In (queue p)) (sym all) (
        In-append_right (queue p) (queues conf l) (given l hw.lcore_params)
          (given-In p hw.lcore_params i)) in
      let (k, le, small, e) =
        listed-In (conf' l).rx_queue_list 0 (conf' l).n_rx_queue (queue p) there in
      subst (λ q. In (rx_setup hw works l q) cs) (sym e)
        (done l (omega arith) (omega (arith, lt)) on k (omega arith) small)

-- Where all calls of DPDK succeed, the checks of the parameters and of the ports hold, only cores
-- below the number of cores are enabled, and there is room for the queues of each core,
-- `dpdk_init_nic` returns; for each parameter it has then configured the port with more receiving
-- queues than the id of the parameter's queue, and behind that set the queue up on its core's socket.
pub dpdk_init_nic-IsSetUp :
    (hw : Machine) (works : (c : Call) → hw.succeeds c ≡ true) (conf : Confs) (s : Setup)
    → ((l : ℕ) → hw.lcore_is_enabled l ≡ true → l < hw.max_lcore)
    → check_lcore_params hw.lcore_is_enabled hw.lcore_params ≡ pos 0
    → check_port_config hw.enabled_port_mask (get_nb_ports hw) hw.lcore_params ≡ true
    → ((l : ℕ) → (conf l).n_rx_queue + length (given l hw.lcore_params) ≤ 16)
    → (conf' : Confs) × (s' : Setup) × (dpdk_init_nic hw conf s ≡ some (conf', s'))
      × ((p : LcoreParams) → In p hw.lcore_params → IsSetUp hw works p s'.calls)
unfolding dpdk_init_nic
dpdk_init_nic-IsSetUp hw works conf s below cores ports room =
    let valid : Cores.IsValid conf = record { room = λ l. omega (arith, room l) } in
    elim (init_lcore_rx_queues-Assigned hw.lcore_params conf valid) [
      | inr (failed, l, many) ↦ absurd (omega (arith, many, room l))
      | inl (zero_, all, _) ↦
          let conf' = (init_lcore_rx_queues hw.lcore_params conf).1 in
          let a = init_pools-Ran hw works hw.max_lcore 0 (record s { pktmbuf_pool = λ q. false }) in
          let b = init_ports-Ran hw works (get_nb_ports hw) 0 a.final in
          let c = init_lcores-Ran hw works conf' hw.max_lcore 0 b.final in
          let d = start_ports-Ran hw works (get_nb_ports hw) 0 c.final in
          (
            conf',
            d.final,
            rw (zero_, ports, a.ran, b.ran, c.ran, d.ran),
            λ p i.
                let (_, on) = check_lcore_params-In hw.lcore_is_enabled p hw.lcore_params cores i in
                let (enabled, lt) =
                  check_port_config-In hw.enabled_port_mask (get_nb_ports hw) p hw.lcore_params
                    ports i in
                (
                  b.final.calls,
                  c.added ++ d.added,
                  d.calls
                      ∙ ap (λ q. q ++ d.added) c.calls
                      ∙ append_assoc b.final.calls c.added d.added,
                  subst (In (configure hw works p.port_id)) (sym b.calls) (
                      In-append_right (configure hw works p.port_id) a.final.calls b.added
                        (b.such p.port_id (omega arith) (omega (arith, lt)) enabled)),
                  In-append_left _ c.added d.added (
                      rx-In hw works p conf conf' c.added i (below p.lcore_id on) on
                        (all p.lcore_id) c.such),
                  enough_queues hw works p cores i,
                ),
          )
    ]
