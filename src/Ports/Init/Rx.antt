-- ===== src/Ports/Init/Rx.antt =====
-- src/hardware_dep/dpdk/data_plane/dpdk_lib_init_hw.c: the receiving queues of the cores, and the
-- start of the ports.
use t4p4s_ma.Common.{
  ℕ, zero, suc, ◌+◌, ◌≡◌, ◌<◌, ◌≤◌, inl, inr, refl, subst, arith, true, List, [], ◌∷◌, ◌++◌, ◌==◌,
  ==_iff, Bool-cases,
}
use t4p4s_ma.Ports.{RxQueue, Confs, is_port_disabled}
use t4p4s_ma.Ports.Init.{
  Call, eth_rx_queue_setup, eth_dev_start, eth_promiscuous_enable, Machine, Setup,
  dpdk_init_rx_queue, init_rx_queues, dpdk_init_lcore, init_lcores, start_ports,
}
use t4p4s_ma.Ports.Init.Log.{
  In, In-append_left, In-append_right, Ran, Any, Ran-some, Ran-bind, call-Ran,
}

module _ (hw : Machine) (works : (c : Call) → hw.succeeds c ≡ true) where
  -- The call that sets a receiving queue up for a core.
  abbrev pub rx_setup : ℕ → RxQueue → Call
  rx_setup lcore_id q = eth_rx_queue_setup q.port_id q.queue_id (hw.get_socketid lcore_id)

  module _ (conf : Confs) where
    abbrev at_rx : ℕ → ℕ → Call
    at_rx lcore_id i = rx_setup lcore_id ((conf lcore_id).rx_queue_list i)

    abbrev AllRx : ℕ → ℕ → ℕ → List Call → Type 0
    AllRx n queue lcore_id cs = (i : ℕ) → queue ≤ i → i < queue + n → In (at_rx lcore_id i) cs

    init_rx_queues-Ran :
        (n queue lcore_id : ℕ) (s : Setup)
        → Ran s (init_rx_queues hw conf n queue lcore_id s) (AllRx n queue lcore_id)
    unfolding init_rx_queues dpdk_init_rx_queue
    init_rx_queues-Ran zero queue lcore_id s =
        Ran-some s s _ refl (λ i le lt. absurd (omega (arith, le, lt)))
    init_rx_queues-Ran (suc n) queue lcore_id s =
        Ran-bind s _ _ (In (at_rx lcore_id queue)) (AllRx n (queue + 1) lcore_id) _
          (call-Ran hw works (at_rx lcore_id queue) s s _ refl (inl refl))
          (λ s'. init_rx_queues-Ran n (queue + 1) lcore_id s')
          (λ xs ys h hs i le lt. elim (Bool-cases (queue == i)) [
            | inl e ↦
                In-append_left (at_rx lcore_id i) xs ys
                  (subst (λ a. In (at_rx lcore_id a) xs) ((==_iff queue i).0 e) h)
            | inr e ↦
                In-append_right (at_rx lcore_id i) xs ys
                  (hs i (ground (arith, e, le)) (omega (arith, lt)))
          ])

    abbrev Core : ℕ → List Call → Type 0
    Core lcore_id cs =
        hw.lcore_is_enabled lcore_id ≡ true → AllRx (conf lcore_id).n_rx_queue 0 lcore_id cs

    dpdk_init_lcore-Ran :
        (lcore_id : ℕ) (s : Setup) → Ran s (dpdk_init_lcore hw conf lcore_id s) (Core lcore_id)
    unfolding dpdk_init_lcore
    dpdk_init_lcore-Ran lcore_id s = elim (Bool-cases (hw.lcore_is_enabled lcore_id)) [
      | inl e ↦
          let r = init_rx_queues-Ran (conf lcore_id).n_rx_queue 0 lcore_id s in
          rw e (record {
            final = r.final;
            ran = r.ran;
            added = r.added;
            calls = r.calls;
            such = λ on. r.such;
          })
      | inr e ↦ rw e (Ran-some s s _ refl (λ on. cc on))
    ]

    -- All queues of all these cores are set up.
    abbrev pub AllCores : ℕ → ℕ → List Call → Type 0
    AllCores n lcore_id cs = (l : ℕ) → lcore_id ≤ l → l < lcore_id + n → Core l cs

    pub init_lcores-Ran :
        (n lcore_id : ℕ) (s : Setup)
        → Ran s (init_lcores hw conf n lcore_id s) (AllCores n lcore_id)
    unfolding init_lcores
    init_lcores-Ran zero lcore_id s =
        Ran-some s s _ refl (λ l le lt. absurd (omega (arith, le, lt)))
    init_lcores-Ran (suc n) lcore_id s =
        Ran-bind s _ _ (Core lcore_id) (AllCores n (lcore_id + 1)) _
          (dpdk_init_lcore-Ran lcore_id s) (λ s'. init_lcores-Ran n (lcore_id + 1) s')
          (λ xs ys h hs l le lt on i le' lt'. elim (Bool-cases (lcore_id == l)) [
            | inl e ↦
                In-append_left (at_rx l i) xs ys
                  (subst (λ a. Core a xs) ((==_iff lcore_id l).0 e) h on i le' lt')
            | inr e ↦
                In-append_right (at_rx l i) xs ys
                  (hs l (ground (arith, e, le)) (omega (arith, lt)) on i le' lt')
          ])

  pub start_ports-Ran : (n portid : ℕ) (s : Setup) → Ran s (start_ports hw n portid s) Any
  unfolding start_ports
  start_ports-Ran zero portid s = Ran-some s s Any refl tt
  start_ports-Ran (suc n) portid s =
      let rest = λ (s' : Setup). start_ports-Ran n (portid + 1) s' in
      elim (Bool-cases (is_port_disabled hw.enabled_port_mask portid)) [
        | inl e ↦
            rw e (Ran-bind s _ _ Any Any Any (Ran-some s s Any refl tt) rest (λ xs ys _ _. tt))
        | inr e ↦ rw e (
            Ran-bind s _ _ Any Any Any
              (Ran-bind s _ _ Any Any Any (call-Ran hw works (eth_dev_start portid) s s Any refl tt)
                (λ s'. record {
                  final = record s' { calls = s'.calls ++ eth_promiscuous_enable portid ∷ [] };
                  ran = refl;
                  added = eth_promiscuous_enable portid ∷ [];
                  calls = refl;
                  such = tt;
                })
                (λ xs ys _ _. tt))
              rest (λ xs ys _ _. tt))
      ]
