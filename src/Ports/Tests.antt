-- ===== src/Ports/Tests.antt =====
-- Three queues on two ports for two cores.
use t4p4s_ma.Common.{
  ℕ, ◌≡◌, ◌≤◌, ◌==◌, length, ltb, ltb→lt, some, Bool-cases, inl, inr, refl, arith, true, false,
  List, [], ◌∷◌, pos,
}
use t4p4s_ma.Ports.{
  is_port_disabled, LcoreParams, Confs, check_lcore_params, check_port_config, init_lcore_rx_queues,
  get_port_n_rx_queues,
}
use t4p4s_ma.Ports.Init.{Machine, Setup, get_nb_ports, dpdk_init_nic}
use t4p4s_ma.Ports.Init.Log.{In}
use t4p4s_ma.Ports.Init.Order.{IsSetUp, dpdk_init_nic-IsSetUp}
use t4p4s_ma.Ports.Queues.{AllBelow, IsLast, get_port_n_rx_queues_lem}
use t4p4s_ma.Ports.Cores.{IsValid, Assigned, queues, given, init_lcore_rx_queues-Assigned}

abbrev params : List LcoreParams
params =
    record { port_id = 0; queue_id = 0; lcore_id = 1 }
    ∷ record { port_id = 1; queue_id = 2; lcore_id = 2 }
    ∷ record { port_id = 0; queue_id = 1; lcore_id = 1 }
    ∷ []

abbrev empty : Confs
empty lcore = record { n_rx_queue = 0; rx_queue_list = λ i. record { port_id = 0; queue_id = 0 } }

empty-IsValid : IsValid empty
empty-IsValid = record { room = λ lcore. omega arith }

params_pass : check_lcore_params (λ lcore. true) params ≡ pos 0
unfolding check_lcore_params
params_pass = refl

ports_pass : check_port_config 3 2 params ≡ true
unfolding check_port_config
ports_pass = refl

port_2_is_off : check_port_config 1 2 params ≡ false
unfolding check_port_config
port_2_is_off = refl

-- Queue 2 alone makes three queues.
three_queues : get_port_n_rx_queues 1 params ≡ 3
unfolding get_port_n_rx_queues
three_queues = refl

two_for_core_1 :
    queues (init_lcore_rx_queues params empty).1 1
    ≡ record { port_id = 0; queue_id = 0 } ∷ record { port_id = 0; queue_id = 1 } ∷ []
unfolding init_lcore_rx_queues
two_for_core_1 = refl

get_port_n_rx_queues_lem_example :
    AllBelow (get_port_n_rx_queues 0 params) (0 ∷ 1 ∷ [])
    × IsLast (get_port_n_rx_queues 0 params) (0 ∷ 1 ∷ [])
get_port_n_rx_queues_lem_example =
    get_port_n_rx_queues_lem 0 params (omega arith, (omega arith, tt))

init_lcore_rx_queues-Assigned_example : Assigned params empty (init_lcore_rx_queues params empty)
init_lcore_rx_queues-Assigned_example = init_lcore_rx_queues-Assigned params empty empty-IsValid

abbrev machine : Machine
machine = record {
  lcore_params = params;
  enabled_port_mask = 3;
  eth_dev_count = 2;
  max_ethports = 32;
  max_lcore = 4;
  lcore_is_enabled = λ l. ltb l 3;
  lcore_count = 3;
  get_socketid = λ l. 0;
  succeeds = λ c. true;
}

abbrev setup : Setup
setup = record { calls = []; pktmbuf_pool = λ q. false; tx_queue_id = λ l p. 0 }

given_le : (l : ℕ) (ps : List LcoreParams) → length (given l ps) ≤ length ps
given_le l [] = omega arith
given_le l (p ∷ ps) = elim (Bool-cases (p.lcore_id == l)) [
  | inl e ↦ rw e (omega (arith, given_le l ps))
  | inr e ↦ rw e (omega (arith, given_le l ps))
]

cores_checked : check_lcore_params (λ l. ltb l 3) params ≡ pos 0
unfolding check_lcore_params
cores_checked = refl

ports_checked : check_port_config 3 (get_nb_ports machine) params ≡ true
unfolding check_port_config is_port_disabled
ports_checked = refl

dpdk_init_nic-IsSetUp_example :
    (conf' : Confs) × (s' : Setup) × (dpdk_init_nic machine empty setup ≡ some (conf', s'))
    × ((p : LcoreParams) → In p params → IsSetUp machine (λ c. refl) p s'.calls)
dpdk_init_nic-IsSetUp_example =
    dpdk_init_nic-IsSetUp machine (λ c. refl) empty setup (λ l on. omega (arith, ltb→lt l 3 on))
      cores_checked ports_checked (λ l. omega (arith, given_le l params))
