-- ===== src/Ports/Init.antt =====
-- src/hardware_dep/dpdk/data_plane/dpdk_lib_init_hw.c: dpdk_init_nic, as the calls of DPDK that it
-- makes.
pub mod Log
pub mod Rx
pub mod Params
pub mod Order
use t4p4s_ma.Common.{
  ℕ, zero, suc, ◌+◌, ◌%◌, ◌^◌, Bool, true, false, Option, none, some, List, [], ◌∷◌, ◌++◌, ltb,
  ◌==◌, is_neg, if◌then◌else◌,
}
use t4p4s_ma.MainLoop.{◌>>=◌}
use t4p4s_ma.Ports.{
  LcoreParams, Confs, is_port_disabled, check_port_config, init_lcore_rx_queues,
  get_port_n_rx_queues,
}

-- The calls that set up the hardware, each with its numbers.
pub data Call : Type 0 where
  mempool_create : ℕ → Call
  eth_dev_configure : ℕ → ℕ → ℕ → Call
  eth_tx_queue_setup : ℕ → ℕ → ℕ → Call
  eth_rx_queue_setup : ℕ → ℕ → ℕ → Call
  eth_dev_start : ℕ → Call
  eth_promiscuous_enable : ℕ → Call

-- What the code finds: the configuration, the machine, whose sockets are all in the range that
-- `get_socketid` checks, and which of the calls succeed.
pub record Machine : Type 0 where
  pub lcore_params : List LcoreParams
  pub enabled_port_mask : ℕ
  pub eth_dev_count : ℕ
  pub max_ethports : ℕ
  pub max_lcore : ℕ
  pub lcore_is_enabled : ℕ → Bool
  pub lcore_count : ℕ
  pub get_socketid : ℕ → ℕ
  pub succeeds : Call → Bool

-- The calls so far, the first first, and the globals that change.
pub record Setup : Type 0 where
  pub calls : List Call
  pub pktmbuf_pool : ℕ → Bool
  pub tx_queue_id : ℕ → ℕ → ℕ

-- `min`
abbrev pub min : ℕ → ℕ → ℕ
min val1 val2 = if ltb val1 val2 then val1 else val2

module _ (hw : Machine) where
  -- A call; where it fails, the process exits, which is `none`.
  unfoldable pub call : Call → Setup → Option Setup
  call c s = if hw.succeeds c then some (record s { calls = s.calls ++ c ∷ [] }) else none

  -- `get_nb_ports`: the count is cut to a byte.
  abbrev pub get_nb_ports : ℕ
  get_nb_ports =
      if ltb hw.max_ethports (hw.eth_dev_count % 256)
      then hw.max_ethports
      else hw.eth_dev_count % 256

  unfoldable pub init_mbuf_pool : ℕ → Setup → Option Setup
  unfolding call
  init_mbuf_pool socketid s =
      if s.pktmbuf_pool socketid
      then some s
      else call (mempool_create socketid)
          (record s { pktmbuf_pool = λ q. if socketid == q then true else s.pktmbuf_pool q })

  -- The first loop over the cores, with `n` left from `lcore_id` on.
  unfoldable pub init_pools : ℕ → ℕ → Setup → Option Setup
  unfolding init_mbuf_pool
  init_pools zero lcore_id s = some s
  init_pools (suc n) lcore_id s =
      (if hw.lcore_is_enabled lcore_id then init_mbuf_pool (hw.get_socketid lcore_id) s else some s)
      >>= init_pools n (lcore_id + 1)

  -- `init_tx_on_lcore` for an enabled core; for others it only returns false.
  unfoldable pub init_tx_on_lcore : ℕ → ℕ → ℕ → Setup → Option Setup
  unfolding call
  init_tx_on_lcore lcore_id portid queueid s =
      call (eth_tx_queue_setup portid queueid (hw.get_socketid lcore_id)) s >>= (λ s'.
        some (record s' {
          tx_queue_id = λ l p.
              if l == lcore_id
              then (if p == portid then queueid else s'.tx_queue_id l p)
              else s'.tx_queue_id l p;
        }))

  -- The loop of `dpdk_init_port`.
  unfoldable pub init_tx_queues : ℕ → ℕ → ℕ → ℕ → Setup → Option Setup
  unfolding init_tx_on_lcore
  init_tx_queues zero lcore_id portid queueid s = some s
  init_tx_queues (suc n) lcore_id portid queueid s =
      let skip = init_tx_queues n (lcore_id + 1) portid queueid s in
      if hw.lcore_is_enabled lcore_id
      then init_tx_on_lcore lcore_id portid queueid s
        >>= init_tx_queues n (lcore_id + 1) portid ((queueid + 1) % 2 ^ 16)
      else skip

  unfoldable pub dpdk_init_port : ℕ → Setup → Option Setup
  unfolding init_tx_queues
  dpdk_init_port portid s =
      let nb_rx_queue = get_port_n_rx_queues portid hw.lcore_params in
      let n_tx_queue = min hw.lcore_count hw.max_ethports in
      if is_port_disabled hw.enabled_port_mask portid
      then some s
      else call (eth_dev_configure portid nb_rx_queue (n_tx_queue % 2 ^ 16)) s
        >>= init_tx_queues hw.max_lcore 0 portid 0

  unfoldable pub init_ports : ℕ → ℕ → Setup → Option Setup
  unfolding dpdk_init_port
  init_ports zero portid s = some s
  init_ports (suc n) portid s = dpdk_init_port portid s >>= init_ports n (portid + 1)

  module _ (conf : Confs) where
    unfoldable pub dpdk_init_rx_queue : ℕ → ℕ → Setup → Option Setup
    unfolding call
    dpdk_init_rx_queue queue lcore_id s =
        let q = (conf lcore_id).rx_queue_list queue in
        call (eth_rx_queue_setup q.port_id q.queue_id (hw.get_socketid lcore_id)) s

    -- The loop of `dpdk_init_lcore`.
    unfoldable pub init_rx_queues : ℕ → ℕ → ℕ → Setup → Option Setup
    unfolding dpdk_init_rx_queue
    init_rx_queues zero queue lcore_id s = some s
    init_rx_queues (suc n) queue lcore_id s =
        dpdk_init_rx_queue queue lcore_id s >>= init_rx_queues n (queue + 1) lcore_id

    unfoldable pub dpdk_init_lcore : ℕ → Setup → Option Setup
    unfolding init_rx_queues
    dpdk_init_lcore lcore_id s =
        if hw.lcore_is_enabled lcore_id
        then init_rx_queues (conf lcore_id).n_rx_queue 0 lcore_id s
        else some s

    unfoldable pub init_lcores : ℕ → ℕ → Setup → Option Setup
    unfolding dpdk_init_lcore
    init_lcores zero lcore_id s = some s
    init_lcores (suc n) lcore_id s = dpdk_init_lcore lcore_id s >>= init_lcores n (lcore_id + 1)

  -- The last loop of `dpdk_init_nic`.
  unfoldable pub start_ports : ℕ → ℕ → Setup → Option Setup
  unfolding call
  start_ports zero portid s = some s
  start_ports (suc n) portid s =
      (if is_port_disabled hw.enabled_port_mask portid
        then some s
        else call (eth_dev_start portid) s
          >>= (λ s'. some (record s' { calls = s'.calls ++ eth_promiscuous_enable portid ∷ [] })))
      >>= start_ports n (portid + 1)

  -- `dpdk_init_nic`, and the configuration of the cores' queues.
  unfoldable pub dpdk_init_nic : Confs → Setup → Option (Confs × Setup)
  unfolding init_pools init_ports init_lcores start_ports
  dpdk_init_nic conf s = do
    let (ret, conf') = init_lcore_rx_queues hw.lcore_params conf
    (if is_neg ret
        then none
        else if check_port_config hw.enabled_port_mask get_nb_ports hw.lcore_params
        then init_pools hw.max_lcore 0 (record s { pktmbuf_pool = λ q. false })
          >>= init_ports get_nb_ports 0
          >>= init_lcores conf' hw.max_lcore 0
          >>= start_ports get_nb_ports 0
          >>= (λ s'. some (conf', s'))
        else none)
