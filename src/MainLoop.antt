-- ===== src/MainLoop.antt =====
-- src/hardware_dep/dpdk/main.c: the loop of a core and the launches, over the functions of a network
-- card variant, dpdk_nicoff.c or dpdk_nicon.c, and of the generated switch.
pub mod Broadcast
pub mod Rounds
pub mod Tx
use t4p4s_ma.Common.{
  ℕ, zero, suc, ◌+◌, ◌^◌, Bool, true, false, Option, none, some, List, [], ◌∷◌, ltb, ◌==◌, ℤ, pos,
  negsuc, is_neg, if◌then◌else◌,
}
use Prim.Native.Nat.{bit_and}

-- `none` is a crash: a read or write through a null pointer or out of bounds.
infixl 5 ◌>>=◌
abbrev pub ◌>>=◌ {ℓ κ} : {A : Type ℓ} {B : Type κ} → Option A → (A → Option B) → Option B
none >>= f = none
some a >>= f = f a

-- The functions that main.c declares `extern`, over all that a core reads and changes, `W`: its
-- `lcdata`, the packet descriptor `pd`, and the switch.
pub record Nic (P W : Type 0) : Type 0 where
  pub is_valid : W → Bool
  pub core_is_working : W → Option Bool
  pub main_loop_pre_rx : W → Option W
  pub main_loop_post_rx : W → Option W
  pub get_queue_count : W → ℕ
  pub main_loop_rx_group : ℕ → W → Option W
  pub get_pkt_count_in_group : W → ℕ
  pub receive_packet : ℕ → W → Option (Bool × W)
  pub is_packet_handled : W → Option Bool
  pub get_portid : ℕ → W → Option ℕ
  pub main_loop_post_single_rx : Bool → W → Option W
  -- `init_parser_state`, then the generated `handle_packet`, for a packet from the given port
  pub handle_packet : ℕ → W → W
  -- the metadata of `pd` that main.c reads, and its `wrapper`
  pub drop : W → Bool
  pub egress_port : W → ℕ
  pub ingress_port : W → ℕ
  pub wrapper : W → P
  pub clone_packet : P → W → P × W
  pub free_packet : W → W
  pub send_single_packet : P → ℕ → ℕ → W → Option W
  pub port_count : ℕ
  pub port_mask : ℕ
  -- RTE_MAX_ETHPORTS, of DPDK's configuration
  pub max_ethports : ℕ

abbrev pub t4p4s_broadcast_port : ℕ
t4p4s_broadcast_port = 100

-- How the loop stands after so many rounds as there was fuel.
pub data Outcome (W : Type 0) : Type 0 where
  ended : W → Outcome W
  crashed : Outcome W
  goes_on : W → Outcome W

-- `(port_mask & (1 << portidx)) == 0`
abbrev pub is_port_disabled : ℕ → ℕ → Bool
is_port_disabled port_mask portidx = bit_and port_mask (2 ^ portidx) == 0

module _ {P W : Type 0} (nic : Nic P W) where
  -- The body of the loop of `broadcast_packet` for a port that it does not pass over: `nb_port <
  -- nb_ports` holds there, so the packet is cloned. The port is not an argument.
  unfoldable pub send_clone : ℕ → ℕ → W → Option W
  send_clone egress_port ingress_port w =
      let (pkt_out, w') = nic.clone_packet (nic.wrapper w) w in
      nic.send_single_packet pkt_out egress_port ingress_port w'

  -- The loop of `broadcast_packet`, with `n` ports left from `portidx` on.
  unfoldable pub broadcast_from : ℕ → ℕ → ℕ → ℕ → ℕ → W → Option W
  unfolding send_clone
  broadcast_from zero portidx nb_port egress_port ingress_port w = some w
  broadcast_from (suc n) portidx nb_port egress_port ingress_port w =
      let skip = broadcast_from n (portidx + 1) nb_port egress_port ingress_port w in
      let next =
        λ (w' : W). broadcast_from n (portidx + 1) (nb_port + 1) egress_port ingress_port w' in
      if ltb (nb_port + 1) nic.port_count
      then (if portidx == ingress_port
          then skip
          else if is_port_disabled nic.port_mask portidx
          then skip
          else send_clone egress_port ingress_port w >>= next)
      else some w

  unfoldable pub broadcast_packet : ℕ → ℕ → W → Option W
  unfolding broadcast_from
  broadcast_packet egress_port ingress_port w =
      broadcast_from nic.max_ethports 0 0 egress_port ingress_port w

  unfoldable pub send_packet : ℕ → ℕ → W → Option W
  unfolding broadcast_packet
  send_packet egress_port ingress_port w =
      if egress_port == t4p4s_broadcast_port
      then broadcast_packet egress_port ingress_port w
      else nic.send_single_packet (nic.wrapper w) egress_port ingress_port w

  unfoldable pub do_single_tx : W → Option W
  unfolding send_packet
  do_single_tx w =
      if nic.drop w
      then some (nic.free_packet w)
      else send_packet (nic.egress_port w) (nic.ingress_port w) w

  -- What `do_single_rx` does with a packet that it got.
  unfoldable pub process : ℕ → W → Option W
  unfolding do_single_tx
  process queue_idx w = do
    handled ← nic.is_packet_handled w
    (if handled
        then nic.get_portid queue_idx w >>= (λ port. do_single_tx (nic.handle_packet port w))
        else some w)

  unfoldable pub do_single_rx : ℕ → ℕ → W → Option W
  unfolding process
  do_single_rx queue_idx pkt_idx w = do
    (got_packet, w₁) ← nic.receive_packet pkt_idx w
    w₂ ← (if got_packet then process queue_idx w₁ else some w₁)
    nic.main_loop_post_single_rx got_packet w₂

  -- The inner loop of `do_rx`, with `n` packets left from `pkt_idx` on.
  unfoldable pub rx_packets : ℕ → ℕ → ℕ → W → Option W
  unfolding do_single_rx
  rx_packets zero queue_idx pkt_idx w = some w
  rx_packets (suc n) queue_idx pkt_idx w =
      do_single_rx queue_idx pkt_idx w >>= rx_packets n queue_idx (pkt_idx + 1)

  -- The outer loop, with `n` queues left from `queue_idx` on.
  unfoldable pub rx_queues : ℕ → ℕ → W → Option W
  unfolding rx_packets
  rx_queues zero queue_idx w = some w
  rx_queues (suc n) queue_idx w = do
    w₁ ← nic.main_loop_rx_group queue_idx w
    w₂ ← rx_packets (nic.get_pkt_count_in_group w₁) queue_idx 0 w₁
    rx_queues n (queue_idx + 1) w₂

  unfoldable pub do_rx : W → Option W
  unfolding rx_queues
  do_rx w = rx_queues (nic.get_queue_count w) 0 w

  -- The body of the loop of `dpdk_main_loop`.
  unfoldable pub round : W → Option W
  unfolding do_rx
  round w = do w₁ ← nic.main_loop_pre_rx w; w₂ ← do_rx w₁; nic.main_loop_post_rx w₂

  -- The loop of `dpdk_main_loop`.
  unfoldable pub rounds : ℕ → W → Outcome W
  unfolding round
  rounds zero w = goes_on w
  rounds (suc fuel) w = elim (nic.core_is_working w) [
    | none ↦ crashed
    | some working ↦ elim working [
      | false ↦ ended w
      | true ↦ elim (round w) [ none ↦ crashed | some w' ↦ rounds fuel w' ]
    ]
  ]

  -- `dpdk_main_loop`, from what `init_lcore_data` returns; the value that it returns is `is_valid` of
  -- the state in which it ended.
  unfoldable pub dpdk_main_loop : ℕ → W → Outcome W
  unfolding rounds
  dpdk_main_loop fuel w = if nic.is_valid w then rounds fuel w else ended w

-- `launch_one_lcore`
abbrev pub launch_one_lcore : Bool → ℤ
launch_one_lcore success = if success then pos 0 else negsuc 0

-- `launch_dpdk` behind the launch: what `rte_eal_wait_lcore` returns for each slave. The master's
-- own result is not looked at.
unfoldable pub launch_dpdk : List ℤ → ℤ
launch_dpdk [] = pos 0
launch_dpdk (r ∷ rs) = if is_neg r then negsuc 0 else launch_dpdk rs
