-- ===== src/Ports.antt =====
-- src/hardware_dep/dpdk/data_plane/dpdk_lib_init_hw.c and the getters of dpdk_lib.c: which core reads
-- which receiving queue of which port, and how ports and queues are set up.
mod Tests
pub mod Queues
pub mod Cores
pub mod Init
use t4p4s_ma.Common.{
  ℕ, zero, suc, ◌+◌, ◌-◌, ◌%◌, ◌^◌, Bool, true, false, ◌&&◌, not, Option, none, some, List, [], ◌∷◌,
  ◌++◌, ltb, leb, ◌==◌, length, ℤ, pos, negsuc, is_neg, if◌then◌else◌,
}
use Prim.Native.Nat.{bit_and}

-- `struct lcore_params`; the list has `nb_lcore_params` of them.
pub record LcoreParams : Type 0 where
  pub port_id : ℕ
  pub queue_id : ℕ
  pub lcore_id : ℕ

-- `struct lcore_rx_queue`
pub record RxQueue : Type 0 where
  pub port_id : ℕ
  pub queue_id : ℕ

-- The part of `struct lcore_hardware_conf` that is set up here.
pub record LcoreConf : Type 0 where
  pub n_rx_queue : ℕ
  pub rx_queue_list : ℕ → RxQueue

abbrev pub max_rx_queue_per_lcore : ℕ
max_rx_queue_per_lcore = 16

abbrev pub max_rx_queue_per_port : ℕ
max_rx_queue_per_port = 128

-- `check_lcore_params`; a core on another socket with NUMA off is only warned of.
unfoldable pub check_lcore_params : (ℕ → Bool) → List LcoreParams → ℤ
check_lcore_params is_enabled [] = pos 0
check_lcore_params is_enabled (p ∷ ps) =
    if leb max_rx_queue_per_port p.queue_id
    then negsuc 0
    else if is_enabled p.lcore_id
    then check_lcore_params is_enabled ps
    else negsuc 0

-- `is_port_disabled`, of a port below 32: beyond, C's shift is undefined.
unfoldable pub is_port_disabled : ℕ → ℕ → Bool
is_port_disabled enabled_port_mask portid = bit_and enabled_port_mask (2 ^ portid) == 0

unfoldable pub check_port_config : ℕ → ℕ → List LcoreParams → Bool
unfolding is_port_disabled
check_port_config enabled_port_mask nb_ports [] = true
check_port_config enabled_port_mask nb_ports (p ∷ ps) =
    if is_port_disabled enabled_port_mask p.port_id
    then false
    else if leb nb_ports p.port_id
    then false
    else check_port_config enabled_port_mask nb_ports ps

abbrev pub Confs : Type 0
Confs = ℕ → LcoreConf

-- The queue goes to the end of the core's list.
abbrev pub add_queue : LcoreParams → Confs → Confs
add_queue p conf lcore =
    if p.lcore_id == lcore
    then record {
      n_rx_queue = (conf lcore).n_rx_queue + 1;
      rx_queue_list = λ i.
          if i == (conf lcore).n_rx_queue
          then record { port_id = p.port_id; queue_id = p.queue_id }
          else (conf lcore).rx_queue_list i;
    }
    else conf lcore

unfoldable pub init_lcore_rx_queues : List LcoreParams → Confs → ℤ × Confs
init_lcore_rx_queues [] conf = (pos 0, conf)
init_lcore_rx_queues (p ∷ ps) conf =
    if leb max_rx_queue_per_lcore (conf p.lcore_id).n_rx_queue
    then (negsuc 0, conf)
    else init_lcore_rx_queues ps (add_queue p conf)

-- The test `a > queue` of an id with C's `int`.
abbrev pub above : ℕ → ℤ → Bool
above a (pos n) = ltb n a
above a (negsuc n) = true

-- The loop of `get_port_n_rx_queues`: the value of `queue` behind it.
unfoldable pub last_queue : ℕ → List LcoreParams → ℤ → ℤ
last_queue port [] queue = queue
last_queue port (p ∷ ps) queue =
    last_queue port ps
      (if p.port_id == port && above p.queue_id queue then pos p.queue_id else queue)

-- `(uint8_t)(++queue)`, where `queue` is -1 at least
abbrev pub incremented : ℤ → ℕ
incremented (pos n) = (n + 1) % 256
incremented (negsuc n) = 0

unfoldable pub get_port_n_rx_queues : ℕ → List LcoreParams → ℕ
unfolding last_queue
get_port_n_rx_queues port ps = incremented (last_queue port ps (negsuc 0))
