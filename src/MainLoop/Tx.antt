-- ===== src/MainLoop/Tx.antt =====
-- src/hardware_dep/dpdk/main.c: the two ends of a packet.
use t4p4s_ma.Common.{◌≡◌, true, false, some}
use t4p4s_ma.MainLoop.{Nic, do_single_tx, send_packet}

module _ {P W : Type 0} (nic : Nic P W) (w : W) where
  pub do_single_tx_dropped : nic.drop w ≡ true → do_single_tx nic w ≡ some (nic.free_packet w)
  unfolding do_single_tx
  do_single_tx_dropped h = rw h

  pub do_single_tx_kept :
      nic.drop w ≡ false
      → do_single_tx nic w ≡ send_packet nic (nic.egress_port w) (nic.ingress_port w) w
  unfolding do_single_tx
  do_single_tx_kept h = rw h
