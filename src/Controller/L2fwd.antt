-- ===== src/Controller/L2fwd.antt =====
-- dpdk_l2fwd_controller.c: the messages that fill the tables of the layer 2 forwarder.
pub mod Delivery
use t4p4s_ma.Common.{ℕ, List, [], ◌∷◌, ◌+◌, ◌*◌}
use t4p4s_ma.Memory.{Run, Cmd, ◌>>=◌, ◌>>◌}
use t4p4s_ma.Messages.Layout.Size
use t4p4s_ma.Messages.Header.{netconv_p4_header}
use t4p4s_ma.Messages.Entry.{netconv_match_length}
use t4p4s_ma.Messages.Action.{netconv_p4_action_parameter}
use t4p4s_ma.Controller.Session.{Outgoing}
use t4p4s_ma.Controller.Parts.{
  Mac, mac_bytes, begin_entry, put_exact, put_action, put_param, build_default_action, buffer_size,
  notify_controller_initialized,
}

-- `fill_smac_table`, up to its `send_p4_msg`. The code does not use the port.
unfoldable pub fill_smac_table : ℕ → Mac → Cmd (Unit {0})
unfolding begin_entry put_exact put_action netconv_p4_header netconv_match_length
fill_smac_table port mac = do
  (h, te) ← begin_entry "smac_0"
  exact ← put_exact te "ethernet.srcAddr" (mac_bytes mac) (6 * 8 + 0)
  a ← put_action h "_nop"
  netconv_p4_header h
  netconv_match_length exact

-- `fill_dmac_table`, up to its `send_p4_msg`.
unfoldable pub fill_dmac_table : ℕ → Mac → Cmd (Unit {0})
unfolding begin_entry put_exact put_action put_param netconv_p4_header netconv_match_length
    netconv_p4_action_parameter
fill_dmac_table port mac = do
  (h, te) ← begin_entry "dmac_0"
  exact ← put_exact te "ethernet.dstAddr" (mac_bytes mac) (6 * 8 + 0)
  a ← put_action h "forward"
  ap ← put_param h a "port" (port ∷ []) (1 * 8 + 0)
  netconv_p4_header h
  netconv_match_length exact
  netconv_p4_action_parameter ap

-- `set_default_action_smac`, up to its `send_p4_msg`.
unfoldable pub set_default_action_smac : Cmd (Unit {0})
unfolding build_default_action
set_default_action_smac = build_default_action "smac_0" "mac_learn"

-- `set_default_action_dmac`, up to its `send_p4_msg`.
unfoldable pub set_default_action_dmac : Cmd (Unit {0})
unfolding build_default_action
set_default_action_dmac = build_default_action "dmac_0" "bcast"

-- The loop of `init` over the configured ports and addresses.
unfoldable pub fill_all : List (ℕ × Mac) → List Outgoing
fill_all [] = (notify_controller_initialized, Size.header) ∷ []
fill_all ((port, mac) ∷ rest) =
    (fill_dmac_table port mac, buffer_size)
    ∷ (fill_smac_table port mac, buffer_size)
    ∷ fill_all rest

-- `init`: the messages sent, in their order.
unfoldable pub init : List (ℕ × Mac) → List Outgoing
unfolding fill_all
init macs =
    (set_default_action_smac, buffer_size) ∷ (set_default_action_dmac, buffer_size) ∷ fill_all macs
