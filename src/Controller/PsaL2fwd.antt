-- ===== src/Controller/PsaL2fwd.antt =====
-- dpdk_psa_l2fwd_controller.c: the layer 2 controller for the PSA, where a port has 32 bits.
pub mod Delivery
use t4p4s_ma.Common.{ℕ, Bool, true, false, List, [], ◌∷◌, ◌+◌, ◌*◌, ◌==◌, if◌then◌else◌}
use Prim.Native.String.{String}
use t4p4s_ma.Memory.{Cmd, pure, ◌>>=◌, ◌>>◌}
use t4p4s_ma.Messages.Layout.Size
use t4p4s_ma.Messages.Header.{netconv_p4_header}
use t4p4s_ma.Messages.Entry.{netconv_match_length}
use t4p4s_ma.Messages.Action.{netconv_p4_action_parameter}
use t4p4s_ma.Controller.Session.{Outgoing}
use t4p4s_ma.Controller.Parts.{
  Mac, mac_bytes, Ip, ip_bytes, bytes16, bytes32, begin_entry, put_exact, put_lpm, put_action,
  put_param, begin_default, build_default_action, buffer_size, notify_controller_initialized,
}
use t4p4s_ma.Controller.L2fwd

-- `fill_smac_table`
unfoldable pub fill_smac_table : ℕ → Mac → Cmd (Unit {0})
unfolding L2fwd.fill_smac_table
fill_smac_table = L2fwd.fill_smac_table

-- `fill_dmac_table`, up to its `send_p4_msg`; the three upper bytes of the port are set to 0.
unfoldable pub fill_dmac_table : ℕ → Mac → Cmd (Unit {0})
unfolding begin_entry put_exact put_action put_param netconv_p4_header netconv_match_length
    netconv_p4_action_parameter
fill_dmac_table port mac = do
  (h, te) ← begin_entry "dmac_0"
  exact ← put_exact te "ethernet.dstAddr" (mac_bytes mac) (6 * 8 + 0)
  a ← put_action h "forward"
  ap ← put_param h a "port" (port ∷ 0 ∷ 0 ∷ 0 ∷ []) (4 * 8 + 0)
  netconv_p4_header h
  netconv_match_length exact
  netconv_p4_action_parameter ap

-- `set_default_action_smac` and `set_default_action_dmac`
unfoldable pub set_default_action_smac : Cmd (Unit {0})
unfolding L2fwd.set_default_action_smac
set_default_action_smac = L2fwd.set_default_action_smac

unfoldable pub set_default_action_dmac : Cmd (Unit {0})
unfolding L2fwd.set_default_action_dmac
set_default_action_dmac = L2fwd.set_default_action_dmac

-- The loop of `init` over the configured ports and addresses.
unfoldable pub fill_all : List (ℕ × Mac) → List Outgoing
fill_all [] = (notify_controller_initialized, Size.header) ∷ []
fill_all ((port, mac) ∷ rest) =
    (fill_dmac_table port mac, buffer_size)
    ∷ (fill_smac_table port mac, buffer_size)
    ∷ fill_all rest

-- `init`: the messages sent, in their order.
unfoldable pub init : List (ℕ × Mac) → List Outgoing
unfolding fill_all
init macs =
    (set_default_action_smac, buffer_size) ∷ (set_default_action_dmac, buffer_size) ∷ fill_all macs
