-- ===== src/Controller/Portfwd.antt =====
-- dpdk_portfwd_controller.c: the messages that fill the table of the port forwarder.
pub mod Delivery
use t4p4s_ma.Common.{ℕ, Bool, true, false, List, [], ◌∷◌, ◌+◌, ◌*◌, ◌==◌, if◌then◌else◌}
use Prim.Native.String.{String}
use t4p4s_ma.Memory.{Cmd, pure, ◌>>=◌, ◌>>◌}
use t4p4s_ma.Messages.Layout.Size
use t4p4s_ma.Messages.Header.{netconv_p4_header}
use t4p4s_ma.Messages.Entry.{netconv_match_length}
use t4p4s_ma.Messages.Action.{netconv_p4_action_parameter}
use t4p4s_ma.Controller.Session.{Outgoing}
use t4p4s_ma.Controller.Parts.{
  Mac, mac_bytes, Ip, ip_bytes, bytes16, bytes32, begin_entry, put_exact, put_lpm, put_action,
  put_param, begin_default, build_default_action, buffer_size, notify_controller_initialized,
}

-- `fill_t_fwd_table`, up to its `send_p4_msg`.
unfoldable pub fill_t_fwd_table : ℕ → ℕ → Mac → Bool → Cmd (Unit {0})
unfolding begin_entry put_exact put_action put_param netconv_p4_header netconv_match_length
    netconv_p4_action_parameter
fill_t_fwd_table inport port mac wmac = do
  (h, te) ← begin_entry "t_fwd"
  exact ← put_exact te "standard_metadata.ingress_port" (bytes16 inport) (2 * 8 + 0)
  if wmac
      then (do
        a ← put_action h "forward_rewrite"
        ap ← put_param h a "port" (port ∷ []) (1 * 8 + 0)
        ap2 ← put_param h a "mac" (mac_bytes mac) (6 * 8 + 0)
        netconv_p4_header h
        netconv_match_length exact
        netconv_p4_action_parameter ap
        netconv_p4_action_parameter ap2)
      else (do
        a ← put_action h "forward"
        ap ← put_param h a "port" (port ∷ []) (1 * 8 + 0)
        netconv_p4_header h
        netconv_match_length exact
        netconv_p4_action_parameter ap)

-- `set_default_action_t_fwd`, up to its `send_p4_msg`.
unfoldable pub set_default_action_t_fwd : Cmd (Unit {0})
unfolding build_default_action
set_default_action_t_fwd = build_default_action "t_fwd" "_drop"

-- The global variables of one direction, uplink or downlink.
pub record Link : Type 0 where
  pub with_mac : Bool
  pub mac : Mac
  pub port : ℕ
  pub inport : ℕ

-- `init`: the messages sent, in their order.
unfoldable pub init : Link → Link → List Outgoing
unfolding set_default_action_t_fwd fill_t_fwd_table
init up down =
    (set_default_action_t_fwd, buffer_size)
    ∷ (fill_t_fwd_table up.inport up.port up.mac up.with_mac, buffer_size)
    ∷ (fill_t_fwd_table down.inport down.port down.mac down.with_mac, buffer_size)
    ∷ []
