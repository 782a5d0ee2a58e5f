-- ===== src/Controller/StateMachine.antt =====
-- dpdk_state-machine-table_controller.c: the messages that fill the tables of a flow's state
-- machine. dpdk_state-machine-register_controller.c has some of the same functions.
pub mod Delivery
use t4p4s_ma.Common.{ℕ, Bool, true, false, List, [], ◌∷◌, ◌+◌, ◌*◌, ◌==◌, if◌then◌else◌}
use Prim.Native.String.{String}
use t4p4s_ma.Memory.{Cmd, pure, ◌>>=◌, ◌>>◌}
use t4p4s_ma.Messages.Layout.Size
use t4p4s_ma.Messages.Header.{netconv_p4_header}
use t4p4s_ma.Messages.Entry.{netconv_match_length}
use t4p4s_ma.Messages.Action.{netconv_p4_action_parameter}
use t4p4s_ma.Controller.Session.{Outgoing}
use t4p4s_ma.Controller.Parts.{
  Mac, mac_bytes, Ip, ip_bytes, bytes16, bytes32, begin_entry, put_exact, put_lpm, put_action,
  put_param, begin_default, build_default_action, buffer_size, notify_controller_initialized,
}
use t4p4s_ma.Controller.L2fwd

-- `fill_dmac_table`
unfoldable pub fill_dmac_table : ℕ → Mac → Cmd (Unit {0})
unfolding L2fwd.fill_dmac_table
fill_dmac_table = L2fwd.fill_dmac_table

-- `fill_state_table`, up to its `send_p4_msg`.
unfoldable pub fill_state_table : ℕ → String → Cmd (Unit {0})
unfolding begin_entry put_exact put_action netconv_p4_header netconv_match_length
fill_state_table state function = do
  (h, te) ← begin_entry "switch_state_0"
  exact ← put_exact te "state_metadata.current_state" (bytes16 state) (2 * 8 + 0)
  a ← put_action h function
  netconv_p4_header h
  netconv_match_length exact

-- `fill_map_flow_to_state_table`, up to its `send_p4_msg`.
unfoldable pub fill_map_flow_to_state_table : Ip → List ℕ → Cmd (Unit {0})
unfolding begin_entry put_exact put_action put_param netconv_p4_header netconv_match_length
    netconv_p4_action_parameter
fill_map_flow_to_state_table flow_id state = do
  (h, te) ← begin_entry "map_flow_to_state_0"
  exact ← put_exact te "state_metadata.flow_id" (ip_bytes flow_id) (4 * 8 + 0)
  a ← put_action h "existing_flow"
  ap ← put_param h a "state" state (2 * 8 + 0)
  netconv_p4_header h
  netconv_match_length exact
  netconv_p4_action_parameter ap

-- `set_default_action_dmac`, up to its `send_p4_msg`: the default action has a parameter.
unfoldable pub set_default_action_dmac : Cmd (Unit {0})
unfolding begin_default put_param netconv_p4_header netconv_p4_action_parameter
set_default_action_dmac = do
  (h, a) ← begin_default "dmac_0" "forward"
  ap ← put_param h a "port" (0 ∷ []) (1 * 8 + 0)
  netconv_p4_header h
  netconv_p4_action_parameter ap

-- `set_default_action_map_flow_to_state`, up to its `send_p4_msg`.
unfoldable pub set_default_action_map_flow_to_state : Cmd (Unit {0})
unfolding build_default_action
set_default_action_map_flow_to_state = build_default_action "map_flow_to_state_0" "new_flow"

-- `init`: the messages sent, in their order.
unfoldable pub init : List Outgoing
unfolding set_default_action_dmac set_default_action_map_flow_to_state fill_state_table
init =
    (set_default_action_dmac, buffer_size)
    ∷ (set_default_action_map_flow_to_state, buffer_size)
    ∷ (fill_state_table 0 "new_state", buffer_size)
    ∷ (fill_state_table 1 "state1", buffer_size)
    ∷ (fill_state_table 2 "state2", buffer_size)
    ∷ (fill_state_table 3 "state3", buffer_size)
    ∷ (fill_state_table 4 "state4", buffer_size)
    ∷ (fill_state_table 5 "state5", buffer_size)
    ∷ (notify_controller_initialized, Size.header)
    ∷ []
