-- ===== src/Controller/L3fwd.antt =====
-- dpdk_l3fwd_controller.c: the messages that fill the tables of the layer 3 forwarder.
pub mod Delivery
use t4p4s_ma.Common.{ℕ, Bool, true, false, List, [], ◌∷◌, ◌+◌, ◌*◌, ◌==◌, if◌then◌else◌}
use Prim.Native.String.{String}
use t4p4s_ma.Memory.{Cmd, pure, ◌>>=◌, ◌>>◌}
use t4p4s_ma.Messages.Layout.Size
use t4p4s_ma.Messages.Header.{netconv_p4_header}
use t4p4s_ma.Messages.Entry.{netconv_match_length}
use t4p4s_ma.Messages.Action.{netconv_p4_action_parameter}
use t4p4s_ma.Controller.Session.{Outgoing}
use t4p4s_ma.Controller.Parts.{
  Mac, mac_bytes, Ip, ip_bytes, bytes16, bytes32, begin_entry, put_exact, put_lpm, put_action,
  put_param, begin_default, build_default_action, buffer_size, notify_controller_initialized,
}

-- `fill_macfwd_table`, up to its `send_p4_msg`.
unfoldable pub fill_macfwd_table : Mac → Cmd (Unit {0})
unfolding begin_entry put_exact put_action netconv_p4_header netconv_match_length
fill_macfwd_table mac = do
  (h, te) ← begin_entry "macfwd_0"
  exact ← put_exact te "ethernet.dstAddr" (mac_bytes mac) (6 * 8 + 0)
  a ← put_action h "_nop"
  netconv_p4_header h
  netconv_match_length exact

-- `fill_ipv4_lpm_table`, up to its `send_p4_msg`.
unfoldable pub fill_ipv4_lpm_table : Ip → ℕ → ℕ → Cmd (Unit {0})
unfolding begin_entry put_lpm put_action put_param netconv_p4_header netconv_match_length
    netconv_p4_action_parameter
fill_ipv4_lpm_table ip prefix nhgrp = do
  (h, te) ← begin_entry "ipv4_lpm_0"
  lpm ← put_lpm te "ipv4.dstAddr" (ip_bytes ip) prefix
  a ← put_action h "set_nhop"
  ap ← put_param h a "nhgroup" (bytes32 nhgrp) (4 * 8 + 0)
  netconv_p4_header h
  netconv_match_length lpm
  netconv_p4_action_parameter ap

-- `fill_nexthops_table`, up to its `send_p4_msg`.
unfoldable pub fill_nexthops_table : ℕ → ℕ → Mac → Mac → Cmd (Unit {0})
unfolding begin_entry put_exact put_action put_param netconv_p4_header netconv_match_length
    netconv_p4_action_parameter
fill_nexthops_table nhgroup port smac dmac = do
  (h, te) ← begin_entry "nexthops_0"
  exact ← put_exact te "routing_metadata.nhgroup" (bytes32 nhgroup) (4 * 8 + 0)
  a ← put_action h "forward"
  ap ← put_param h a "dmac" (mac_bytes dmac) (6 * 8 + 0)
  ap2 ← put_param h a "smac" (mac_bytes smac) (6 * 8 + 0)
  ap3 ← put_param h a "port" (port ∷ 0 ∷ []) (2 * 8 + 0)
  netconv_p4_header h
  netconv_match_length exact
  netconv_p4_action_parameter ap
  netconv_p4_action_parameter ap2
  netconv_p4_action_parameter ap3

-- `set_default_action_macfwd`, up to its `send_p4_msg`.
unfoldable pub set_default_action_macfwd : Cmd (Unit {0})
unfolding build_default_action
set_default_action_macfwd = build_default_action "macfwd_0" "_drop"

-- `set_default_action_nexthops`, up to its `send_p4_msg`.
unfoldable pub set_default_action_nexthops : Cmd (Unit {0})
unfolding build_default_action
set_default_action_nexthops = build_default_action "nexthops_0" "_drop"

-- `set_default_action_ipv4_lpm`, up to its `send_p4_msg`.
unfoldable pub set_default_action_ipv4_lpm : Cmd (Unit {0})
unfolding build_default_action
set_default_action_ipv4_lpm = build_default_action "ipv4_lpm_0" "_drop"

-- A line of the configuration file, once `sscanf` has taken it apart.
pub data Line : Type 0 where
  mac_line : Mac → Line
  lpm_line : Ip → ℕ → ℕ → Line
  hop_line : ℕ → ℕ → Mac → Mac → Line
  wrong_format : Line

-- `read_config_from_file`, and behind it, whatever it returned, the notification. A line of the
-- wrong format ends the reading.
unfoldable pub fill_lines : List Line → List Outgoing
fill_lines [] = (notify_controller_initialized, Size.header) ∷ []
fill_lines (mac_line mac ∷ ls) = (fill_macfwd_table mac, buffer_size) ∷ fill_lines ls
fill_lines (lpm_line ip prefix nhgrp ∷ ls) =
    (fill_ipv4_lpm_table ip prefix nhgrp, buffer_size) ∷ fill_lines ls
fill_lines (hop_line nhgrp port smac dmac ∷ ls) =
    (fill_nexthops_table nhgrp port smac dmac, buffer_size) ∷ fill_lines ls
fill_lines (wrong_format ∷ ls) = (notify_controller_initialized, Size.header) ∷ []

-- `init_complex`: the messages sent, in their order, for a file with these lines.
unfoldable pub init_complex : List Line → List Outgoing
unfolding fill_lines
init_complex lines =
    (set_default_action_macfwd, buffer_size)
    ∷ (set_default_action_nexthops, buffer_size)
    ∷ (set_default_action_ipv4_lpm, buffer_size)
    ∷ fill_lines lines

-- `init_simple`
unfoldable pub init_simple : List Outgoing
unfolding fill_ipv4_lpm_table fill_nexthops_table
init_simple =
    let ip : Ip = record { b0 = 10; b1 = 0; b2 = 99; b3 = 99 } in
    let mac : Mac = record { b0 = 210; b1 = 105; b2 = 15; b3 = 168; b4 = 57; b5 = 156 } in
    let smac : Mac = record { b0 = 210; b1 = 105; b2 = 15; b3 = 0; b4 = 0; b5 = 156 } in
    (fill_ipv4_lpm_table ip 16 0, buffer_size)
    ∷ (fill_nexthops_table 0 15 smac mac, buffer_size)
    ∷ []
