-- ===== src/Controller/Smgw.antt =====
-- dpdk_smgw_controller.c: the messages that fill the tables of the mobile gateway.
pub mod Orders
pub mod Delivery
use t4p4s_ma.Common.{ℕ, Bool, true, false, List, [], ◌∷◌, ◌++◌, ◌+◌, ◌*◌, ◌%◌, ◌==◌, if◌then◌else◌}
use Prim.Native.String.{String}
use t4p4s_ma.Memory.{Cmd, pure, ◌>>=◌, ◌>>◌}
use t4p4s_ma.Messages.Layout.Size
use t4p4s_ma.Messages.Header.{netconv_p4_header}
use t4p4s_ma.Messages.Entry.{netconv_match_length}
use t4p4s_ma.Messages.Action.{netconv_p4_action_parameter}
use t4p4s_ma.Controller.Session.{Outgoing}
use t4p4s_ma.Controller.Parts.{
  Mac, mac_bytes, Ip, ip_bytes, bytes16, bytes32, begin_entry, put_exact, put_lpm, put_action,
  put_param, begin_default, build_default_action, buffer_size, notify_controller_initialized,
}

-- `fill_smac_table`, up to its `send_p4_msg`. The code does not use the port.
unfoldable pub fill_smac_table : ℕ → Mac → Cmd (Unit {0})
unfolding begin_entry put_exact put_action netconv_p4_header netconv_match_length
fill_smac_table port mac = do
  (h, te) ← begin_entry "smac"
  exact ← put_exact te "ethernet.srcAddr" (mac_bytes mac) (6 * 8 + 0)
  a ← put_action h "_nop"
  netconv_p4_header h
  netconv_match_length exact

-- `fill_dmac_table`, up to its `send_p4_msg`.
unfoldable pub fill_dmac_table : ℕ → Mac → Cmd (Unit {0})
unfolding begin_entry put_exact put_action put_param netconv_p4_header netconv_match_length
    netconv_p4_action_parameter
fill_dmac_table port mac = do
  (h, te) ← begin_entry "dmac"
  exact ← put_exact te "ethernet.dstAddr" (mac_bytes mac) (6 * 8 + 0)
  a ← put_action h "forward"
  ap ← put_param h a "port" (port ∷ []) (1 * 8 + 0)
  netconv_p4_header h
  netconv_match_length exact
  netconv_p4_action_parameter ap

-- The body of `fill_ue_selector_table`, for the outcome of its test `mode == 1`.
unfoldable pub ue_selector_entry : Bool → Ip → ℕ → ℕ → Ip → Cmd (Unit {0})
unfolding begin_entry put_lpm put_action put_param netconv_p4_header netconv_match_length
    netconv_p4_action_parameter
ue_selector_entry encapsulate ip prefix teid ipbst = do
  (h, te) ← begin_entry "ue_selector"
  lpm ← put_lpm te "ipv4.dstAddr" (ip_bytes ip) prefix
  if encapsulate
      then (do
        a ← put_action h "gtp_encapsulate"
        ap1 ← put_param h a "teid" (bytes32 teid) (4 * 8 + 0)
        ap2 ← put_param h a "ip" (ip_bytes ipbst) (4 * 8 + 0)
        netconv_p4_header h
        netconv_match_length lpm
        netconv_p4_action_parameter ap1
        netconv_p4_action_parameter ap2)
      else (do a ← put_action h "gtp_decapsulate"; netconv_p4_header h; netconv_match_length lpm)

-- `fill_ue_selector_table`, up to its `send_p4_msg`. The code does not use the port.
unfoldable pub fill_ue_selector_table : Ip → ℕ → ℕ → ℕ → ℕ → Ip → Cmd (Unit {0})
unfolding ue_selector_entry
fill_ue_selector_table ip prefix port mode teid ipbst =
    ue_selector_entry (mode == 1) ip prefix teid ipbst

-- The body of `fill_teid_rate_limiter_table`, for the outcomes of its two tests; one byte of the
-- key is copied.
unfoldable pub teid_rate_limiter_entry : Bool → Bool → ℕ → Cmd (Unit {0})
unfolding begin_entry put_exact put_action netconv_p4_header netconv_match_length
teid_rate_limiter_entry meter nop teid = do
  (h, te) ← begin_entry "teid_rate_limiter"
  exact ← put_exact te "gtp_metadata.teid" (teid % 256 ∷ []) (1 * 8 + 0)
  a ← put_action h (if meter then "apply_meter" else (if nop then "_nop" else "_drop"))
  netconv_p4_header h
  netconv_match_length exact

-- `fill_teid_rate_limiter_table`, up to its `send_p4_msg`.
unfoldable pub fill_teid_rate_limiter_table : ℕ → ℕ → Cmd (Unit {0})
unfolding teid_rate_limiter_entry
fill_teid_rate_limiter_table teid mode = teid_rate_limiter_entry (mode == 1) (mode == 2) teid

-- The body of `fill_m_filter_table`, for the outcome of its test `mode == 2`.
unfoldable pub m_filter_entry : Bool → ℕ → Cmd (Unit {0})
unfolding begin_entry put_exact put_action netconv_p4_header netconv_match_length
m_filter_entry nop color = do
  (h, te) ← begin_entry "m_filter"
  exact ← put_exact te "gtp_metadata.color" (color ∷ []) (1 * 8 + 0)
  a ← put_action h (if nop then "_nop" else "_drop")
  netconv_p4_header h
  netconv_match_length exact

-- `fill_m_filter_table`, up to its `send_p4_msg`.
unfoldable pub fill_m_filter_table : ℕ → ℕ → Cmd (Unit {0})
unfolding m_filter_entry
fill_m_filter_table color mode = m_filter_entry (mode == 2) color

-- `fill_ipv4_lpm_table`, up to its `send_p4_msg`.
unfoldable pub fill_ipv4_lpm_table : Ip → ℕ → ℕ → Cmd (Unit {0})
unfolding begin_entry put_lpm put_action put_param netconv_p4_header netconv_match_length
    netconv_p4_action_parameter
fill_ipv4_lpm_table ip prefix nhgrp = do
  (h, te) ← begin_entry "ipv4_lpm"
  lpm ← put_lpm te "ipv4.dstAddr" (ip_bytes ip) prefix
  a ← put_action h "set_nhgrp"
  ap ← put_param h a "nhgroup" (nhgrp ∷ []) (1 * 8 + 0)
  netconv_p4_header h
  netconv_match_length lpm
  netconv_p4_action_parameter ap

-- `fill_ipv4_forward_table`, up to its `send_p4_msg`. The code does not send `smac`.
unfoldable pub fill_ipv4_forward_table : ℕ → ℕ → Mac → Mac → Cmd (Unit {0})
unfolding begin_entry put_exact put_action put_param netconv_p4_header netconv_match_length
    netconv_p4_action_parameter
fill_ipv4_forward_table nhgroup port smac dmac = do
  (h, te) ← begin_entry "ipv4_forward"
  exact ← put_exact te "routing_metadata.nhgrp" (nhgroup ∷ []) (1 * 8 + 0)
  a ← put_action h "pkt_send"
  ap ← put_param h a "nhmac" (mac_bytes dmac) (6 * 8 + 0)
  ap3 ← put_param h a "port" (port ∷ 0 ∷ []) (2 * 8 + 0)
  netconv_p4_header h
  netconv_match_length exact
  netconv_p4_action_parameter ap
  netconv_p4_action_parameter ap3

-- `set_default_action_smac`, up to its `send_p4_msg`.
unfoldable pub set_default_action_smac : Cmd (Unit {0})
unfolding build_default_action
set_default_action_smac = build_default_action "smac" "mac_learn"

-- `set_default_action_dmac`, up to its `send_p4_msg`.
unfoldable pub set_default_action_dmac : Cmd (Unit {0})
unfolding build_default_action
set_default_action_dmac = build_default_action "dmac" "bcast"

-- `set_default_action_ue_selector_table`, up to its `send_p4_msg`.
unfoldable pub set_default_action_ue_selector_table : Cmd (Unit {0})
unfolding build_default_action
set_default_action_ue_selector_table = build_default_action "ue_selector" "drop"

-- `set_default_action_teid_rate_limiter_table`, up to its `send_p4_msg`.
unfoldable pub set_default_action_teid_rate_limiter_table : Cmd (Unit {0})
unfolding build_default_action
set_default_action_teid_rate_limiter_table = build_default_action "teid_rate_limiter" "_drop"

-- `set_default_action_m_filter_table`, up to its `send_p4_msg`.
unfoldable pub set_default_action_m_filter_table : Cmd (Unit {0})
unfolding build_default_action
set_default_action_m_filter_table = build_default_action "m_filter" "_drop"

-- `set_default_action_ipv4_forward`, up to its `send_p4_msg`.
unfoldable pub set_default_action_ipv4_forward : Cmd (Unit {0})
unfolding build_default_action
set_default_action_ipv4_forward = build_default_action "ipv4_forward" "drop"

-- `set_default_action_ipv4_lpm`, up to its `send_p4_msg`.
unfoldable pub set_default_action_ipv4_lpm : Cmd (Unit {0})
unfolding build_default_action
set_default_action_ipv4_lpm = build_default_action "ipv4_lpm" "drop"

-- A line of the configuration file, once `sscanf` has taken it apart; `mode` is the value that the
-- variable has then. What a line says as its mode is read as a number and compared as a text, so for a
-- `teid_line` and a `filter_line` it may be the one of a line before.
pub data Line : Type 0 where
  mac_line : ℕ → Mac → Line
  ue_line : Ip → ℕ → ℕ → ℕ → Ip → Line
  teid_line : ℕ → ℕ → Line
  filter_line : ℕ → ℕ → Line
  lpm_line : Ip → ℕ → ℕ → Line
  forward_line : ℕ → ℕ → Mac → Mac → Line
  smac_line : Line
  wrong_format : Line

abbrev pub is_wrong : Line → Bool
is_wrong wrong_format = true
is_wrong _ = false

-- The body of the loop of `read_config_from_file`. A line with a source address is skipped.
unfoldable pub fill_line : Line → List Outgoing
fill_line (mac_line port mac) = (fill_dmac_table port mac, buffer_size) ∷ []
fill_line (ue_line ip port mode teid ipbst) =
    (fill_ue_selector_table ip 32 port mode teid ipbst, buffer_size) ∷ []
fill_line (teid_line teid mode) = (fill_teid_rate_limiter_table teid mode, buffer_size) ∷ []
fill_line (filter_line color mode) = (fill_m_filter_table color mode, buffer_size) ∷ []
fill_line (lpm_line ip prefix nhgrp) = (fill_ipv4_lpm_table ip prefix nhgrp, buffer_size) ∷ []
fill_line (forward_line nhgrp port smac dmac) =
    (fill_ipv4_forward_table nhgrp port smac dmac, buffer_size) ∷ []
fill_line smac_line = []
fill_line wrong_format = []

-- `read_config_from_file`: a line of a wrong format ends it.
unfoldable pub fill_lines : List Line → List Outgoing
unfolding fill_line
fill_lines [] = []
fill_lines (l ∷ ls) = let rest = fill_lines ls in fill_line l ++ (if is_wrong l then [] else rest)

-- `init_complex`: the messages sent, in their order.
unfoldable pub init_complex : List Line → List Outgoing
unfolding set_default_action_ue_selector_table set_default_action_ipv4_forward
    set_default_action_ipv4_lpm fill_lines
init_complex lines =
    (set_default_action_ue_selector_table, buffer_size)
    ∷ (set_default_action_ipv4_forward, buffer_size)
    ∷ (set_default_action_ipv4_lpm, buffer_size)
    ∷ fill_lines lines

-- `init_simple`
unfoldable pub init_simple : List Outgoing
unfolding fill_ipv4_lpm_table
init_simple =
    let ip : Ip = record { b0 = 10; b1 = 0; b2 = 99; b3 = 99 } in
    (fill_ipv4_lpm_table ip 16 0, buffer_size) ∷ []
