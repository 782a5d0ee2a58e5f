-- ===== src/Controller/Smgw/Orders.antt =====
-- What the messages of the mobile gateway's controller stand for.
use t4p4s_ma.Common.{ℕ, ◌<◌, Bool, true, false, List, [], ◌∷◌, ◌++◌, ◌==◌, if◌then◌else◌, ◌%◌}
use t4p4s_ma.Controller.Parts.{Mac, mac_bytes, Ip, ip_bytes, bytes32}
use t4p4s_ma.Controller.Seen.{Order, add_entry, exact_match, lpm_match, param}
use t4p4s_ma.Controller.Smgw.{
  Line, mac_line, ue_line, teid_line, filter_line, lpm_line, forward_line, smac_line, wrong_format,
  is_wrong,
}

abbrev pub dmac_order : ℕ → Mac → Order
dmac_order port mac =
    add_entry "dmac" (exact_match "ethernet.dstAddr" 48 (mac_bytes mac)) "forward"
      (param "port" 8 (port ∷ []) ∷ [])

abbrev pub ue_order : Bool → Ip → ℕ → ℕ → Ip → Order
ue_order true ip prefix teid ipbst =
    add_entry "ue_selector" (lpm_match "ipv4.dstAddr" prefix (ip_bytes ip)) "gtp_encapsulate"
      (param "teid" 32 (bytes32 teid) ∷ param "ip" 32 (ip_bytes ipbst) ∷ [])
ue_order false ip prefix teid ipbst =
    add_entry "ue_selector" (lpm_match "ipv4.dstAddr" prefix (ip_bytes ip)) "gtp_decapsulate" []

-- The key has the lowest byte of the tunnel's identifier only.
abbrev pub teid_order : Bool → Bool → ℕ → Order
teid_order meter nop teid =
    add_entry "teid_rate_limiter" (exact_match "gtp_metadata.teid" 8 (teid % 256 ∷ []))
      (if meter then "apply_meter" else (if nop then "_nop" else "_drop")) []

abbrev pub filter_order : Bool → ℕ → Order
filter_order nop color =
    add_entry "m_filter" (exact_match "gtp_metadata.color" 8 (color ∷ []))
      (if nop then "_nop" else "_drop") []

abbrev pub lpm_order : Ip → ℕ → ℕ → Order
lpm_order ip prefix nhgrp =
    add_entry "ipv4_lpm" (lpm_match "ipv4.dstAddr" prefix (ip_bytes ip)) "set_nhgrp"
      (param "nhgroup" 8 (nhgrp ∷ []) ∷ [])

abbrev pub forward_order : ℕ → ℕ → Mac → Order
forward_order nhgroup port dmac =
    add_entry "ipv4_forward" (exact_match "routing_metadata.nhgrp" 8 (nhgroup ∷ [])) "pkt_send"
      (param "nhmac" 48 (mac_bytes dmac) ∷ param "port" 16 (port ∷ 0 ∷ []) ∷ [])

-- The order that a line stands for, if it stands for one. The modes are those of the code: for a tunnel
-- 1 is `apply_meter` and 2 is `_nop`, for a color 2 is `_nop`.
abbrev pub line_orders : Line → List Order
line_orders (mac_line port mac) = dmac_order port mac ∷ []
line_orders (ue_line ip port mode teid ipbst) = ue_order (mode == 1) ip 32 teid ipbst ∷ []
line_orders (teid_line teid mode) = teid_order (mode == 1) (mode == 2) teid ∷ []
line_orders (filter_line color mode) = filter_order (mode == 2) color ∷ []
line_orders (lpm_line ip prefix nhgrp) = lpm_order ip prefix nhgrp ∷ []
line_orders (forward_line nhgrp port smac dmac) = forward_order nhgrp port dmac ∷ []
line_orders smac_line = []
line_orders wrong_format = []

-- The orders of the lines, up to the first one of a wrong format.
abbrev pub lines_orders : List Line → List Order
lines_orders [] = []
lines_orders (l ∷ ls) =
    let rest = lines_orders ls in line_orders l ++ (if is_wrong l then [] else rest)

-- The prefix length is a byte.
abbrev pub IsLine : Line → Type 0
IsLine (lpm_line ip prefix nhgrp) = prefix < 256
IsLine _ = Unit

abbrev pub AreLines : List Line → Type 0
AreLines [] = Unit
AreLines (l ∷ ls) = IsLine l × AreLines ls
