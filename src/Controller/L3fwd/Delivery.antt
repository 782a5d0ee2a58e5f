-- ===== src/Controller/L3fwd/Delivery.antt =====
-- What the switch reads in the messages of the layer 3 controller.
use t4p4s_ma.Common.{ℕ, ◌<◌, List, [], ◌∷◌, refl, arith}
use t4p4s_ma.Memory.{load_bytes}
use t4p4s_ma.Handlers.{handle_p4_msg}
use t4p4s_ma.Controller.Parts.{Mac, mac_bytes, Ip, ip_bytes, bytes32, buffer_size}
use t4p4s_ma.Controller.Seen.{
  Order, add_entry, set_default, initialized, exact_match, lpm_match, param,
}
use t4p4s_ma.Controller.Session.{World, IsSteady, Conveys, AllConvey, Conveys-of_handled}
use t4p4s_ma.Controller.L2fwd.Delivery.{notify_lem}
use t4p4s_ma.Controller.L3fwd.{
  Line, mac_line, lpm_line, hop_line, wrong_format, fill_macfwd_table, fill_ipv4_lpm_table,
  fill_nexthops_table, set_default_action_macfwd, set_default_action_nexthops,
  set_default_action_ipv4_lpm, fill_lines, init_complex,
}

abbrev mac_order : Mac → Order
mac_order mac = add_entry "macfwd_0" (exact_match "ethernet.dstAddr" 48 (mac_bytes mac)) "_nop" []

abbrev lpm_order : Ip → ℕ → ℕ → Order
lpm_order ip prefix nhgrp =
    add_entry "ipv4_lpm_0" (lpm_match "ipv4.dstAddr" prefix (ip_bytes ip)) "set_nhop"
      (param "nhgroup" 32 (bytes32 nhgrp) ∷ [])

abbrev hop_order : ℕ → ℕ → Mac → Mac → Order
hop_order nhgroup port smac dmac =
    add_entry "nexthops_0" (exact_match "routing_metadata.nhgroup" 32 (bytes32 nhgroup)) "forward" (
      param "dmac" 48 (mac_bytes dmac)
      ∷ param "smac" 48 (mac_bytes smac)
      ∷ param "port" 16 (port ∷ 0 ∷ [])
      ∷ [])

-- The prefix lengths are bytes.
abbrev pub AreLines : List Line → Type 0
AreLines [] = Unit
AreLines (lpm_line ip prefix nhgrp ∷ ls) = (prefix < 256) × AreLines ls
AreLines (_ ∷ ls) = AreLines ls

-- The orders that the lines stand for, up to the first one of a wrong format.
abbrev pub lines_orders : List Line → List Order
lines_orders [] = initialized ∷ []
lines_orders (mac_line mac ∷ ls) = mac_order mac ∷ lines_orders ls
lines_orders (lpm_line ip prefix nhgrp ∷ ls) = lpm_order ip prefix nhgrp ∷ lines_orders ls
lines_orders (hop_line nhgrp port smac dmac ∷ ls) = hop_order nhgrp port smac dmac ∷ lines_orders ls
lines_orders (wrong_format ∷ ls) = initialized ∷ []

abbrev pub l3_init_orders : List Line → List Order
l3_init_orders lines =
    set_default "macfwd_0" "_drop" []
    ∷ set_default "nexthops_0" "_drop" []
    ∷ set_default "ipv4_lpm_0" "_drop" []
    ∷ lines_orders lines

module _ (w : World) (st : IsSteady w) where
  fill_macfwd_table_lem :
      (mac : Mac) → Conveys w (fill_macfwd_table mac) buffer_size (mac_order mac)
  unfolding fill_macfwd_table load_bytes handle_p4_msg
  fill_macfwd_table_lem mac =
      Conveys-of_handled w (fill_macfwd_table mac) buffer_size 658 (mac_order mac) st refl refl refl
        (refl, (refl, refl, refl, (refl, refl, refl, refl), refl, refl, tt))

  fill_ipv4_lpm_table_lem :
      (ip : Ip) (prefix : ℕ) (nhgrp : ℕ)
      → prefix < 256
      → Conveys w (fill_ipv4_lpm_table ip prefix nhgrp) buffer_size (lpm_order ip prefix nhgrp)
  unfolding fill_ipv4_lpm_table load_bytes handle_p4_msg
  fill_ipv4_lpm_table_lem ip prefix nhgrp h =
      Conveys-of_handled w (fill_ipv4_lpm_table ip prefix nhgrp) buffer_size 918
        (lpm_order ip prefix nhgrp) st refl refl refl
        (
          refl,
          (refl, refl, refl, (refl, refl, omega arith, refl), refl, refl, ((refl, refl, refl), tt)),
        )

  fill_nexthops_table_lem :
      (nhgroup port : ℕ) (smac dmac : Mac)
      → Conveys w
          (fill_nexthops_table nhgroup port smac dmac)
          buffer_size
          (hop_order nhgroup port smac dmac)
  unfolding fill_nexthops_table load_bytes handle_p4_msg
  fill_nexthops_table_lem nhgroup port smac dmac =
      Conveys-of_handled w (fill_nexthops_table nhgroup port smac dmac) buffer_size 1438
        (hop_order nhgroup port smac dmac) st refl refl refl
        (
          refl,
          (
            refl,
            refl,
            refl,
            (refl, refl, refl, refl),
            refl,
            refl,
            ((refl, refl, refl), ((refl, refl, refl), ((refl, refl, refl), tt))),
          ),
        )

  set_default_action_macfwd_lem :
      Conveys w set_default_action_macfwd buffer_size (set_default "macfwd_0" "_drop" [])
  unfolding set_default_action_macfwd load_bytes handle_p4_msg
  set_default_action_macfwd_lem =
      Conveys-of_handled w set_default_action_macfwd buffer_size 268
        (set_default "macfwd_0" "_drop" []) st refl refl refl (refl, (refl, refl, refl, refl, tt))

  set_default_action_nexthops_lem :
      Conveys w set_default_action_nexthops buffer_size (set_default "nexthops_0" "_drop" [])
  unfolding set_default_action_nexthops load_bytes handle_p4_msg
  set_default_action_nexthops_lem =
      Conveys-of_handled w set_default_action_nexthops buffer_size 268
        (set_default "nexthops_0" "_drop" []) st refl refl refl (refl, (refl, refl, refl, refl, tt))

  set_default_action_ipv4_lpm_lem :
      Conveys w set_default_action_ipv4_lpm buffer_size (set_default "ipv4_lpm_0" "_drop" [])
  unfolding set_default_action_ipv4_lpm load_bytes handle_p4_msg
  set_default_action_ipv4_lpm_lem =
      Conveys-of_handled w set_default_action_ipv4_lpm buffer_size 268
        (set_default "ipv4_lpm_0" "_drop" []) st refl refl refl (refl, (refl, refl, refl, refl, tt))

  fill_lines_lem :
      (lines : List Line) → AreLines lines → AllConvey w (fill_lines lines) (lines_orders lines)
  unfolding fill_lines
  fill_lines_lem [] h = (notify_lem w st, tt)
  fill_lines_lem (mac_line mac ∷ ls) h = (fill_macfwd_table_lem mac, fill_lines_lem ls h)
  fill_lines_lem (lpm_line ip prefix nhgrp ∷ ls) h =
      (fill_ipv4_lpm_table_lem ip prefix nhgrp h.0, fill_lines_lem ls h.1)
  fill_lines_lem (hop_line nhgrp port smac dmac ∷ ls) h =
      (fill_nexthops_table_lem nhgrp port smac dmac, fill_lines_lem ls h)
  fill_lines_lem (wrong_format ∷ ls) h = (notify_lem w st, tt)

  -- If no call on the sockets fails: each message of `init_complex` arrives, is handled with return
  -- code 0, and makes the callback see the order that it stands for: the three default actions, the
  -- entry of each line of the configuration up to the first of a wrong format, and the end of the
  -- initialisation. The prefix lengths are bytes.
  pub init_complex_lem :
      (lines : List Line) → AreLines lines → AllConvey w (init_complex lines) (l3_init_orders lines)
  unfolding init_complex
  init_complex_lem lines h = (
    set_default_action_macfwd_lem,
    (set_default_action_nexthops_lem, (set_default_action_ipv4_lpm_lem, fill_lines_lem lines h)),
  )
