-- ===== src/Controller/PsaL2fwd/Delivery.antt =====
-- What the switch reads in the messages of the PSA's layer 2 controller.
use t4p4s_ma.Common.{ℕ, List, [], ◌∷◌, refl}
use t4p4s_ma.Memory.{load_bytes}
use t4p4s_ma.Handlers.{handle_p4_msg}
use t4p4s_ma.Controller.Parts.{Mac, mac_bytes, buffer_size}
use t4p4s_ma.Controller.Seen.{Order, add_entry, set_default, initialized, exact_match, param}
use t4p4s_ma.Controller.Session.{World, IsSteady, Conveys, AllConvey, Conveys-of_handled}
use t4p4s_ma.Controller.L2fwd.Delivery.{notify_lem}
use t4p4s_ma.Controller.PsaL2fwd.{
  fill_smac_table, fill_dmac_table, set_default_action_smac, set_default_action_dmac, fill_all,
  init,
}

abbrev pub psa_smac_order : Mac → Order
psa_smac_order mac =
    add_entry "smac_0" (exact_match "ethernet.srcAddr" 48 (mac_bytes mac)) "_nop" []

abbrev pub psa_dmac_order : ℕ → Mac → Order
psa_dmac_order port mac =
    add_entry "dmac_0" (exact_match "ethernet.dstAddr" 48 (mac_bytes mac)) "forward"
      (param "port" 32 (port ∷ 0 ∷ 0 ∷ 0 ∷ []) ∷ [])

abbrev fill_orders : List (ℕ × Mac) → List Order
fill_orders [] = initialized ∷ []
fill_orders ((port, mac) ∷ rest) = psa_dmac_order port mac ∷ psa_smac_order mac ∷ fill_orders rest

abbrev pub psa_init_orders : List (ℕ × Mac) → List Order
psa_init_orders macs =
    set_default "smac_0" "mac_learn" [] ∷ set_default "dmac_0" "bcast" [] ∷ fill_orders macs

module _ (w : World) (st : IsSteady w) where
  pub psa_fill_dmac_table_lem :
      (port : ℕ) (mac : Mac)
      → Conveys w (fill_dmac_table port mac) buffer_size (psa_dmac_order port mac)
  unfolding fill_dmac_table load_bytes handle_p4_msg
  psa_fill_dmac_table_lem port mac =
      Conveys-of_handled w (fill_dmac_table port mac) buffer_size 918 (psa_dmac_order port mac) st
        refl refl refl
        (refl, (refl, refl, refl, (refl, refl, refl, refl), refl, refl, ((refl, refl, refl), tt)))

  pub psa_fill_smac_table_lem :
      (port : ℕ) (mac : Mac) → Conveys w (fill_smac_table port mac) buffer_size (psa_smac_order mac)
  unfolding fill_smac_table load_bytes handle_p4_msg
  psa_fill_smac_table_lem port mac =
      Conveys-of_handled w (fill_smac_table port mac) buffer_size 658 (psa_smac_order mac) st refl
        refl refl (refl, (refl, refl, refl, (refl, refl, refl, refl), refl, refl, tt))

  set_default_action_smac_lem :
      Conveys w set_default_action_smac buffer_size (set_default "smac_0" "mac_learn" [])
  unfolding set_default_action_smac load_bytes handle_p4_msg
  set_default_action_smac_lem =
      Conveys-of_handled w set_default_action_smac buffer_size 268
        (set_default "smac_0" "mac_learn" []) st refl refl refl (refl, (refl, refl, refl, refl, tt))

  set_default_action_dmac_lem :
      Conveys w set_default_action_dmac buffer_size (set_default "dmac_0" "bcast" [])
  unfolding set_default_action_dmac load_bytes handle_p4_msg
  set_default_action_dmac_lem =
      Conveys-of_handled w set_default_action_dmac buffer_size 268 (set_default "dmac_0" "bcast" [])
        st refl refl refl (refl, (refl, refl, refl, refl, tt))

  fill_all_lem : (macs : List (ℕ × Mac)) → AllConvey w (fill_all macs) (fill_orders macs)
  unfolding fill_all
  fill_all_lem [] = (notify_lem w st, tt)
  fill_all_lem ((port, mac) ∷ rest) =
      (psa_fill_dmac_table_lem port mac, (psa_fill_smac_table_lem port mac, fill_all_lem rest))

  -- If no call on the sockets fails: each message of the PSA controller's `init` arrives, is handled
  -- with return code 0, and makes the callback see the order that it stands for, with the port as a
  -- parameter of 32 bits.
  pub psa_init_lem : (macs : List (ℕ × Mac)) → AllConvey w (init macs) (psa_init_orders macs)
  unfolding init
  psa_init_lem macs =
      (set_default_action_smac_lem, (set_default_action_dmac_lem, fill_all_lem macs))
