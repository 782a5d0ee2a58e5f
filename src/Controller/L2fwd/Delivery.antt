-- ===== src/Controller/L2fwd/Delivery.antt =====
-- What the switch reads in the messages of the layer 2 controller.
use t4p4s_ma.Common.{ℕ, ◌+◌, ◌*◌, ◌≡◌, ◌≤◌, List, [], ◌∷◌, length, refl, arith}
use t4p4s_ma.Memory.{load_bytes, store_bytes}
use t4p4s_ma.Messages.Layout.Size
use t4p4s_ma.Handlers.{handle_p4_msg}
use t4p4s_ma.Controller.Parts.{Mac, mac_bytes, buffer_size, notify_controller_initialized}
use t4p4s_ma.Controller.Seen.{Order, add_entry, set_default, initialized, exact_match, param}
use t4p4s_ma.Controller.Session.{World, IsSteady, Conveys, AllConvey, Conveys-of_handled}
use t4p4s_ma.Fifo.{queue_size}
use t4p4s_ma.Controller.Outbox.{Outbox, Turn, run}
use t4p4s_ma.Controller.Outbox.Kept.{Queued, Kept, run-Kept}
use t4p4s_ma.Controller.Outbox.Sent.{Arrives, AllConvey-AreSent, run-Arrives}
use t4p4s_ma.Controller.L2fwd.{
  fill_smac_table, fill_dmac_table, set_default_action_smac, set_default_action_dmac, fill_all,
  init,
}

abbrev pub smac_order : Mac → Order
smac_order mac = add_entry "smac_0" (exact_match "ethernet.srcAddr" 48 (mac_bytes mac)) "_nop" []

abbrev pub dmac_order : ℕ → Mac → Order
dmac_order port mac =
    add_entry "dmac_0" (exact_match "ethernet.dstAddr" 48 (mac_bytes mac)) "forward"
      (param "port" 8 (port ∷ []) ∷ [])

-- The orders that the configured ports and addresses stand for.
abbrev pub fill_orders : List (ℕ × Mac) → List Order
fill_orders [] = initialized ∷ []
fill_orders ((port, mac) ∷ rest) = dmac_order port mac ∷ smac_order mac ∷ fill_orders rest

abbrev pub init_orders : List (ℕ × Mac) → List Order
init_orders macs =
    set_default "smac_0" "mac_learn" [] ∷ set_default "dmac_0" "bcast" [] ∷ fill_orders macs

module _ (w : World) (st : IsSteady w) where
  pub fill_dmac_table_lem :
      (port : ℕ) (mac : Mac)
      → Conveys w (fill_dmac_table port mac) buffer_size (dmac_order port mac)
  unfolding fill_dmac_table load_bytes handle_p4_msg
  fill_dmac_table_lem port mac =
      Conveys-of_handled w (fill_dmac_table port mac) buffer_size 918 (dmac_order port mac) st refl
        refl refl
        (refl, (refl, refl, refl, (refl, refl, refl, refl), refl, refl, ((refl, refl, refl), tt)))

  pub fill_smac_table_lem :
      (port : ℕ) (mac : Mac) → Conveys w (fill_smac_table port mac) buffer_size (smac_order mac)
  unfolding fill_smac_table load_bytes handle_p4_msg
  fill_smac_table_lem port mac =
      Conveys-of_handled w (fill_smac_table port mac) buffer_size 658 (smac_order mac) st refl refl
        refl (refl, (refl, refl, refl, (refl, refl, refl, refl), refl, refl, tt))

  set_default_action_smac_lem :
      Conveys w set_default_action_smac buffer_size (set_default "smac_0" "mac_learn" [])
  unfolding set_default_action_smac load_bytes handle_p4_msg
  set_default_action_smac_lem =
      Conveys-of_handled w set_default_action_smac buffer_size 268
        (set_default "smac_0" "mac_learn" []) st refl refl refl (refl, (refl, refl, refl, refl, tt))

  set_default_action_dmac_lem :
      Conveys w set_default_action_dmac buffer_size (set_default "dmac_0" "bcast" [])
  unfolding set_default_action_dmac load_bytes handle_p4_msg
  set_default_action_dmac_lem =
      Conveys-of_handled w set_default_action_dmac buffer_size 268 (set_default "dmac_0" "bcast" [])
        st refl refl refl (refl, (refl, refl, refl, refl, tt))

  pub notify_lem : Conveys w notify_controller_initialized Size.header initialized
  unfolding notify_controller_initialized load_bytes handle_p4_msg store_bytes
  notify_lem =
      Conveys-of_handled w notify_controller_initialized Size.header 8 initialized st refl refl refl
        (refl, (refl, refl))

  fill_all_lem : (macs : List (ℕ × Mac)) → AllConvey w (fill_all macs) (fill_orders macs)
  unfolding fill_all
  fill_all_lem [] = (notify_lem, tt)
  fill_all_lem ((port, mac) ∷ rest) =
      (fill_dmac_table_lem port mac, (fill_smac_table_lem port mac, fill_all_lem rest))

  init-AllConvey : (macs : List (ℕ × Mac)) → AllConvey w (init macs) (init_orders macs)
  unfolding init
  init-AllConvey macs =
      (set_default_action_smac_lem, (set_default_action_dmac_lem, fill_all_lem macs))

  length-fill_all : (macs : List (ℕ × Mac)) → length (fill_all macs) ≡ 2 * length macs + 1
  unfolding fill_all
  length-fill_all [] = refl
  length-fill_all ((port, mac) ∷ rest) = omega (arith, length-fill_all rest)

  length-init : (macs : List (ℕ × Mac)) → length (init macs) ≡ 2 * length macs + 3
  unfolding init
  length-init macs = omega (arith, length-fill_all macs)

  -- If no call on the sockets fails, if the output queue is empty before, and if the configured ports
  -- and addresses are so few that all messages fit into it, `2 * n + 3 ≤ 1024`. Whatever is in the
  -- buffers, and however the sockets split the bytes: each message of `init` that the output thread takes
  -- from the queue is handled with return code 0, and makes the callback see the order that it stands
  -- for: the default actions, an entry of both tables for each port and address, and the end of the
  -- initialisation. Whenever the output thread has its turns, none of them is lost or doubled, and they
  -- arrive in their order; when it has enough turns behind `init`, all have arrived.
  pub init_lem :
      (macs : List (ℕ × Mac)) (c : Outbox) (turns : List Turn)
      → Queued w c []
      → 2 * length macs + 3 ≤ queue_size
      → AllConvey w (init macs) (init_orders macs)
        × Kept w (init macs) (run w turns (init macs) c)
        × Arrives w (init macs) c
  init_lem macs c turns q room =
      let conveyed = init-AllConvey macs in
      let sent = AllConvey-AreSent w (init macs) (init_orders macs) conveyed in
      let fits : length (init macs) ≤ queue_size = omega (arith, length-init macs) in
      (
        conveyed,
        run-Kept w turns [] (init macs) c q sent (omega arith),
        run-Arrives w (init macs) c q sent fits,
      )
