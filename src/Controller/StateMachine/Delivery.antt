-- ===== src/Controller/StateMachine/Delivery.antt =====
-- What the switch reads in the messages of the state machine's controller.
use t4p4s_ma.Common.{ℕ, List, [], ◌∷◌, refl}
use Prim.Native.String.{String}
use t4p4s_ma.Memory.{load_bytes}
use t4p4s_ma.Handlers.{handle_p4_msg}
use t4p4s_ma.Controller.Parts.{Ip, ip_bytes, bytes16, buffer_size}
use t4p4s_ma.Controller.Seen.{Order, add_entry, set_default, initialized, exact_match, param}
use t4p4s_ma.Controller.Session.{World, IsSteady, Conveys, AllConvey, Conveys-of_handled}
use t4p4s_ma.Controller.L2fwd.Delivery.{notify_lem}
use t4p4s_ma.Controller.StateMachine.{
  fill_state_table, fill_map_flow_to_state_table, set_default_action_dmac,
  set_default_action_map_flow_to_state, init,
}

abbrev state_order : ℕ → String → Order
state_order state function =
    add_entry "switch_state_0" (exact_match "state_metadata.current_state" 16 (bytes16 state))
      function []

abbrev pub flow_order : Ip → List ℕ → Order
flow_order flow_id state =
    add_entry "map_flow_to_state_0" (exact_match "state_metadata.flow_id" 32 (ip_bytes flow_id))
      "existing_flow" (param "state" 16 state ∷ [])

abbrev pub state_init_orders : List Order
state_init_orders =
    set_default "dmac_0" "forward" (param "port" 8 (0 ∷ []) ∷ [])
    ∷ set_default "map_flow_to_state_0" "new_flow" []
    ∷ state_order 0 "new_state"
    ∷ state_order 1 "state1"
    ∷ state_order 2 "state2"
    ∷ state_order 3 "state3"
    ∷ state_order 4 "state4"
    ∷ state_order 5 "state5"
    ∷ initialized
    ∷ []

module _ (w : World) (st : IsSteady w) where
  set_default_action_dmac_lem :
      Conveys w set_default_action_dmac buffer_size
        (set_default "dmac_0" "forward" (param "port" 8 (0 ∷ []) ∷ []))
  unfolding set_default_action_dmac load_bytes handle_p4_msg
  set_default_action_dmac_lem =
      Conveys-of_handled w set_default_action_dmac buffer_size 528
        (set_default "dmac_0" "forward" (param "port" 8 (0 ∷ []) ∷ [])) st refl refl refl
        (refl, (refl, refl, refl, refl, ((refl, refl, refl), tt)))

  set_default_action_map_flow_to_state_lem :
      Conveys w set_default_action_map_flow_to_state buffer_size
        (set_default "map_flow_to_state_0" "new_flow" [])
  unfolding set_default_action_map_flow_to_state load_bytes handle_p4_msg
  set_default_action_map_flow_to_state_lem =
      Conveys-of_handled w set_default_action_map_flow_to_state buffer_size 268
        (set_default "map_flow_to_state_0" "new_flow" []) st refl refl refl
        (refl, (refl, refl, refl, refl, tt))

  new_state_lem : Conveys w (fill_state_table 0 "new_state") buffer_size (state_order 0 "new_state")
  unfolding fill_state_table load_bytes handle_p4_msg
  new_state_lem =
      Conveys-of_handled w (fill_state_table 0 "new_state") buffer_size 658
        (state_order 0 "new_state") st refl refl refl
        (refl, (refl, refl, refl, (refl, refl, refl, refl), refl, refl, tt))

  state1_lem : Conveys w (fill_state_table 1 "state1") buffer_size (state_order 1 "state1")
  unfolding fill_state_table load_bytes handle_p4_msg
  state1_lem =
      Conveys-of_handled w (fill_state_table 1 "state1") buffer_size 658 (state_order 1 "state1") st
        refl refl refl (refl, (refl, refl, refl, (refl, refl, refl, refl), refl, refl, tt))

  state2_lem : Conveys w (fill_state_table 2 "state2") buffer_size (state_order 2 "state2")
  unfolding fill_state_table load_bytes handle_p4_msg
  state2_lem =
      Conveys-of_handled w (fill_state_table 2 "state2") buffer_size 658 (state_order 2 "state2") st
        refl refl refl (refl, (refl, refl, refl, (refl, refl, refl, refl), refl, refl, tt))

  state3_lem : Conveys w (fill_state_table 3 "state3") buffer_size (state_order 3 "state3")
  unfolding fill_state_table load_bytes handle_p4_msg
  state3_lem =
      Conveys-of_handled w (fill_state_table 3 "state3") buffer_size 658 (state_order 3 "state3") st
        refl refl refl (refl, (refl, refl, refl, (refl, refl, refl, refl), refl, refl, tt))

  state4_lem : Conveys w (fill_state_table 4 "state4") buffer_size (state_order 4 "state4")
  unfolding fill_state_table load_bytes handle_p4_msg
  state4_lem =
      Conveys-of_handled w (fill_state_table 4 "state4") buffer_size 658 (state_order 4 "state4") st
        refl refl refl (refl, (refl, refl, refl, (refl, refl, refl, refl), refl, refl, tt))

  state5_lem : Conveys w (fill_state_table 5 "state5") buffer_size (state_order 5 "state5")
  unfolding fill_state_table load_bytes handle_p4_msg
  state5_lem =
      Conveys-of_handled w (fill_state_table 5 "state5") buffer_size 658 (state_order 5 "state5") st
        refl refl refl (refl, (refl, refl, refl, (refl, refl, refl, refl), refl, refl, tt))

  -- If no call on the sockets fails: the new state of a flow arrives at the switch, is handled with
  -- return code 0, and makes the callback see the entry that maps the flow to it.
  pub fill_map_flow_to_state_table_lem :
      (flow_id : Ip) (lo hi : ℕ)
      → Conveys w
          (fill_map_flow_to_state_table flow_id (lo ∷ hi ∷ []))
          buffer_size
          (flow_order flow_id (lo ∷ hi ∷ []))
  unfolding fill_map_flow_to_state_table load_bytes handle_p4_msg
  fill_map_flow_to_state_table_lem flow_id lo hi =
      Conveys-of_handled w (fill_map_flow_to_state_table flow_id (lo ∷ hi ∷ [])) buffer_size 918
        (flow_order flow_id (lo ∷ hi ∷ [])) st refl refl refl
        (refl, (refl, refl, refl, (refl, refl, refl, refl), refl, refl, ((refl, refl, refl), tt)))

  -- If no call on the sockets fails: each message of the state machine's `init` arrives, is handled
  -- with return code 0, and makes the callback see the order that it stands for: the two default
  -- actions, one of them with a parameter, the function of each of the six states, and the end of
  -- the initialisation.
  pub state_init_lem : AllConvey w init state_init_orders
  unfolding init
  state_init_lem = (
    set_default_action_dmac_lem,
    (
      set_default_action_map_flow_to_state_lem,
      (
        new_state_lem,
        (state1_lem, (state2_lem, (state3_lem, (state4_lem, (state5_lem, (notify_lem w st, tt)))))),
      ),
    ),
  )
