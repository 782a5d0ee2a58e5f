-- ===== src/Controller/Portfwd/Delivery.antt =====
-- What the switch reads in the messages of the port forwarder's controller.
use t4p4s_ma.Common.{ℕ, Bool, true, false, [], ◌∷◌, refl}
use t4p4s_ma.Memory.{load_bytes}
use t4p4s_ma.Handlers.{handle_p4_msg}
use t4p4s_ma.Controller.Parts.{Mac, mac_bytes, bytes16, buffer_size}
use t4p4s_ma.Controller.Seen.{Order, add_entry, set_default, exact_match, param}
use t4p4s_ma.Controller.Session.{World, IsSteady, Conveys, AllConvey, Conveys-of_handled}
use t4p4s_ma.Controller.Portfwd.{fill_t_fwd_table, set_default_action_t_fwd, Link, init}

abbrev pub t_fwd_order : ℕ → ℕ → Mac → Bool → Order
t_fwd_order inport port mac true =
    add_entry "t_fwd" (exact_match "standard_metadata.ingress_port" 16 (bytes16 inport))
      "forward_rewrite" (param "port" 8 (port ∷ []) ∷ param "mac" 48 (mac_bytes mac) ∷ [])
t_fwd_order inport port mac false =
    add_entry "t_fwd" (exact_match "standard_metadata.ingress_port" 16 (bytes16 inport)) "forward"
      (param "port" 8 (port ∷ []) ∷ [])

abbrev pub link_order : Link → Order
link_order l = t_fwd_order l.inport l.port l.mac l.with_mac

module _ (w : World) (st : IsSteady w) where
  fill_t_fwd_table_lem :
      (inport port : ℕ) (mac : Mac) (wmac : Bool)
      → Conveys w
          (fill_t_fwd_table inport port mac wmac)
          buffer_size
          (t_fwd_order inport port mac wmac)
  unfolding fill_t_fwd_table load_bytes handle_p4_msg
  fill_t_fwd_table_lem inport port mac true =
      Conveys-of_handled w (fill_t_fwd_table inport port mac true) buffer_size 1178
        (t_fwd_order inport port mac true) st refl refl refl
        (
          refl,
          (
            refl,
            refl,
            refl,
            (refl, refl, refl, refl),
            refl,
            refl,
            ((refl, refl, refl), ((refl, refl, refl), tt)),
          ),
        )
  fill_t_fwd_table_lem inport port mac false =
      Conveys-of_handled w (fill_t_fwd_table inport port mac false) buffer_size 918
        (t_fwd_order inport port mac false) st refl refl refl
        (refl, (refl, refl, refl, (refl, refl, refl, refl), refl, refl, ((refl, refl, refl), tt)))

  set_default_action_t_fwd_lem :
      Conveys w set_default_action_t_fwd buffer_size (set_default "t_fwd" "_drop" [])
  unfolding set_default_action_t_fwd load_bytes handle_p4_msg
  set_default_action_t_fwd_lem =
      Conveys-of_handled w set_default_action_t_fwd buffer_size 268 (set_default "t_fwd" "_drop" [])
        st refl refl refl (refl, (refl, refl, refl, refl, tt))

  -- If no call on the sockets fails: each message of the port forwarder's `init` arrives, is
  -- handled with return code 0, and makes the callback see the order that it stands for: the default
  -- action, and the entries of the two directions, with an address to write if there is one.
  pub portfwd_init_lem :
      (up down : Link)
      → AllConvey w
          (init up down)
          (set_default "t_fwd" "_drop" [] ∷ link_order up ∷ link_order down ∷ [])
  unfolding init
  portfwd_init_lem up down = (
    set_default_action_t_fwd_lem,
    (
      fill_t_fwd_table_lem up.inport up.port up.mac up.with_mac,
      (fill_t_fwd_table_lem down.inport down.port down.mac down.with_mac, tt),
    ),
  )
