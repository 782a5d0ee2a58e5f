-- ===== src/Controller/Smgw/Delivery.antt =====
-- What the switch reads in the messages of the mobile gateway's controller.
use t4p4s_ma.Common.{List, [], ◌∷◌}
use t4p4s_ma.Controller.Seen.{Order, set_default}
use t4p4s_ma.Controller.Outbox.{Outbox}
use t4p4s_ma.Controller.Outbox.Kept.{Kept}
use t4p4s_ma.Controller.Smgw.{Line}
use t4p4s_ma.Controller.Smgw.Orders.{lines_orders}

-- The orders that the configuration stands for.
abbrev pub init_orders : List Line → List Order
init_orders lines =
    set_default "ue_selector" "drop" []
    ∷ set_default "ipv4_forward" "drop" []
    ∷ set_default "ipv4_lpm" "drop" []
    ∷ lines_orders lines
