-- ===== src/Handlers/Tests.antt =====
-- handlers.c: the properties on concrete messages.
use t4p4s_ma.Common.{ℕ, ◌+◌, ◌*◌, ◌≡◌, ◌≤◌, ◌<◌, ◌⊎◌, refl, arith, pos}
use t4p4s_ma.Memory.{Mem, Returns}
use t4p4s_ma.Messages.Layout.At
use t4p4s_ma.Messages.Layout.Size
use t4p4s_ma.Handlers.{CtrlMsg, handle_p4_set_default_action}
use t4p4s_ma.Handlers.Frame.{handle_p4_set_default_action_lem}

abbrev stack : CtrlMsg
stack = record {
  typ = 0;
  xid = 0;
  table_name = 0;
  action_type = 0;
  action_name = 0;
  num_action_params = 0;
  action_params = λ i. 0;
  num_field_matches = 0;
  field_matches = λ i. 0;
}

-- Every byte is 10: the type is unknown, ten parameters are declared, and 2570 bytes.
abbrev tens : Mem
tens a = 10

-- The last of ten parameters is taken to stand at 2608, behind a cell of 2048 bytes.
handle_p4_set_default_action_lem_example :
    Returns
      (λ r g.
        (r.0 ≡ pos 0)
        × (r.1.num_action_params ≡ 10)
        × ((j : ℕ)
            → j < 10
            → r.1.action_params j ≡ 0 + Size.set_default_action + Size.action_parameter * j)
        × ((b : ℕ)
            → (b < 0 + Size.set_default_action + At.param_length)
              ⊎ (0 + Size.set_default_action + Size.action_parameter * 10 ≤ b)
            → g b ≡ tens b))
      (handle_p4_set_default_action 0 stack tens)
handle_p4_set_default_action_lem_example =
    handle_p4_set_default_action_lem 0 10 stack tens refl (omega arith)
