-- ===== src/Messages/Action.antt =====
-- messages.c: actions with their parameters, and the message that sets a table's default action.
use t4p4s_ma.Common.{ℕ, ◌+◌, Option, none, some, leb, if◌then◌else◌}
use t4p4s_ma.Memory.{Cmd, pure, modify, ◌>>=◌, ◌>>◌, store8, store16, load32, store32, htonl}
use t4p4s_ma.Messages.Layout.At
use t4p4s_ma.Messages.Layout.Size
use t4p4s_ma.Messages.Layout.Code.{type_code, P4Type, at_action}
use t4p4s_ma.Messages.Header.{grow, bump8, init_new}

-- `add_p4_action`
unfoldable pub add_p4_action : ℕ → ℕ → Cmd (Option ℕ)
unfolding store8 grow
add_p4_action header maxlength = do
  p ← grow header Size.action maxlength
  init_new
      (λ q. do
        modify (λ m. store8 m (q + At.action_type) at_action)
        modify (λ m. store8 m (q + At.action_name) 0)
        modify (λ m. store8 m (q + At.param_size) 0))
      p

-- `add_p4_action_parameter`
unfoldable pub add_p4_action_parameter : ℕ → ℕ → ℕ → Cmd (Option ℕ)
unfolding store8 store32 grow bump8
add_p4_action_parameter header action maxlength = do
  p ← grow header Size.action_parameter maxlength
  init_new
      (λ q. do
        bump8 (action + At.param_size)
        modify (λ m. store8 m q 0)
        modify (λ m. store32 m (q + At.param_length) 0))
      p

-- `netconv_p4_action_parameter`
unfoldable pub netconv_p4_action_parameter : ℕ → Cmd (Unit {0})
unfolding load32 store32 htonl
netconv_p4_action_parameter p =
    modify (λ m. store32 m (p + At.param_length) (htonl (load32 m (p + At.param_length))))

-- `create_p4_set_default_action`
unfoldable pub create_p4_set_default_action : ℕ → ℕ → ℕ → Cmd (Option ℕ)
unfolding store8 store16
create_p4_set_default_action buffer offset maxlength =
    if leb maxlength (offset + Size.set_default_action) then pure none else do
      let d = buffer + offset
      modify (λ m. store16 m (d + At.length) Size.set_default_action)
      modify (λ m. store8 m (d + At.typ) (type_code P4Type.set_default_action))
      modify (λ m. store8 m (d + At.table_name) 0)
      modify (λ m. store8 m (d + At.default_action + At.action_type) at_action)
      modify (λ m. store8 m (d + At.default_action + At.action_name) 0)
      modify (λ m. store8 m (d + At.default_action + At.param_size) 0)
      pure (some d)
