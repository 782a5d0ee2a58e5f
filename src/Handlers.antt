-- ===== src/Handlers.antt =====
-- src/hardware_dep/shared/ctrl_plane/handlers.c and handlers.h: how the switch decodes a message
-- of its controller, and hands it to the callback of the data plane.
pub mod Codes
pub mod Frame
mod Tests
use t4p4s_ma.Common.{
  ℕ, zero, suc, ◌+◌, ◌%◌, Option, none, some, List, ltb, ◌==◌, if◌then◌else◌, ℤ, pos, negsuc,
  is_neg, set,
}
use t4p4s_ma.Memory.{Run, ok, Cmd, pure, get, ◌>>=◌, ◌>>◌, load16, load32}
use t4p4s_ma.Messages.Layout.At
use t4p4s_ma.Messages.Layout.Size
use t4p4s_ma.Messages.Layout.Code.{type_code, P4Type}
use t4p4s_ma.Messages.Header.{netconv_p4_header, unpack}
use t4p4s_ma.Messages.Entry.{netconv_p4_field_match_complex}
use t4p4s_ma.Messages.Action.{netconv_p4_action_parameter}

-- `struct p4_ctrl_msg`: the pointers lead into the message, and the two arrays are functions of
-- the index, which the handlers keep below 10.
pub record CtrlMsg : Type 0 where
  pub typ : ℕ
  pub xid : ℕ
  pub table_name : ℕ
  pub action_type : ℕ
  pub action_name : ℕ
  pub num_action_params : ℕ
  pub action_params : ℕ → ℕ
  pub num_field_matches : ℕ
  pub field_matches : ℕ → ℕ

-- `a[i] = p`
abbrev pub put : (ℕ → ℕ) → ℕ → ℕ → ℕ → ℕ
put a i p j = if j == i then p else a j

-- P4_MAX_NUMBER_OF_ACTION_PARAMETERS and P4_MAX_NUMBER_OF_FIELD_MATCHES
abbrev pub max_action_params : ℕ
max_action_params = 10

abbrev pub max_field_matches : ℕ
max_field_matches = 10

-- The loop over the action parameters: `n` are left, `i` are done. Both handlers have it.
unfoldable pub take_params : ℕ → ℕ → ℕ → ℕ → CtrlMsg → Cmd CtrlMsg
unfolding netconv_p4_action_parameter
take_params zero i buffer offset c = pure c
take_params (suc n) i buffer offset c = do
  let p = unpack buffer offset
  netconv_p4_action_parameter p
  take_params n (i + 1) buffer ((offset + Size.action_parameter) % 65536)
      (record c { action_params = put c.action_params i p })

-- The loop over the field matches; it returns the offset behind them too.
unfoldable pub take_matches : ℕ → ℕ → ℕ → ℕ → CtrlMsg → Cmd (ℕ × CtrlMsg)
unfolding netconv_p4_field_match_complex
take_matches zero i buffer offset c = pure (offset, c)
take_matches (suc n) i buffer offset c = do
  let p = unpack buffer offset
  size ← netconv_p4_field_match_complex p
  take_matches n (i + 1) buffer ((offset + size) % 65536)
      (record c { field_matches = put c.field_matches i p })

-- `handle_p4_ctrl_initialized`
unfoldable pub handle_p4_ctrl_initialized : ℕ → CtrlMsg → Cmd (ℤ × CtrlMsg)
unfolding load32
handle_p4_ctrl_initialized header c = do
  typ ← get (λ m. m (header + At.typ))
  xid ← get (λ m. load32 m (header + At.xid))
  pure (pos 0, record c { typ = typ; xid = xid })

-- `handle_p4_set_default_action`. The message is filled in as far as the code gets.
unfoldable pub handle_p4_set_default_action : ℕ → CtrlMsg → Cmd (ℤ × CtrlMsg)
unfolding load32 take_params
handle_p4_set_default_action p c = do
  typ ← get (λ m. m (p + At.typ))
  xid ← get (λ m. load32 m (p + At.xid))
  action_type ← get (λ m. m (p + At.default_action + At.action_type))
  num ← get (λ m. m (p + At.default_action + At.param_size))
  let filled = record c {
    typ = typ;
    xid = xid;
    table_name = p + At.table_name;
    action_type = action_type;
    action_name = p + At.default_action + At.action_name;
  }
  if ltb max_action_params num then pure (negsuc 0, filled) else do
    c' ←
        take_params num 0 (p + Size.set_default_action) 0
          (record filled { num_action_params = num })
    pure (pos 0, c')

-- The part of `handle_p4_add_table_entry` behind the field matches: the action, whose struct stands
-- `offset` bytes behind `buffer`.
unfoldable pub handle_action : ℕ → ℕ → CtrlMsg → Cmd (ℤ × CtrlMsg)
unfolding take_params
handle_action buffer offset c = do
  let action = unpack buffer offset
  action_type ← get (λ m. m (action + At.action_type))
  num ← get (λ m. m (action + At.param_size))
  let filled = record c { action_type = action_type; action_name = action + At.action_name }
  if ltb max_action_params num then pure (negsuc 1, filled) else do
    c' ←
        take_params num 0 buffer ((offset + Size.action) % 65536)
          (record filled { num_action_params = num })
    pure (pos 0, c')

-- `handle_p4_add_table_entry`
unfoldable pub handle_p4_add_table_entry : ℕ → CtrlMsg → Cmd (ℤ × CtrlMsg)
unfolding load32 take_matches handle_action
handle_p4_add_table_entry p c = do
  typ ← get (λ m. m (p + At.typ))
  xid ← get (λ m. load32 m (p + At.xid))
  num ← get (λ m. m (p + At.read_size))
  let filled = record c { typ = typ; xid = xid; table_name = p + At.table_name }
  if ltb max_field_matches num then pure (negsuc 0, filled) else do
    (offset, c') ←
        take_matches num 0 (p + Size.add_table_entry) 0 (record filled { num_field_matches = num })
    handle_action (p + Size.add_table_entry) offset c'

-- What `handle_p4_msg` returns, and the message that it calls the callback with, if it does.
pub record Handled : Type 0 where
  pub rval : ℤ
  pub called : Option CtrlMsg

abbrev pub handled : ℤ → Option CtrlMsg → Handled
handled r c = record { rval = r; called = c }

-- `if (rval < 0) return rval; cb(&ctrl_m);` and, behind the switch, `return 0`.
abbrev pub call_back : ℤ × CtrlMsg → Handled
call_back (r, c) = if is_neg r then handled r none else handled (pos 0) (some c)

-- `handle_p4_msg`: `stack` is what the local variable `ctrl_m` holds before anything is stored in
-- it, and `length` the size of the buffer, which is never negative.
unfoldable pub handle_p4_msg : ℕ → ℕ → CtrlMsg → Cmd Handled
unfolding load16 netconv_p4_header handle_p4_set_default_action handle_p4_add_table_entry
    handle_p4_ctrl_initialized
handle_p4_msg buffer length stack =
    if ltb length Size.header then pure (handled (negsuc 0) none) else do
      netconv_p4_header buffer
      declared ← get (λ m. load16 m (buffer + At.length))
      typ ← get (λ m. m (buffer + At.typ))
      (if ltb length declared
          then pure (handled (negsuc 0) none)
          else (if typ == type_code P4Type.set_default_action
              then (do r ← handle_p4_set_default_action buffer stack; pure (call_back r))
              else (if typ == type_code P4Type.add_table_entry
                  then (do r ← handle_p4_add_table_entry buffer stack; pure (call_back r))
                  else (if typ == type_code P4Type.ctrl_initialized
                      then (do
                        r ← handle_p4_ctrl_initialized buffer stack
                        pure (handled (pos 0) (some r.1)))
                      else pure (handled (negsuc 99) (some stack))))))
