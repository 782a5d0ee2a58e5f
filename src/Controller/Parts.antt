-- ===== src/Controller/Parts.antt =====
-- The steps that the controllers' functions are made of. `char buffer[2048]` is an object of its
-- own, at address 0, with unknown contents at first. A null pointer that is used is a fault.
use t4p4s_ma.Common.{ℕ, ◌+◌, ◌/◌, ◌%◌, [], ◌∷◌, List}
use Prim.Native.String.{String}
use t4p4s_ma.Memory.{
  Cmd, pure, modify, arrow, strcpy, memcpy, ◌>>=◌, ◌>>◌, store8, store16, store32, store_bytes,
}
use t4p4s_ma.Messages.Layout.At
use t4p4s_ma.Messages.Layout.Size
use t4p4s_ma.Messages.Layout.Code.{type_code, P4Type}
use t4p4s_ma.Messages.Header.{create_p4_header, netconv_p4_header}
use t4p4s_ma.Messages.Entry.{
  create_p4_add_table_entry, add_p4_field_match_exact, add_p4_field_match_lpm,
}
use t4p4s_ma.Messages.Action.{create_p4_set_default_action, add_p4_action, add_p4_action_parameter}

-- sizeof(buffer)
abbrev pub buffer_size : ℕ
buffer_size = 2048

-- `uint8_t mac[6]`
pub record Mac : Type 0 where
  pub b0 : ℕ
  pub b1 : ℕ
  pub b2 : ℕ
  pub b3 : ℕ
  pub b4 : ℕ
  pub b5 : ℕ

abbrev pub mac_bytes : Mac → List ℕ
mac_bytes m = m.b0 ∷ m.b1 ∷ m.b2 ∷ m.b3 ∷ m.b4 ∷ m.b5 ∷ []

-- `uint8_t ip[4]`
pub record Ip : Type 0 where
  pub b0 : ℕ
  pub b1 : ℕ
  pub b2 : ℕ
  pub b3 : ℕ

abbrev pub ip_bytes : Ip → List ℕ
ip_bytes i = i.b0 ∷ i.b1 ∷ i.b2 ∷ i.b3 ∷ []

-- The bytes of a `uint16_t` and of a `uint32_t` in memory.
abbrev pub bytes16 : ℕ → List ℕ
bytes16 v = v % 256 ∷ v / 256 % 256 ∷ []

abbrev pub bytes32 : ℕ → List ℕ
bytes32 v = v % 256 ∷ v / 256 % 256 ∷ v / 65536 % 256 ∷ v / 16777216 % 256 ∷ []

-- `h = create_p4_header(...); te = create_p4_add_table_entry(...); strcpy(te->table_name, ...)`
unfoldable pub begin_entry : String → Cmd (ℕ × ℕ)
unfolding create_p4_header create_p4_add_table_entry store_bytes
begin_entry table = do
  h ← create_p4_header 0 0 buffer_size
  te ← create_p4_add_table_entry 0 0 buffer_size
  strcpy (← arrow te At.table_name) table
  pure ((← arrow h 0), (← arrow te 0))

-- `exact = add_p4_field_match_exact(...)` and the stores of its name, bitmap and length.
unfoldable pub put_exact : ℕ → String → List ℕ → ℕ → Cmd ℕ
unfolding add_p4_field_match_exact store16 store_bytes
put_exact te name bits len = do
  exact ← add_p4_field_match_exact te buffer_size
  strcpy (← arrow exact 0) name
  memcpy (← arrow exact At.match_bitmap) bits
  at ← arrow exact At.match_length
  modify (λ m. store16 m at len)
  arrow exact 0

-- `lpm = add_p4_field_match_lpm(...)` and the stores of its name, bitmap and prefix length.
unfoldable pub put_lpm : ℕ → String → List ℕ → ℕ → Cmd ℕ
unfolding add_p4_field_match_lpm store16 store_bytes
put_lpm te name bits prefix = do
  lpm ← add_p4_field_match_lpm te buffer_size
  strcpy (← arrow lpm 0) name
  memcpy (← arrow lpm At.match_bitmap) bits
  at ← arrow lpm At.match_length
  modify (λ m. store16 m at prefix)
  arrow lpm 0

-- `a = add_p4_action(...); strcpy(a->description.name, ...)`
unfoldable pub put_action : ℕ → String → Cmd ℕ
unfolding add_p4_action store_bytes
put_action h name = do
  a ← add_p4_action h buffer_size
  strcpy (← arrow a At.action_name) name
  arrow a 0

-- `ap = add_p4_action_parameter(...)` and the stores of its name, bitmap and length.
unfoldable pub put_param : ℕ → ℕ → String → List ℕ → ℕ → Cmd ℕ
unfolding add_p4_action_parameter store32 store_bytes
put_param h a name bits len = do
  ap ← add_p4_action_parameter h a buffer_size
  strcpy (← arrow ap 0) name
  memcpy (← arrow ap At.param_bitmap) bits
  at ← arrow ap At.param_length
  modify (λ m. store32 m at len)
  arrow ap 0

-- `h = create_p4_header(...); sda = create_p4_set_default_action(...)`, the stores of the two
-- names, and `a = &(sda->action)`.
unfoldable pub begin_default : String → String → Cmd (ℕ × ℕ)
unfolding create_p4_header create_p4_set_default_action store_bytes
begin_default table action = do
  h ← create_p4_header 0 0 buffer_size
  sda ← create_p4_set_default_action 0 0 buffer_size
  strcpy (← arrow sda At.table_name) table
  a ← arrow sda At.default_action
  strcpy (a + At.action_name) action
  pure ((← arrow h 0), a)

-- The whole of a `set_default_action_` function without parameters, up to its `send_p4_msg`.
unfoldable pub build_default_action : String → String → Cmd (Unit {0})
unfolding begin_default netconv_p4_header
build_default_action table action = do (h, a) ← begin_default table action; netconv_p4_header h

-- `notify_controller_initialized` up to its `send_p4_msg`; its buffer holds just a header.
unfoldable pub notify_controller_initialized : Cmd (Unit {0})
unfolding create_p4_header netconv_p4_header store8
notify_controller_initialized = do
  h ← create_p4_header 0 0 Size.header
  at ← arrow h At.typ
  modify (λ m. store8 m at (type_code P4Type.ctrl_initialized))
  netconv_p4_header (← arrow h 0)
