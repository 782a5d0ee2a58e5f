-- ===== src/Messages/Layout/Size.antt =====
-- The sizes of the structs of messages.h, as numerals; `Layout.Tests` computes them.
use t4p4s_ma.Common.{ℕ}

abbrev pub header : ℕ
header = 8

abbrev pub table_action_desc : ℕ
table_action_desc = 129

abbrev pub action_parameter : ℕ
action_parameter = 260

abbrev pub action : ℕ
action = 130

abbrev pub set_default_action : ℕ
set_default_action = 268

abbrev pub field_match_header : ℕ
field_match_header = 129

abbrev pub field_match_lpm : ℕ
field_match_lpm = 388

abbrev pub field_match_exact : ℕ
field_match_exact = 388

abbrev pub field_match_range : ℕ
field_match_range = 646

abbrev pub field_match_ternary : ℕ
field_match_ternary = 646

abbrev pub field_match_valid : ℕ
field_match_valid = 390

abbrev pub add_table_entry : ℕ
add_table_entry = 140

abbrev pub digest_field : ℕ
digest_field = 164

abbrev pub digest : ℕ
digest = 140
