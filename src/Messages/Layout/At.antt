-- ===== src/Messages/Layout/At.antt =====
-- The offsets of the members of the structs of messages.h, as numerals; `Layout.Tests` computes
-- them.
use t4p4s_ma.Common.{ℕ}

-- struct p4_header
abbrev pub version : ℕ
version = 0

abbrev pub typ : ℕ
typ = 1

abbrev pub length : ℕ
length = 2

abbrev pub xid : ℕ
xid = 4

-- struct p4_add_table_entry and struct p4_set_default_action
abbrev pub table_name : ℕ
table_name = 8

abbrev pub read_size : ℕ
read_size = 136

abbrev pub default_action : ℕ
default_action = 136

-- struct p4_field_match_header and the structs that begin with it; the name is at 0
abbrev pub match_type : ℕ
match_type = 128

abbrev pub match_length : ℕ
match_length = 130

abbrev pub match_bitmap : ℕ
match_bitmap = 132

abbrev pub is_signed : ℕ
is_signed = 132

abbrev pub priority : ℕ
priority = 132

abbrev pub is_valid : ℕ
is_valid = 132

-- struct p4_action, whose first member is the description
abbrev pub action_type : ℕ
action_type = 0

abbrev pub action_name : ℕ
action_name = 1

abbrev pub param_size : ℕ
param_size = 129

-- struct p4_action_parameter; the name is at 0
abbrev pub param_length : ℕ
param_length = 128

abbrev pub param_bitmap : ℕ
param_bitmap = 132

-- struct p4_digest
abbrev pub field_list_name : ℕ
field_list_name = 8

abbrev pub list_size : ℕ
list_size = 136

-- struct p4_digest_field; the name is at 0
abbrev pub field_length : ℕ
field_length = 128

abbrev pub field_value : ℕ
field_value = 132
