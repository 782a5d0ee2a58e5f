-- ===== src/Messages/Layout/Code.antt =====
-- messages.h: the enumerations of message types and of field match types, with their codes.
use t4p4s_ma.Common.{ℕ}

-- enum p4_type
pub data P4Type : Type 0 where
  hello error echo_request echo_reply success ctrl_initialized : P4Type
  get_table_definitions get_table_counters get_table_entries : P4Type
  set_default_action add_table_entry modify_table_entry remove_table_entry : P4Type
  drop_table_entries add_ap_member remove_ap_member digest : P4Type

abbrev pub type_code : P4Type → ℕ
type_code hello = 0
type_code error = 1
type_code echo_request = 2
type_code echo_reply = 3
type_code success = 4
type_code ctrl_initialized = 5
type_code get_table_definitions = 100
type_code get_table_counters = 101
type_code get_table_entries = 102
type_code set_default_action = 103
type_code add_table_entry = 104
type_code modify_table_entry = 105
type_code remove_table_entry = 106
type_code drop_table_entries = 107
type_code add_ap_member = 108
type_code remove_ap_member = 109
type_code digest = 110

-- enum p4_field_match_type
pub data FieldMatchType : Type 0 where
  exact ternary lpm range valid : FieldMatchType

abbrev pub match_code : FieldMatchType → ℕ
match_code exact = 0
match_code ternary = 1
match_code lpm = 2
match_code range = 3
match_code valid = 4

-- P4_VERSION
abbrev pub p4_version : ℕ
p4_version = 1

-- P4_AT_ACTION of enum p4_action_type
abbrev pub at_action : ℕ
at_action = 0
