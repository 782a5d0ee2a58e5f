-- ===== src/Messages/Layout/Tests.antt =====
-- The numerals of `Size` and `At` are the sizes and offsets that the struct declarations give.
use t4p4s_ma.Common.{◌≡◌, refl}
use t4p4s_ma.Messages.Layout.{
  offset_of, size_of, p4_action, p4_action_parameter, p4_add_table_entry, p4_digest,
  p4_digest_field, p4_field_match_exact, p4_field_match_header, p4_field_match_lpm,
  p4_field_match_range, p4_field_match_ternary, p4_field_match_valid, p4_header,
  p4_set_default_action, p4_table_action_desc,
}
use t4p4s_ma.Messages.Layout.Size
use t4p4s_ma.Messages.Layout.At

sizes :
    (size_of p4_header ≡ Size.header)
    × (size_of p4_table_action_desc ≡ Size.table_action_desc)
    × (size_of p4_action_parameter ≡ Size.action_parameter)
    × (size_of p4_action ≡ Size.action)
    × (size_of p4_set_default_action ≡ Size.set_default_action)
    × (size_of p4_field_match_header ≡ Size.field_match_header)
    × (size_of p4_field_match_lpm ≡ Size.field_match_lpm)
    × (size_of p4_field_match_exact ≡ Size.field_match_exact)
    × (size_of p4_field_match_range ≡ Size.field_match_range)
    × (size_of p4_field_match_ternary ≡ Size.field_match_ternary)
    × (size_of p4_field_match_valid ≡ Size.field_match_valid)
    × (size_of p4_add_table_entry ≡ Size.add_table_entry)
    × (size_of p4_digest_field ≡ Size.digest_field)
    × (size_of p4_digest ≡ Size.digest)
sizes = (refl, refl, refl, refl, refl, refl, refl, refl, refl, refl, refl, refl, refl, refl)

offsets :
    (offset_of p4_header 0 ≡ At.version)
    × (offset_of p4_header 1 ≡ At.typ)
    × (offset_of p4_header 2 ≡ At.length)
    × (offset_of p4_header 3 ≡ At.xid)
    × (offset_of p4_add_table_entry 1 ≡ At.table_name)
    × (offset_of p4_add_table_entry 2 ≡ At.read_size)
    × (offset_of p4_set_default_action 2 ≡ At.default_action)
    × (offset_of p4_field_match_header 1 ≡ At.match_type)
    × (offset_of p4_field_match_exact 1 ≡ At.match_length)
    × (offset_of p4_field_match_exact 2 ≡ At.match_bitmap)
    × (offset_of p4_field_match_range 2 ≡ At.is_signed)
    × (offset_of p4_field_match_ternary 2 ≡ At.priority)
    × (offset_of p4_field_match_valid 2 ≡ At.is_valid)
    × (offset_of p4_table_action_desc 0 ≡ At.action_type)
    × (offset_of p4_table_action_desc 1 ≡ At.action_name)
    × (offset_of p4_action 1 ≡ At.param_size)
    × (offset_of p4_action_parameter 1 ≡ At.param_length)
    × (offset_of p4_action_parameter 2 ≡ At.param_bitmap)
    × (offset_of p4_digest 1 ≡ At.field_list_name)
    × (offset_of p4_digest 2 ≡ At.list_size)
    × (offset_of p4_digest_field 1 ≡ At.field_length)
    × (offset_of p4_digest_field 2 ≡ At.field_value)
offsets = (
  refl, refl, refl, refl, refl, refl, refl, refl, refl, refl, refl, refl, refl, refl, refl, refl,
  refl, refl, refl, refl, refl, refl,
)
