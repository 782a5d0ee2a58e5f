-- ===== src/Messages/Layout.antt =====
-- messages.h: the structs of the wire format, and the layout that the compiler gives them: each
-- member at the next multiple of its alignment, the size a multiple of the largest alignment.
pub mod Code
pub mod Size
pub mod At
mod Tests
use t4p4s_ma.Common.{ℕ, zero, suc, ◌+◌, ◌-◌, ◌*◌, ◌/◌, List, [], ◌∷◌, ltb, if◌then◌else◌}

-- A member: the size of one element, its alignment, and the number of elements.
pub record Member : Type 0 where
  pub bytes : ℕ
  pub align : ℕ
  pub count : ℕ

abbrev pub Struct : Type 0
Struct = List Member

abbrev u8 : Member
u8 = record { bytes = 1; align = 1; count = 1 }

abbrev u16 : Member
u16 = record { bytes = 2; align = 2; count = 1 }

abbrev u32 : Member
u32 = record { bytes = 4; align = 4; count = 1 }

abbrev chars : ℕ → Member
chars n = record { bytes = 1; align = 1; count = n }

abbrev round_up : ℕ → ℕ → ℕ
round_up n align = (n + align - 1) / align * align

-- The offset of member `i`, where `n` bytes stand before the first.
abbrev place : ℕ → Struct → ℕ → ℕ
place n [] i = n
place n (x ∷ xs) zero = round_up n x.align
place n (x ∷ xs) (suc i) = place (round_up n x.align + x.bytes * x.count) xs i

abbrev pub offset_of : Struct → ℕ → ℕ
offset_of s i = place 0 s i

abbrev align_of : Struct → ℕ
align_of [] = 1
align_of (x ∷ xs) = let rest = align_of xs in if ltb rest x.align then x.align else rest

abbrev members : Struct → ℕ
members [] = 0
members (x ∷ xs) = suc (members xs)

abbrev pub size_of : Struct → ℕ
size_of s = round_up (place 0 s (members s)) (align_of s)

-- A member of struct type.
abbrev nested : Struct → Member
nested s = record { bytes = size_of s; align = align_of s; count = 1 }

-- struct p4_header: version, type, length, xid
abbrev pub p4_header : Struct
p4_header = u8 ∷ u8 ∷ u16 ∷ u32 ∷ []

-- struct p4_table_action_desc: type, name
abbrev pub p4_table_action_desc : Struct
p4_table_action_desc = u8 ∷ chars 128 ∷ []

-- struct p4_action_parameter: name, length, bitmap
abbrev pub p4_action_parameter : Struct
p4_action_parameter = chars 128 ∷ u32 ∷ chars 128 ∷ []

-- struct p4_action: description, param_size
abbrev pub p4_action : Struct
p4_action = nested p4_table_action_desc ∷ u8 ∷ []

-- struct p4_set_default_action: header, table_name, action
abbrev pub p4_set_default_action : Struct
p4_set_default_action = nested p4_header ∷ chars 128 ∷ nested p4_action ∷ []

-- struct p4_field_match_header: name, type
abbrev pub p4_field_match_header : Struct
p4_field_match_header = chars 128 ∷ u8 ∷ []

-- struct p4_field_match_lpm: header, prefix_length, bitmap
abbrev pub p4_field_match_lpm : Struct
p4_field_match_lpm = nested p4_field_match_header ∷ u16 ∷ chars 256 ∷ []

-- struct p4_field_match_exact: header, length, bitmap
abbrev pub p4_field_match_exact : Struct
p4_field_match_exact = nested p4_field_match_header ∷ u16 ∷ chars 256 ∷ []

-- struct p4_field_match_range: header, length, is_signed, min_bitmap, max_bitmap
abbrev pub p4_field_match_range : Struct
p4_field_match_range = nested p4_field_match_header ∷ u16 ∷ u8 ∷ chars 256 ∷ chars 256 ∷ []

-- struct p4_field_match_ternary: header, length, priority, bitmap, mask
abbrev pub p4_field_match_ternary : Struct
p4_field_match_ternary = nested p4_field_match_header ∷ u16 ∷ u8 ∷ chars 256 ∷ chars 256 ∷ []

-- struct p4_field_match_valid: header, length, is_valid, bitmap
abbrev pub p4_field_match_valid : Struct
p4_field_match_valid = nested p4_field_match_header ∷ u16 ∷ u8 ∷ chars 256 ∷ []

-- struct p4_add_table_entry: header, table_name, read_size
abbrev pub p4_add_table_entry : Struct
p4_add_table_entry = nested p4_header ∷ chars 128 ∷ u8 ∷ []

-- struct p4_digest_field: name, length, value
abbrev pub p4_digest_field : Struct
p4_digest_field = chars 128 ∷ u32 ∷ chars 32 ∷ []

-- struct p4_digest: header, field_list_name, list_size
abbrev pub p4_digest : Struct
p4_digest = nested p4_header ∷ chars 128 ∷ u8 ∷ []
