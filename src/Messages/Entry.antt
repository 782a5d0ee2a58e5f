-- ===== src/Messages/Entry.antt =====
-- messages.c: the message that adds a table entry, with its field matches.
use t4p4s_ma.Common.{ℕ, ◌+◌, Option, none, some, leb, if◌then◌else◌, ◌==◌}
use t4p4s_ma.Memory.{Cmd, pure, get, modify, ◌>>=◌, ◌>>◌, store8, load16, store16, htons}
use t4p4s_ma.Messages.Layout.At
use t4p4s_ma.Messages.Layout.Size
use t4p4s_ma.Messages.Layout.Code.{
  type_code, P4Type, match_code, FieldMatchType, exact, ternary, lpm, range, valid,
}
use t4p4s_ma.Messages.Header.{grow, bump8, init_new}

-- `create_p4_add_table_entry`. It writes neither the version nor the transaction id.
unfoldable pub create_p4_add_table_entry : ℕ → ℕ → ℕ → Cmd (Option ℕ)
unfolding store8 store16
create_p4_add_table_entry buffer offset maxlength =
    if leb maxlength (offset + Size.add_table_entry) then pure none else do
      let entry = buffer + offset
      modify (λ m. store16 m (entry + At.length) Size.add_table_entry)
      modify (λ m. store8 m (entry + At.typ) (type_code P4Type.add_table_entry))
      modify (λ m. store8 m (entry + At.read_size) 0)
      modify (λ m. store8 m (entry + At.table_name) 0)
      pure (some entry)

-- The part that the five `add_p4_field_match_` functions share: a struct of the given size and
-- type is appended, the number of field matches grows by one, and `rest` sets the other members.
unfoldable pub add_field_match : FieldMatchType → ℕ → (ℕ → Cmd (Unit {0})) → ℕ → ℕ → Cmd (Option ℕ)
unfolding store8 store16 grow bump8
add_field_match t size rest entry maxlength = do
  p ← grow entry size maxlength
  init_new
      (λ q. do
        bump8 (entry + At.read_size)
        modify (λ m. store8 m (q + At.match_type) (match_code t))
        modify (λ m. store16 m (q + At.match_length) 0)
        rest q)
      p

-- `add_p4_field_match_lpm`
unfoldable pub add_p4_field_match_lpm : ℕ → ℕ → Cmd (Option ℕ)
unfolding add_field_match
add_p4_field_match_lpm = add_field_match lpm Size.field_match_lpm (λ q. pure tt)

-- `add_p4_field_match_exact`
unfoldable pub add_p4_field_match_exact : ℕ → ℕ → Cmd (Option ℕ)
unfolding add_field_match
add_p4_field_match_exact = add_field_match exact Size.field_match_exact (λ q. pure tt)

-- `add_p4_field_match_range`
unfoldable pub add_p4_field_match_range : ℕ → ℕ → Cmd (Option ℕ)
unfolding add_field_match
add_p4_field_match_range =
    add_field_match range Size.field_match_range (λ q. modify (λ m. store8 m (q + At.is_signed) 0))

-- `add_p4_field_match_valid`
unfoldable pub add_p4_field_match_valid : ℕ → ℕ → Cmd (Option ℕ)
unfolding add_field_match
add_p4_field_match_valid =
    add_field_match valid Size.field_match_valid (λ q. modify (λ m. store8 m (q + At.is_valid) 0))

-- `add_p4_field_match_ternary`
unfoldable pub add_p4_field_match_ternary : ℕ → ℕ → Cmd (Option ℕ)
unfolding add_field_match
add_p4_field_match_ternary =
    add_field_match ternary Size.field_match_ternary
      (λ q. modify (λ m. store8 m (q + At.priority) 0))

-- `netconv_p4_field_match_lpm`, `_exact`, `_range`, `_ternary` and `_valid`: each turns round the
-- two bytes of its `prefix_length` or `length`, which stands at one place in all of them.
unfoldable pub netconv_match_length : ℕ → Cmd (Unit {0})
unfolding load16 store16 htons
netconv_match_length p =
    modify (λ m. store16 m (p + At.match_length) (htons (load16 m (p + At.match_length))))

-- `netconv_p4_field_match_complex`: the size of the struct, 0 if the type is unknown.
unfoldable pub netconv_p4_field_match_complex : ℕ → Cmd ℕ
unfolding netconv_match_length
netconv_p4_field_match_complex p = do
  t ← get (λ m. m (p + At.match_type))
  (if t == match_code exact
      then converted Size.field_match_exact
      else (if t == match_code ternary
          then converted Size.field_match_ternary
          else (if t == match_code lpm
              then converted Size.field_match_lpm
              else (if t == match_code range
                  then converted Size.field_match_range
                  else (if t == match_code valid
                      then converted Size.field_match_valid
                      else pure 0)))))
  where
    converted : ℕ → Cmd ℕ
    converted size = netconv_match_length p >> pure size
