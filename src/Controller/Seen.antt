-- ===== src/Controller/Seen.antt =====
-- What the data plane's callback can read of a message: its pointers followed into the memory.
use t4p4s_ma.Common.{ℕ, ◌+◌, ◌≡◌, Option, none, some, List, [], ◌∷◌, ◌++◌, length, pos}
use Prim.Native.String.{String}
use t4p4s_ma.Memory.{Returns, Mem, Run, load_bytes, load16, load32, codes}
use t4p4s_ma.Messages.Layout.At
use t4p4s_ma.Messages.Layout.Code.{type_code, P4Type, FieldMatchType, match_code, exact, lpm}
use t4p4s_ma.Handlers.{CtrlMsg, Handled}

-- A zero-terminated string stands at the address.
abbrev pub HasString : Mem → ℕ → String → Type 0
HasString m a s = load_bytes m a (length (codes s) + 1) ≡ codes s ++ 0 ∷ []

pub record Match : Type 0 where
  pub kind : FieldMatchType
  pub name : String
  -- the length in bits, of a prefix for `lpm`
  pub bits : ℕ
  pub value : List ℕ

pub record Param : Type 0 where
  pub name : String
  pub bits : ℕ
  pub value : List ℕ

-- At `p` stands a field match, in host byte order.
abbrev pub MatchAt : Mem → ℕ → Match → Type 0
MatchAt m p f =
    (m (p + At.match_type) ≡ match_code f.kind)
    × HasString m p f.name
    × (load16 m (p + At.match_length) ≡ f.bits)
    × (load_bytes m (p + At.match_bitmap) (length f.value) ≡ f.value)

abbrev pub ParamAt : Mem → ℕ → Param → Type 0
ParamAt m p a =
    HasString m p a.name
    × (load32 m (p + At.param_length) ≡ a.bits)
    × (load_bytes m (p + At.param_bitmap) (length a.value) ≡ a.value)

-- The pointers from index `i` on lead to the given parameters.
abbrev pub ParamsAt : Mem → (ℕ → ℕ) → ℕ → List Param → Type 0
ParamsAt m ps i [] = Unit
ParamsAt m ps i (a ∷ as') = ParamAt m (ps i) a × ParamsAt m ps (i + 1) as'

-- The handler returns 0 and calls the callback with a message of which `P` holds.
abbrev pub Calls : (CtrlMsg → Type 0) → Option CtrlMsg → Type 0
Calls P none = ⊥
Calls P (some c) = P c

abbrev pub Delivers : (CtrlMsg → Mem → Type 0) → Run Handled → Type 0
Delivers P = Returns (λ r m. (r.rval ≡ pos 0) × Calls (λ c. P c m) r.called)

-- What a controller orders.
pub data Order : Type 0 where
  add_entry : String → Match → String → List Param → Order
  set_default : String → String → List Param → Order
  initialized : Order

-- The callback sees that order: the entry of the table with its one field match and its action, the
-- default action of the table, or the end of the initialisation.
abbrev pub Sees : Order → CtrlMsg → Mem → Type 0
Sees (add_entry table key action params) c m =
    (c.typ ≡ type_code P4Type.add_table_entry)
    × HasString m c.table_name table
    × (c.num_field_matches ≡ 1)
    × MatchAt m (c.field_matches 0) key
    × HasString m c.action_name action
    × (c.num_action_params ≡ length params)
    × ParamsAt m c.action_params 0 params
Sees (set_default table action params) c m =
    (c.typ ≡ type_code P4Type.set_default_action)
    × HasString m c.table_name table
    × HasString m c.action_name action
    × (c.num_action_params ≡ length params)
    × ParamsAt m c.action_params 0 params
Sees initialized c m = (c.typ ≡ type_code P4Type.ctrl_initialized) × (c.xid ≡ 0)

abbrev pub exact_match : String → ℕ → List ℕ → Match
exact_match name bits value = record { kind = exact; name = name; bits = bits; value = value }

abbrev pub lpm_match : String → ℕ → List ℕ → Match
lpm_match name bits value = record { kind = lpm; name = name; bits = bits; value = value }

abbrev pub param : String → ℕ → List ℕ → Param
param name bits value = record { name = name; bits = bits; value = value }
