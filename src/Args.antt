-- ===== src/Args.antt =====
-- src/hardware_dep/dpdk/data_plane/dpdk_lib_parse_args.c: the parsing of the queues of the cores from
-- the command line.
pub mod Strtoul
pub mod Print
pub mod Laws
mod Tests
use t4p4s_ma.Common.{
  ℕ, zero, suc, ◌+◌, Bool, true, false, Option, none, some, List, [], ◌∷◌, ◌++◌, ltb, leb, ◌==◌,
  length, ℤ, pos, negsuc, if◌then◌else◌,
}
use t4p4s_ma.Ports.{LcoreParams}
use t4p4s_ma.Args.Strtoul.{Text, field}

abbrev pub max_lcore_params : ℕ
max_lcore_params = 1024

-- `strchr(p, c)`: the text before the first `c`, and the one that begins with it.
unfoldable pub strchr : ℕ → Text → Option (Text × Text)
strchr c [] = none
strchr c (x ∷ xs) =
    let later = strchr c xs in
    if x == c then some ([], x ∷ xs) else elim later [ none ↦ none | some r ↦ some (x ∷ r.0, r.1) ]

-- The three numbers, if there are three tokens and each is a number up to 255.
unfoldable pub int_fields : List Text → Option LcoreParams
int_fields [] = none
int_fields (a ∷ []) = none
int_fields (a ∷ b ∷ []) = none
int_fields (a ∷ b ∷ c ∷ d ∷ ts) = none
int_fields (a ∷ b ∷ c ∷ []) = elim (field a) [
  | none ↦ none
  | some port ↦ elim (field b) [
    | none ↦ none
    | some queue ↦ elim (field c) [
      | none ↦ none
      | some lcore ↦ some (record { port_id = port; queue_id = queue; lcore_id = lcore })
    ]
  ]
]

-- The text behind the parenthesis.
abbrev pub behind : Text → Text
behind [] = []
behind (c ∷ cs) = cs

-- `rte_strsplit` of DPDK at commas, into three tokens at most.
module _ (strsplit : Text → List Text) where
  -- The loop of `parse_lcore_params`: the result, and the parameters so far. `none` is a loop cut off
  -- by the fuel.
  unfoldable pub parse_from : ℕ → Text → List LcoreParams → Option (ℤ × List LcoreParams)
  unfolding strchr int_fields
  parse_from zero p0 params = none
  parse_from (suc fuel) p0 params = elim (strchr b'(' p0) [
    | none ↦ some (pos 0, params)
    | some opened ↦ elim (strchr b')' (behind opened.1)) [
      | none ↦ some (negsuc 0, params)
      | some closed ↦
          if leb 256 (length closed.0)
          then some (negsuc 0, params)
          else elim (int_fields (strsplit closed.0)) [
            | none ↦ some (negsuc 0, params)
            | some p ↦ elim (leb max_lcore_params (length params)) [
              | true ↦ some (negsuc 0, params)
              | false ↦ parse_from fuel closed.1 (params ++ p ∷ [])
            ]
          ]
    ]
  ]

  -- `parse_lcore_params`: each round takes a parenthesis off the text.
  unfoldable pub parse_lcore_params : Text → Option (ℤ × List LcoreParams)
  unfolding parse_from
  parse_lcore_params q_arg = parse_from (length q_arg + 1) q_arg []
