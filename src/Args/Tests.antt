-- ===== src/Args/Tests.antt =====
-- dpdk_lib_parse_args.c: two queues, with a split at commas.
use t4p4s_ma.Common.{◌≡◌, refl, arith, none, some, List, [], ◌∷◌, ◌++◌, pos}
use t4p4s_ma.Ports.{LcoreParams}
use t4p4s_ma.Args.{strchr, behind, parse_lcore_params}
use t4p4s_ma.Args.Strtoul.{Text, field}
use t4p4s_ma.Args.Print.{config}
use t4p4s_ma.Args.Laws.{Splits, strchr_lem, parse_lcore_params-config}

-- Three tokens, or fewer where there are not enough commas.
unfoldable strsplit : Text → List Text
strsplit s = elim (strchr b',' s) [
  | none ↦ s ∷ []
  | some a ↦ elim (strchr b',' (behind a.1)) [
    | none ↦ a.0 ∷ behind a.1 ∷ []
    | some b ↦ a.0 ∷ b.0 ∷ behind b.1 ∷ []
  ]
]

strsplit_lem :
    (s : Text) (a b : Text × Text)
    → strchr b',' s ≡ some a
    → strchr b',' (behind a.1) ≡ some b
    → strsplit s ≡ a.0 ∷ b.0 ∷ behind b.1 ∷ []
unfolding strsplit
strsplit_lem s a b e f = ground arith

strsplit-Splits : Splits strsplit
strsplit-Splits a b c h k _ =
    strsplit_lem (a ++ b',' ∷ (b ++ b',' ∷ c)) (a, b',' ∷ (b ++ b',' ∷ c)) (b, b',' ∷ c)
      (strchr_lem b',' a (b ++ b',' ∷ c) h) (strchr_lem b',' b c k)

abbrev params : List LcoreParams
params =
    record { port_id = 0; queue_id = 0; lcore_id = 1 }
    ∷ record { port_id = 10; queue_id = 2; lcore_id = 255 }
    ∷ []

-- Spaces, hexadecimal and octal numbers, and what follows a number.
numbers_read :
    (field (b' ' ∷ b'0' ∷ b'x' ∷ b'1' ∷ b'f' ∷ []) ≡ some 31)
    × (field (b'0' ∷ b'1' ∷ b'1' ∷ []) ≡ some 9)
    × (field (b'7' ∷ b'z' ∷ []) ≡ some 7)
    × (field (b'-' ∷ b'1' ∷ []) ≡ none)
    × (field (b'2' ∷ b'5' ∷ b'6' ∷ []) ≡ none)
unfolding field
numbers_read = (refl, refl, refl, refl, refl)

parse_lcore_params-config_example :
    parse_lcore_params strsplit (config params) ≡ some (pos 0, params)
parse_lcore_params-config_example =
    parse_lcore_params-config strsplit strsplit-Splits params
      (omega arith, omega arith, omega arith, (omega arith, omega arith, omega arith, tt))
      (omega arith)
