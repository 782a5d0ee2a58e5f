-- ===== src/Args/Strtoul.antt =====
-- dpdk_lib_parse_args.c: `strtoul` of the C library with base 0, as it is used there.
use t4p4s_ma.Common.{
  ℕ, ◌+◌, ◌-◌, ◌*◌, ◌%◌, ◌^◌, Bool, true, false, ◌&&◌, ◌||◌, Option, none, some, List, [], ◌∷◌, ltb,
  leb, ◌==◌, if◌then◌else◌,
}

abbrev pub Text : Type 0
Text = List ℕ

abbrev is_space : ℕ → Bool
is_space c = c == 32 || (leb 9 c && leb c 13)

abbrev skip_spaces : Text → Text
skip_spaces [] = []
skip_spaces (c ∷ cs) = if is_space c then skip_spaces cs else c ∷ cs

-- Whether the number has a minus, and what is behind the sign.
abbrev sign : Text → Bool × Text
sign [] = (false, [])
sign (c ∷ cs) = if c == b'-' then (true, cs) else if c == b'+' then (false, cs) else (false, c ∷ cs)

-- The value of a digit, of a base up to sixteen.
abbrev digit : ℕ → Option ℕ
digit c =
    if leb b'0' c && leb c b'9'
    then some (c - b'0')
    else if leb b'a' c && leb c b'f'
    then some (c - b'a' + 10)
    else if leb b'A' c && leb c b'F'
    then some (c - b'A' + 10)
    else none

abbrev is_some : Option ℕ → Bool
is_some none = false
is_some (some d) = true

-- The base that the text chooses, and the digits.
abbrev base_of : Text → ℕ × Text
base_of [] = (10, [])
base_of (c ∷ []) = (10, c ∷ [])
base_of (c ∷ x ∷ []) = (if c == b'0' then 8 else 10, c ∷ x ∷ [])
base_of (c ∷ x ∷ d ∷ cs) =
    if c == b'0'
    then (if (x == b'x' || x == b'X') && is_some (digit d)
        then (16, d ∷ cs)
        else (8, c ∷ x ∷ d ∷ cs))
    else (10, c ∷ x ∷ d ∷ cs)

-- The value of the digits, and how many there are.
abbrev digits : ℕ → Text → ℕ → ℕ → ℕ × ℕ
digits base [] value n = (value, n)
digits base (c ∷ cs) value n = elim (digit c) [
  | none ↦ (value, n)
  | some d ↦ elim (ltb d base) [
    | true ↦ digits base cs (value * base + d) (n + 1)
    | false ↦ (value, n)
  ]
]

-- The value of a token, if `strtoul` takes a number from it, without an overflow, and it is at most 255.
-- A minus negates it in 64 bits. What follows the number does not matter.
unfoldable pub field : Text → Option ℕ
field str =
    let (minus, behind_sign) = sign (skip_spaces str) in
    let (base, ds) = base_of behind_sign in
    let (value, n) = digits base ds 0 0 in
    let int_fld = if minus then (2 ^ 64 - value) % 2 ^ 64 else value in
    if leb (2 ^ 64) value
    then none
    else if n == 0
    then none
    else if ltb 255 int_fld
    then none
    else some int_fld
