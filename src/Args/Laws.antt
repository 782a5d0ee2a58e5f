-- ===== src/Args/Laws.antt =====
-- dpdk_lib_parse_args.c: a configuration that is written out is parsed back.
use t4p4s_ma.Common.{
  ℕ, zero, suc, ◌+◌, ◌≡◌, ◌<◌, ◌≤◌, refl, sym, ap, ◌∙◌, subst, arith, true, false, Option, none,
  some, List, [], ◌∷◌, ◌++◌, append-nil, append_assoc, leb, ◌==◌, length, length-append, ℤ, pos,
  negsuc, Bool-cases, Option-cases, inl, inr,
}
use t4p4s_ma.Ports.{LcoreParams}
use t4p4s_ma.Args.{max_lcore_params, strchr, int_fields, behind, parse_from, parse_lcore_params}
use t4p4s_ma.Args.Strtoul.{Text, field}
use t4p4s_ma.Args.Print.{
  decimal, none_of, none_of-append, numbers, entry, more, config, AreBytes, field-decimal, no_comma,
  no_parenthesis, length-decimal,
}

pub strchr_lem :
    (c : ℕ) (xs ys : Text) → none_of c xs ≡ true → strchr c (xs ++ c ∷ ys) ≡ some (xs, c ∷ ys)
unfolding strchr
strchr_lem c [] ys h = ground arith
strchr_lem c (x ∷ xs) ys h = elim (Bool-cases (x == c)) [
  | inl e ↦ cc (rw e at h)
  | inr e ↦ rw (e, strchr_lem c xs ys (rw e at h))
]

-- `rte_strsplit` as it is documented: a text of three tokens is split at its commas.
abbrev pub Splits : (Text → List Text) → Type 0
Splits strsplit =
    (a b c : Text)
    → none_of b',' a ≡ true
    → none_of b',' b ≡ true
    → none_of b',' c ≡ true
    → strsplit (a ++ b',' ∷ (b ++ b',' ∷ c)) ≡ a ∷ b ∷ c ∷ []

int_fields_lem :
    (a b c : Text) (x y z : ℕ)
    → field a ≡ some x
    → field b ≡ some y
    → field c ≡ some z
    → int_fields (a ∷ b ∷ c ∷ []) ≡ some (record { port_id = x; queue_id = y; lcore_id = z })
unfolding int_fields
int_fields_lem a b c x y z e f g = ground arith

parse_from-suc :
    (strsplit : Text → List Text) (fuel : ℕ) (p0 : Text) (params : List LcoreParams)
    (opened closed : Text × Text) (p : LcoreParams)
    → strchr b'(' p0 ≡ some opened
    → strchr b')' (behind opened.1) ≡ some closed
    → leb 256 (length closed.0) ≡ false
    → int_fields (strsplit closed.0) ≡ some p
    → leb max_lcore_params (length params) ≡ false
    → parse_from strsplit (suc fuel) p0 params
      ≡ parse_from strsplit fuel closed.1 (params ++ p ∷ [])
unfolding parse_from
parse_from-suc strsplit fuel p0 params opened closed p e f g h i = ground arith

abbrev or_else : Text × Text → Option (Text × Text) → Text × Text
or_else d none = d
or_else d (some a) = a

some_inj : (a b : Text × Text) → some a ≡ some b → a ≡ b
some_inj a b e = ap (or_else a) e

module _ (strsplit : Text → List Text) (splits : Splits strsplit) where
  module _ (p : LcoreParams) (port : p.port_id < 256) (queue : p.queue_id < 256)
      (lcore : p.lcore_id < 256) where
    int_fields-numbers : int_fields (strsplit (numbers p)) ≡ some p
    int_fields-numbers =
        ap int_fields (
          splits (decimal p.port_id) (decimal p.queue_id) (decimal p.lcore_id)
            (no_comma p.port_id port) (no_comma p.queue_id queue) (no_comma p.lcore_id lcore))
        ∙ int_fields_lem (decimal p.port_id) (decimal p.queue_id) (decimal p.lcore_id) p.port_id
            p.queue_id p.lcore_id (field-decimal p.port_id port) (field-decimal p.queue_id queue)
            (field-decimal p.lcore_id lcore)

    numbers_none : none_of b')' (numbers p) ≡ true
    numbers_none =
        none_of-append b')' (decimal p.port_id)
          (b',' ∷ (decimal p.queue_id ++ b',' ∷ decimal p.lcore_id)) (no_parenthesis p.port_id port)
          (none_of-append b')' (decimal p.queue_id) (b',' ∷ decimal p.lcore_id)
            (no_parenthesis p.queue_id queue) (no_parenthesis p.lcore_id lcore))

    length-numbers : length (numbers p) < 256
    length-numbers = omega (
      arith,
      length-append (decimal p.port_id) (b',' ∷ (decimal p.queue_id ++ b',' ∷ decimal p.lcore_id)),
      length-append (decimal p.queue_id) (b',' ∷ decimal p.lcore_id),
      length-decimal p.port_id port,
      length-decimal p.queue_id queue,
      length-decimal p.lcore_id lcore,
    )

    -- A round of the loop takes the next parameter.
    parse_from-entry :
        (fuel : ℕ) (before rest : Text) (params : List LcoreParams)
        → none_of b'(' before ≡ true
        → length params < max_lcore_params
        → parse_from strsplit (suc fuel) (before ++ entry p rest) params
          ≡ parse_from strsplit fuel (b')' ∷ rest) (params ++ p ∷ [])
    parse_from-entry fuel before rest params clear room =
        parse_from-suc strsplit fuel (before ++ entry p rest) params (before, entry p rest)
          (numbers p, b')' ∷ rest) p (strchr_lem b'(' before (numbers p ++ b')' ∷ rest) clear)
          (strchr_lem b')' (numbers p) rest numbers_none) (ground (arith, length-numbers))
          int_fields-numbers (ground (arith, room))

  parse_from-more :
      (ps : List LcoreParams) (fuel : ℕ) (params : List LcoreParams)
      → AreBytes ps
      → length ps < fuel
      → length params + length ps ≤ max_lcore_params
      → parse_from strsplit fuel (b')' ∷ more ps) params ≡ some (pos 0, params ++ ps)
  unfolding parse_from strchr
  parse_from-more ps zero params bytes lt room = absurd (omega arith)
  parse_from-more [] (suc fuel) params bytes lt room =
      ap (λ q. some (pos 0, q)) (sym (append-nil params))
  parse_from-more (p ∷ ps) (suc fuel) params (a, b, c, bytes) lt room =
      parse_from-entry p a b c fuel (b')' ∷ b',' ∷ []) (more ps) params refl (omega arith)
      ∙ parse_from-more ps fuel (params ++ p ∷ []) bytes (omega arith)
          (omega (arith, length-append params (p ∷ [])))
      ∙ ap (λ q. some (pos 0, q)) (append_assoc params (p ∷ []) ps)

length-more : (ps : List LcoreParams) → length ps ≤ length (more ps)
length-more [] = omega arith
length-more (p ∷ ps) = omega (arith, length-more ps, length-append (numbers p) (b')' ∷ more ps))

-- At most 1024 parameters whose numbers are bytes, written out as "(port,queue,lcore),..." in decimal,
-- are parsed back by `parse_lcore_params`, whatever `rte_strsplit` does with other texts than three
-- tokens between commas; the result is 0.
pub parse_lcore_params-config :
    (strsplit : Text → List Text)
    → Splits strsplit
    → (ps : List LcoreParams) → AreBytes ps
    → length ps ≤ max_lcore_params
    → parse_lcore_params strsplit (config ps) ≡ some (pos 0, ps)
unfolding parse_lcore_params parse_from strchr
parse_lcore_params-config strsplit splits [] bytes room = refl
parse_lcore_params-config strsplit splits (p ∷ ps) (a, b, c, bytes) room =
    let n = length (config (p ∷ ps)) in
    let s : n + 1 ≡ suc n = omega arith in
    ap (λ f. parse_from strsplit f (config (p ∷ ps)) []) s
    ∙ parse_from-entry strsplit splits p a b c n [] (more ps) [] refl (omega arith)
    ∙ parse_from-more strsplit splits ps n (p ∷ []) bytes
        (omega (arith, length-more ps, length-append (numbers p) (b')' ∷ more ps)))
        (omega (arith, room))

strchr_le :
    (c : ℕ) (xs : Text) (r : Text × Text)
    → strchr c xs ≡ some r
    → (length r.1 ≤ length xs) × (length (behind r.1) + 1 ≤ length xs)
unfolding strchr
strchr_le c [] r h = cc h
strchr_le c (x ∷ xs) r h = elim (Bool-cases (x == c)) [
  | inl e ↦
      subst
        (λ (q : Text × Text).
          (length q.1 ≤ suc (length xs)) × (length (behind q.1) + 1 ≤ suc (length xs)))
        (some_inj ([], x ∷ xs) r (rw e at h)) (omega arith, omega arith)
  | inr e ↦ elim (Option-cases (strchr c xs)) [
    | inl none_ ↦ cc (rw (e, none_) at h)
    | inr (q, found) ↦
        let (le, lt) = strchr_le c xs q found in
        subst
          (λ (s : Text × Text).
            (length s.1 ≤ suc (length xs)) × (length (behind s.1) + 1 ≤ suc (length xs)))
          (some_inj (x ∷ q.0, q.1) r (rw (e, found) at h)) (omega arith, omega arith)
  ]
]

parse_from_ends :
    (strsplit : Text → List Text) (fuel : ℕ) (p0 : Text) (params : List LcoreParams)
    → length p0 < fuel
    → (r : ℤ × List LcoreParams) × (parse_from strsplit fuel p0 params ≡ some r)
unfolding parse_from
parse_from_ends strsplit zero p0 params h = absurd (omega arith)
parse_from_ends strsplit (suc fuel) p0 params h = elim (Option-cases (strchr b'(' p0)) [
  | inl none_ ↦ ((pos 0, params), ground arith)
  | inr (opened, e) ↦ elim (Option-cases (strchr b')' (behind opened.1))) [
    | inl none_ ↦ ((negsuc 0, params), ground arith)
    | inr (closed, f) ↦ elim (Bool-cases (leb 256 (length closed.0))) [
      | inl long ↦ ((negsuc 0, params), ground arith)
      | inr short ↦ elim (Option-cases (int_fields (strsplit closed.0))) [
        | inl none_ ↦ ((negsuc 0, params), ground arith)
        | inr (p, g) ↦ elim (Bool-cases (leb max_lcore_params (length params))) [
          | inl full ↦ ((negsuc 0, params), ground arith)
          | inr room ↦
              let (_, lt) = strchr_le b'(' p0 opened e in
              let (le, _) = strchr_le b')' (behind opened.1) closed f in
              let (r, done) =
                parse_from_ends strsplit fuel closed.1 (params ++ p ∷ []) (omega arith) in
              (r, parse_from-suc strsplit fuel p0 params opened closed p e f short g room ∙ done)
        ]
      ]
    ]
  ]
]

-- `parse_lcore_params` returns for every text.
pub parse_lcore_params_ends :
    (strsplit : Text → List Text) (q_arg : Text)
    → (r : ℤ × List LcoreParams) × (parse_lcore_params strsplit q_arg ≡ some r)
unfolding parse_lcore_params
parse_lcore_params_ends strsplit q_arg =
    parse_from_ends strsplit (length q_arg + 1) q_arg [] (omega arith)
