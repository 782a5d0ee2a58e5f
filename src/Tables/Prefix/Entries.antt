-- ===== src/Tables/Prefix/Entries.antt =====
-- src/hardware_dep/dpdk/data_plane/dpdk_tables_lpm.c: the table as a list of prefixes with entries.
use t4p4s_ma.Common.{
  ℕ, ◌+◌, ◌%◌, ◌≡◌, ◌<◌, ◌≤◌, refl, true, ap, arith, none, some, Option, List, [], ◌∷◌, map, leb,
  ==_ne, Bool-cases, inl, inr,
}
use t4p4s_ma.Tables.Entry.{Key, ok, Ext, Table, put, content_at}
use t4p4s_ma.Tables.Prefix.{
  Lpm, Rule, covers, deeper, longest, value_of, width_of, address, lpm_lookup,
}

-- The rules give just indices below `n`.
abbrev pub AreBelow : ℕ → List Rule → Type 0
AreBelow n [] = Unit
AreBelow n (r ∷ rs) = (r.value < n) × AreBelow n rs

-- Just the elements below `size` are set, the prefixes have their indices, and the size fits its type.
pub record IsValid {L : Type 0} (lpm : Lpm L) (indices : ℕ) (t : Table L) : Type 0 where
  pub keyed : 0 < t.info.key_size
  pub short : t.info.key_size ≤ 16
  pub room : t.ext.size ≤ t.max_size
  pub narrow : t.ext.size < indices
  pub below : AreBelow t.ext.size (lpm.rules t.ext.rte_table)
  pub placed : (i : ℕ) → i < t.ext.size → (p : ℕ) × (t.ext.content i ≡ some p)
  pub unset : (i : ℕ) → t.ext.size ≤ i → t.ext.content i ≡ none

-- The rule with the entry that its index stands for.
abbrev pub resolved : {R : Type 0} → Ext R → Rule → Rule
resolved ext r = record r { value = elim (ext.content r.value) [ none ↦ 0 | some p ↦ p ] }

-- What the table stands for: each rule with its entry, the last one first.
abbrev pub entries : {L : Type 0} → Lpm L → Table L → List Rule
entries lpm t = map (resolved t.ext) (lpm.rules t.ext.rte_table)

abbrev pub found : ℕ → Option Rule → ℕ
found default none = default
found default (some r) = r.value

-- The entry, or none, of a rule, or none.
abbrev resolved? : {R : Type 0} → Ext R → Option Rule → Option Rule
resolved? ext none = none
resolved? ext (some r) = some (resolved ext r)

abbrev IsBelow : ℕ → Option Rule → Type 0
IsBelow n none = Unit
IsBelow n (some r) = r.value < n

deeper-resolved :
    {R : Type 0} (ext : Ext R) (r : Rule) (o : Option Rule)
    → deeper (resolved ext r) (resolved? ext o) ≡ resolved ext (deeper r o)
deeper-resolved ext r none = refl
deeper-resolved ext r (some q) = elim (Bool-cases (leb q.depth r.depth)) [
  | inl e ↦ rw e refl
  | inr e ↦ rw e refl
]

longest-resolved :
    {R : Type 0} (ext : Ext R) (width : ℕ) (rs : List Rule) (a : ℕ)
    → longest width (map (resolved ext) rs) a ≡ resolved? ext (longest width rs a)
unfolding longest
longest-resolved ext width [] a = refl
longest-resolved ext width (r ∷ rs) a = elim (Bool-cases (covers width r a)) [
  | inl e ↦
      rw (e, longest-resolved ext width rs a) (ap some (deeper-resolved ext r (longest width rs a)))
  | inr e ↦ rw (e, longest-resolved ext width rs a) refl
]

deeper-IsBelow :
    (n : ℕ) (r : Rule) (o : Option Rule) → r.value < n → IsBelow n o → IsBelow n (some (deeper r o))
deeper-IsBelow n r none h k = h
deeper-IsBelow n r (some q) h k = elim (Bool-cases (leb q.depth r.depth)) [
  | inl e ↦ rw e h
  | inr e ↦ rw e k
]

longest-IsBelow :
    (n width : ℕ) (rs : List Rule) (a : ℕ) → AreBelow n rs → IsBelow n (longest width rs a)
unfolding longest
longest-IsBelow n width [] a h = tt
longest-IsBelow n width (r ∷ rs) a h = elim (Bool-cases (covers width r a)) [
  | inl e ↦ rw e (deeper-IsBelow n r (longest width rs a) h.0 (longest-IsBelow n width rs a h.1))
  | inr e ↦ rw e (longest-IsBelow n width rs a h.1)
]

pub AreBelow-suc : (n : ℕ) (rs : List Rule) → AreBelow n rs → AreBelow (n + 1) rs
AreBelow-suc n [] h = tt
AreBelow-suc n (r ∷ rs) h = (omega (arith, h.0), AreBelow-suc n rs h.1)

-- A write behind the indices of the rules does not change what they stand for.
pub resolved-put :
    {R : Type 0} (ext : Ext R) (n p : ℕ) (rs : List Rule)
    → AreBelow n rs
    → map (resolved (put n p ext)) rs ≡ map (resolved ext) rs
resolved-put ext n p [] h = refl
resolved-put ext n p (r ∷ rs) h =
    rw (==_ne n r.value (λ e. absurd (omega (arith, e, h.0))), resolved-put ext n p rs h.1) refl

module _ {L : Type 0} (lpm : Lpm L) (indices : ℕ) where
  content_of_set :
      (ext : Ext L) (i p : ℕ)
      → ext.content i ≡ some p
      → content_at ext i ≡ ok (elim (ext.content i) [ none ↦ 0 | some q ↦ q ])
  content_of_set ext i p h = ground arith

  content_of :
      (t : Table L) (o : Option Rule)
      → IsValid lpm indices t
      → IsBelow t.ext.size o
      → (elim (value_of o) [
        | none ↦ ok t.default_val
        | some result ↦ content_at t.ext (result % indices)
      ])
        ≡ ok (found t.default_val (resolved? t.ext o))
  content_of t none v h = refl
  content_of t (some r) v h =
      let (p, there) = v.placed r.value h in
      let lt : r.value < indices = omega (arith, v.narrow, h) in
      let small : r.value % indices ≡ r.value = grind arith in
      rw small (content_of_set t.ext r.value p there)

  -- A valid table with keys of one to sixteen bytes gives each key the entry of the longest prefix in
  -- its list that covers the key, and else the default entry.
  pub lpm_lookup_lem :
      (t : Table L) (key : Key)
      → IsValid lpm indices t
      → lpm_lookup lpm indices t key
        ≡ ok (found t.default_val (longest (width_of t.info) (entries lpm t) (address t.info key)))
  unfolding lpm_lookup
  lpm_lookup_lem t key v =
      let a = address t.info key in
      let rs = lpm.rules t.ext.rte_table in
      let w = width_of t.info in
      let short : leb t.info.key_size 16 ≡ true = ground (arith, v.short) in
      rw
        (
          ==_ne t.info.key_size 0 (λ e. absurd (omega (arith, e, v.keyed))),
          short,
          lpm.lookup_lem w t.ext.rte_table a,
          longest-resolved t.ext w rs a,
        )
        (content_of t (longest w rs a) v (longest-IsBelow t.ext.size w rs a v.below))
