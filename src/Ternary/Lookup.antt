-- ===== src/Ternary/Lookup.antt =====
-- What a ternary lookup finds.
use t4p4s_ma.Common.{
  ℕ, ◌≤◌, ◌≡◌, refl, ap, ◌∙◌, arith, Option, none, some, List, [], ◌∷◌, Bool, true, false, length,
  take, Bool-cases, inl, inr, length-take,
}
use Prim.Native.Nat.{bit_and}
use t4p4s_ma.Ternary.{Entry, Table, Result, ok, fault, matches, scan, value_of, lookup}

-- The abstract view: a key fits an entry if in every byte the entry's key is the masked key.
pub data Fits : List ℕ → List ℕ → List ℕ → Type 0 where
  nil : Fits [] [] []
  cons :
      {e m k : ℕ} {es ms ks : List ℕ}
      → e ≡ bit_and k m
      → Fits es ms ks
      → Fits (e ∷ es) (m ∷ ms) (k ∷ ks)

abbrev pub FitsEntry : List ℕ → Entry → Type 0
FitsEntry key e = Fits e.key e.mask key

-- The key, and the key and the mask of each entry, have the table's length.
abbrev pub IsValid : ℕ → List Entry → Type 0
IsValid n [] = Unit
IsValid n (e ∷ es) = (length e.key ≡ n) × (length e.mask ≡ n) × IsValid n es

matches_sound :
    (es ms ks : List ℕ)
    → length es ≡ length ks
    → length ms ≡ length ks
    → matches es ms ks ≡ true
    → Fits es ms ks
unfolding matches
matches_sound [] [] [] h k e = nil
matches_sound [] [] (x ∷ ks) h k e = absurd (omega arith)
matches_sound [] (m ∷ ms) [] h k e = absurd (omega arith)
matches_sound [] (m ∷ ms) (x ∷ ks) h k e = absurd (omega arith)
matches_sound (x ∷ es) [] [] h k e = absurd (omega arith)
matches_sound (x ∷ es) [] (y ∷ ks) h k e = absurd (omega arith)
matches_sound (x ∷ es) (m ∷ ms) [] h k e = absurd (omega arith)
matches_sound (x ∷ es) (m ∷ ms) (y ∷ ks) h k e =
    cons (ground arith) (matches_sound es ms ks (omega arith) (omega arith) (ground arith))

matches_complete : {es ms ks : List ℕ} → Fits es ms ks → matches es ms ks ≡ true
unfolding matches
matches_complete nil = refl
matches_complete (cons h f) = ground (arith, matches_complete f)

-- The first entry that the key fits, if there is one.
pub data First (key : List ℕ) : List Entry → Option Entry → Type 0 where
  no_entry : First key [] none
  here : {e : Entry} {es : List Entry} → FitsEntry key e → First key (e ∷ es) (some e)
  later :
      {e : Entry} {es : List Entry} {r : Option Entry}
      → ¬ FitsEntry key e
      → First key es r
      → First key (e ∷ es) r

-- What the lookup answers for it: the entry's value, the null pointer if no entry fits, and a read
-- through a null pointer if the table has no entry at all.
abbrev pub answer : List Entry → Option Entry → Result ℕ
answer [] r = fault
answer (e ∷ es) none = ok 0
answer (e ∷ es) (some f) = ok f.value

-- The loop's outcome, where the search of the rest found `r`.
abbrev scanned : Option Entry → Bool × Option Entry
scanned none = (false, none)
scanned (some e) = (true, some e)

scan_lem :
    (key : List ℕ) (es : List Entry)
    → IsValid (length key) es
    → (r : Option Entry) × First key es r × (scan key es false ≡ scanned r)
unfolding scan
scan_lem key [] v = (none, no_entry, refl)
scan_lem key (e ∷ es) v = elim (Bool-cases (matches e.key e.mask key)) [
  | inl hit ↦ (some e, here (matches_sound e.key e.mask key v.0 v.1 hit), rw (hit, scan))
  | inr miss ↦
      let (r, first, rest) = scan_lem key es v.2 in
      (r, later (λ f. cc (matches_complete f)) first, rw (miss, scan) rest)
]

answer-scanned :
    (e : Entry) (es : List Entry) (r : Option Entry) → value_of (scanned r) ≡ answer (e ∷ es) r
answer-scanned e es none = refl
answer-scanned e es (some f) = refl

lookup_entries :
    (k : List ℕ) (es : List Entry)
    → IsValid (length k) es
    → (r : Option Entry) × First k es r × (value_of (scan k es true) ≡ answer es r)
unfolding scan
lookup_entries k [] v = (none, no_entry, refl)
lookup_entries k (e ∷ es) v =
    let (r, first, found) = scan_lem k (e ∷ es) v in
    (r, first, ap value_of found ∙ answer-scanned e es r)

-- On a valid table and a key of at least its key length, `naive_ternary_lookup` returns the value
-- of the first entry that the key's first bytes fit under the entry's mask, and null if there is
-- none; on a table without entries it reads through a null pointer.
pub lookup_lem :
    (t : Table) (key : List ℕ)
    → IsValid t.keylen t.entries
    → t.keylen ≤ length key
    → (r : Option Entry) × First (take t.keylen key) t.entries r
      × (lookup t key ≡ answer t.entries r)
unfolding lookup
lookup_lem t key v long =
    let len : length (take t.keylen key) ≡ t.keylen = omega (arith, length-take t.keylen key) in
    lookup_entries (take t.keylen key) t.entries (rw len v)
