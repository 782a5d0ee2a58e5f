-- ===== src/Backend/Counts.antt =====
-- ctrl_plane_backend.c: how often a cell is in a list.
use t4p4s_ma.Common.{
  ℕ, ◌+◌, ◌≡◌, ◌<◌, refl, ap, arith, List, [], ◌∷◌, ◌++◌, ◌==◌, ==_iff, if◌then◌else◌, Bool-cases,
  inl, inr,
}
use t4p4s_ma.Cells.{Cell}

unfoldable pub one : Cell → Cell → ℕ
one x c = if c == x then 1 else 0

abbrev pub count : Cell → List Cell → ℕ
count x [] = 0
count x (c ∷ cs) = one x c + count x cs

pub count-append : (x : Cell) (xs ys : List Cell) → count x (xs ++ ys) ≡ count x xs + count x ys
count-append x [] ys = omega arith
count-append x (c ∷ xs) ys = omega (arith, count-append x xs ys)

pub count-middle :
    (x : Cell) (front : List Cell) (c : Cell) (back : List Cell)
    → count x (front ++ c ∷ back) ≡ one x c + count x (front ++ back)
count-middle x [] c back = refl
count-middle x (d ∷ front) c back = omega (arith, count-middle x front c back)

pub one_self : (c : Cell) → one c c ≡ 1
unfolding one
one_self c = ground arith

-- A cell that is counted stands somewhere.
pub count_split :
    (c : Cell) (xs : List Cell)
    → 0 < count c xs
    → (front : List Cell) × (back : List Cell) × (xs ≡ front ++ c ∷ back)
unfolding one
count_split c [] h = absurd (omega (arith, h))
count_split c (d ∷ xs) h = elim (Bool-cases (d == c)) [
  | inl same ↦ ([], xs, ap (λ e. e ∷ xs) ((==_iff d c).0 same))
  | inr other ↦
      let h' = rw other at h in
      let (front, back, e) = count_split c xs (omega (arith, h')) in (d ∷ front, back, ap (◌∷◌ d) e)
]
