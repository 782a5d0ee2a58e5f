-- ===== src/Cells/Steps.antt =====
-- ctrl_plane_backend.c: the life of a pool. The threads take cells and give back those that they
-- hold, in any order, each call under `memlock`.
use t4p4s_ma.Common.{
  suc, ◌+◌, ◌≡◌, ◌≢◌, refl, sym, ap, ◌∙◌, subst, arith, List, [], ◌∷◌, ◌++◌, length,
}
use t4p4s_ma.Cells.{Cell, null, Pool, create, touch_mem_cell, detouch_mem_cell}
use t4p4s_ma.Cells.Inv.{Lists, touch_mem_cell_lem, touch_mem_cell-null}
use t4p4s_ma.Cells.Detouch.{IsFresh, onto, create_lem, detouch_mem_cell_lem}

-- The pools that a run reaches, each with the cells that the threads then hold, the one taken last
-- first.
pub data Reached (cells : List Cell) (next prev : Cell → Cell) : Pool → List Cell → Type 0 where
  start : Reached cells next prev (create cells next prev) []
  takes :
      {p : Pool} {held : List Cell}
      → Reached cells next prev p held
      → (touch_mem_cell p).0 ≢ null
      → Reached cells next prev (touch_mem_cell p).1 ((touch_mem_cell p).0 ∷ held)
  gets_none :
      {p : Pool} {held : List Cell}
      → Reached cells next prev p held
      → (touch_mem_cell p).0 ≡ null
      → Reached cells next prev (touch_mem_cell p).1 held
  gives_back :
      {p : Pool} (front : List Cell) (c : Cell) (back : List Cell)
      → Reached cells next prev p (front ++ c ∷ back)
      → Reached cells next prev (detouch_mem_cell p c).0 (front ++ back)

length-onto : (cells unused : List Cell) → length (onto cells unused) ≡ length cells + length unused
length-onto [] unused = omega arith
length-onto (c ∷ cs) unused = omega (arith, length-onto cs (c ∷ unused))

pub length-middle :
    (front : List Cell) (c : Cell) (back : List Cell)
    → length (front ++ c ∷ back) ≡ suc (length (front ++ back))
length-middle [] c back = refl
length-middle (x ∷ xs) c back = ap suc (length-middle xs c back)

-- The pool's lists when the threads hold these cells.
abbrev pub Kept : List Cell → Pool → List Cell → Type 0
Kept cells p held =
    (unused : List Cell) × Lists p unused held × (length unused + length held ≡ length cells)

Kept-takes :
    (cells : List Cell) (p : Pool) (held : List Cell)
    → (touch_mem_cell p).0 ≢ null
    → Kept cells p held
    → Kept cells (touch_mem_cell p).1 ((touch_mem_cell p).0 ∷ held)
Kept-takes cells p held n ([], l, e) = absurd (n (ap (λ r. r.0) (touch_mem_cell-null p held l)))
Kept-takes cells p held n (c ∷ rest, l, e) =
    let (first, l') = touch_mem_cell_lem p c rest held l in
    (rest, subst (λ q. Lists (touch_mem_cell p).1 rest (q ∷ held)) (sym first) l', omega (arith, e))

Kept-none :
    (cells : List Cell) (p : Pool) (held : List Cell)
    → (touch_mem_cell p).0 ≡ null
    → Kept cells p held
    → Kept cells (touch_mem_cell p).1 held
Kept-none cells p held z ([], l, e) =
    ([], subst (λ q. Lists q [] held) (sym (ap (λ r. r.1) (touch_mem_cell-null p held l))) l, e)
Kept-none cells p held z (c ∷ rest, l, e) =
    absurd (l.unused_chain.1 (sym (touch_mem_cell_lem p c rest held l).0 ∙ z))

-- In whatever order the threads take cells and give back those that they hold: the cells held are
-- all different and are exactly the pool's used ones, and together with the unused ones they are as
-- many as were allocated; so no cell is handed out twice and none is lost. The cells allocated are
-- not null and all different.
pub Reached-Kept :
    (cells : List Cell) (next prev : Cell → Cell) (p : Pool) (held : List Cell)
    → IsFresh cells []
    → Reached cells next prev p held
    → Kept cells p held
Reached-Kept cells next prev _ _ f start =
    (onto cells [], create_lem cells next prev f, omega (arith, length-onto cells []))
Reached-Kept cells next prev _ _ f (takes {p} {held} r n) =
    Kept-takes cells p held n (Reached-Kept cells next prev p held f r)
Reached-Kept cells next prev _ _ f (gets_none {p} {held} r z) =
    Kept-none cells p held z (Reached-Kept cells next prev p held f r)
Reached-Kept cells next prev _ _ f (gives_back {p} front c back r) =
    let (unused, l, e) = Reached-Kept cells next prev p (front ++ c ∷ back) f r in
    (
      c ∷ unused,
      detouch_mem_cell_lem p unused front c back l,
      omega (arith, e, length-middle front c back),
    )
