-- ===== src/Cells/Tests.antt =====
-- ctrl_plane_backend.c: a pool of three cells.
use t4p4s_ma.Common.{◌≡◌, refl, arith, List, [], ◌∷◌}
use t4p4s_ma.Cells.{Cell, Pool, create, touch_mem_cell, detouch_mem_cell}
use t4p4s_ma.Cells.Inv.{Lists, touch_mem_cell_lem}
use t4p4s_ma.Cells.Steps.{Reached, start, takes, gives_back}
use t4p4s_ma.Cells.Detouch.{IsFresh, create_lem, detouch_mem_cell_lem}

abbrev cells : List Cell
cells = 5 ∷ 6 ∷ 7 ∷ []

abbrev junk : Cell → Cell
junk c = 9

cells-IsFresh : IsFresh cells []
cells-IsFresh = (
  (λ e. omega (arith, e)),
  tt,
  (
    (λ e. omega (arith, e)),
    ((λ e. omega (arith, e)), tt),
    ((λ e. omega (arith, e)), ((λ e. omega (arith, e)), ((λ e. omega (arith, e)), tt)), tt),
  ),
)

-- Two cells taken, and the first one of them given back.
abbrev pool : Pool
pool = create cells junk junk

taken_twice :
    ((touch_mem_cell pool).0 ≡ 7)
    × ((touch_mem_cell (touch_mem_cell pool).1).0 ≡ 6)
    × ((detouch_mem_cell (touch_mem_cell (touch_mem_cell pool).1).1 7).0.unused_head ≡ 7)
unfolding touch_mem_cell detouch_mem_cell create
taken_twice = (refl, refl, refl)

touch_mem_cell_lem_example :
    ((touch_mem_cell pool).0 ≡ 7) × Lists (touch_mem_cell pool).1 (6 ∷ 5 ∷ []) (7 ∷ [])
touch_mem_cell_lem_example =
    touch_mem_cell_lem pool 7 (6 ∷ 5 ∷ []) [] (create_lem cells junk junk cells-IsFresh)

two_taken : Lists (touch_mem_cell (touch_mem_cell pool).1).1 (5 ∷ []) (6 ∷ 7 ∷ [])
two_taken =
    (touch_mem_cell_lem (touch_mem_cell pool).1 6 (5 ∷ []) (7 ∷ [])
      (touch_mem_cell_lem pool 7 (6 ∷ 5 ∷ []) [] (create_lem cells junk junk cells-IsFresh)).1).1

detouch_mem_cell_lem_example :
    Lists (detouch_mem_cell (touch_mem_cell (touch_mem_cell pool).1).1 7).0 (7 ∷ 5 ∷ []) (6 ∷ [])
detouch_mem_cell_lem_example =
    detouch_mem_cell_lem (touch_mem_cell (touch_mem_cell pool).1).1 (5 ∷ []) (6 ∷ []) 7 [] two_taken

-- Two cells are taken, 7 and then 6, and the first is given back.
run :
    Reached cells junk junk
      (detouch_mem_cell (touch_mem_cell (touch_mem_cell pool).1).1 7).0
      (6 ∷ [])
unfolding touch_mem_cell create
run = gives_back (6 ∷ []) 7 [] (takes (takes start (λ e. omega (arith, e))) (λ e. omega (arith, e)))
