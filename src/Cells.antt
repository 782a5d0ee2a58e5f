-- ===== src/Cells.antt =====
-- src/hardware_dep/shared/ctrl_plane/ctrl_plane_backend.c: the pool of message cells, two linked
-- lists through the cells' `next` and `prev` members. Each function runs under `memlock`.
pub mod Lists
pub mod Links
pub mod Inv
pub mod Detouch
pub mod Steps
mod Tests
use t4p4s_ma.Common.{ℕ, zero, suc, ◌+◌, ◌*◌, Bool, true, false, List, [], ◌∷◌, ◌==◌, if◌then◌else◌}

-- `mem_cell_t*`; 0 is the null pointer.
abbrev pub Cell : Type 0
Cell = ℕ

abbrev pub null : Cell
null = 0

-- The signals that a call sends.
pub data Signal : Type 0 where
  mem_empty mem_not_empty : Signal

-- The members of `backend_t` that the pool consists of, and those of the cells.
pub record Pool : Type 0 where
  pub unused_head : Cell
  pub used_head : Cell
  pub next : Cell → Cell
  pub prev : Cell → Cell

-- `cell->next = v`, or `cell->prev = v`
unfoldable pub store : (Cell → Cell) → Cell → Cell → Cell → Cell
store f c v d = if d == c then v else f d

-- The loop of `create_backend` that allocates the cells, which are given in the order of
-- allocation.
unfoldable pub create_cells : List Cell → Pool → Pool
unfolding store
create_cells [] p = p
create_cells (c ∷ cs) p =
    create_cells cs (record p {
      prev = store p.prev c null;
      next = store p.next c p.unused_head;
      unused_head = c;
    })

-- The pool that `create_backend` sets up, from memory with unknown contents.
unfoldable pub create : List Cell → (Cell → Cell) → (Cell → Cell) → Pool
unfolding create_cells
create cells next prev =
    create_cells cells (record { unused_head = null; used_head = null; next = next; prev = prev })

-- `if (c != 0) c->prev = v`, or `if (c == 0) ...; else c->prev = v`
unfoldable pub link : (Cell → Cell) → Cell → Cell → Cell → Cell
unfolding store
link f c v = if c == null then f else store f c v

-- `touch_mem_cell`: the cell taken, null if none is unused.
unfoldable pub touch_mem_cell : Pool → Cell × Pool × List Signal
unfolding link
touch_mem_cell p =
    let c = p.unused_head in
    let rest = p.next c in
    if c == null then (null, p, []) else (
      c,
      record {
        unused_head = rest;
        used_head = c;
        next = store p.next c p.used_head;
        prev = link (link p.prev rest null) p.used_head c;
      },
      (if rest == null
          then (if p.used_head == null then mem_empty ∷ [] else mem_empty ∷ mem_not_empty ∷ [])
          else (if p.used_head == null then [] else mem_not_empty ∷ [])),
    )

-- `detouch_mem_cell`, of a cell that is not null.
unfoldable pub detouch_mem_cell : Pool → Cell → Pool × List Signal
unfolding link
detouch_mem_cell p cell =
    let next1 = if p.used_head == cell then p.next else store p.next (p.prev cell) (p.next cell) in
    let used = if p.used_head == cell then p.next cell else p.used_head in
    let prev1 = link p.prev (next1 cell) (p.prev cell) in
    (
      record {
        unused_head = cell;
        used_head = used;
        next = store next1 cell p.unused_head;
        prev = store (link prev1 p.unused_head cell) cell null;
      },
      (if used == null then mem_not_empty ∷ [] else []),
    )
