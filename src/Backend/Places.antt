-- ===== src/Backend/Places.antt =====
-- ctrl_plane_backend.c: where the cells of the pool are.
use t4p4s_ma.Common.{ℕ, ◌+◌, ◌≡◌, ◌≢◌, ◌⊎◌, sym, ap, ◌∙◌, subst, List, [], ◌∷◌, length, inl, inr}
use t4p4s_ma.Cells.{Cell, null, Pool, touch_mem_cell}
use t4p4s_ma.Cells.Inv.{Lists, touch_mem_cell_lem, touch_mem_cell-null}
use t4p4s_ma.Fifo.Inv
use t4p4s_ma.Fifo.Inv.{add_msg-IsValid, remove_msg-IsValid}
use t4p4s_ma.Fifo.Refine.{contents}
use t4p4s_ma.Backend.{Thread, waits, holds, ended, Backend}
use t4p4s_ma.Backend.Counts.{one, count}

abbrev pub held : Cell → Thread → ℕ
held x waits = 0
held x (holds c) = one x c
held x ended = 0

-- How often a cell is in a queue, with a thread, in a digest or lost.
abbrev pub places : Cell → Backend → ℕ
places x b =
    count x (contents b.input_queue)
    + count x (contents b.output_queue)
    + held x b.receiver
    + held x b.handler
    + held x b.sender
    + count x b.digests
    + count x b.lost

abbrev pub busy : Thread → ℕ
busy waits = 0
busy (holds c) = 1
busy ended = 0

-- How many places are taken.
abbrev pub total : Backend → ℕ
total b =
    length (contents b.input_queue)
    + length (contents b.output_queue)
    + busy b.receiver
    + busy b.handler
    + busy b.sender
    + length b.digests
    + length b.lost

-- Every cell that was allocated is unused or in exactly one place; the pool's lists are sound, and
-- both queues.
pub record Placed (cells : List Cell) (b : Backend) : Type 0 where
  pub unused : List Cell
  pub used : List Cell
  pub lists : Lists b.pool unused used
  pub all : (x : Cell) → count x unused + count x used ≡ count x cells
  pub placed : (x : Cell) → count x used ≡ places x b
  pub number : length unused + length used ≡ length cells
  pub taken_number : length used ≡ total b
  pub input_valid : Inv.IsValid b.input_queue
  pub output_valid : Inv.IsValid b.output_queue

-- What a call of `touch_mem_cell` does.
abbrev pub Touched : Pool → List Cell → List Cell → Cell → Pool → Type 0
Touched p unused used c p' =
    ((c ≡ null) × Lists p' unused used)
    ⊎ ((c ≢ null) × (rest : List Cell) × (unused ≡ c ∷ rest) × Lists p' rest (c ∷ used))

pub touch-Touched :
    (p : Pool) (unused used : List Cell)
    → Lists p unused used
    → Touched p unused used (touch_mem_cell p).0 (touch_mem_cell p).1
touch-Touched p [] used l =
    let e = touch_mem_cell-null p used l in
    inl (ap (λ r. r.0) e, subst (λ q. Lists q [] used) (sym (ap (λ r. r.1) e)) l)
touch-Touched p (c ∷ rest) used l =
    let (first, l') = touch_mem_cell_lem p c rest used l in
    inr (
      (λ e. l.unused_chain.1 (sym first ∙ e)),
      rest,
      ap (λ q. q ∷ rest) (sym first),
      subst (λ q. Lists (touch_mem_cell p).1 rest (q ∷ used)) (sym first) l',
    )
