-- ===== src/Backend/Kept.antt =====
-- ctrl_plane_backend.c: no interleaving of the threads loses or doubles a cell.
use t4p4s_ma.Common.{◌+◌, ◌≡◌, ◌≤◌, ap, arith, false, List, [], ◌∷◌, length}
use t4p4s_ma.Cells.{Cell, create}
use t4p4s_ma.Cells.Detouch.{IsFresh, onto, create_lem}
use t4p4s_ma.Fifo.{Fifo, queue_size}
use t4p4s_ma.Fifo.Inv
use t4p4s_ma.Fifo.Refine.{contents}
use t4p4s_ma.Backend.{
  waits, Backend, receive_stop, stop_backend, Reached, begins, receiver_touches, receiver_reads,
  receiver_stops, handler_removes, handler_returns, sender_removes, sender_returns, switch_creates,
  switch_sends, stops,
}
use t4p4s_ma.Backend.Counts.{count}
use t4p4s_ma.Backend.Places.{held, busy, Placed}
use t4p4s_ma.Backend.Steps.{
  receive_touch-Placed, create_digest-Placed, receive_done-Placed, send_digest-Placed,
}
use t4p4s_ma.Backend.Queues.{
  handle_remove-Placed, handle_done-Placed, send_remove-Placed, send_done-Placed,
}

-- The backend that `create_backend` and `launch_backend` leave, with two new queues.
abbrev pub new : List Cell → (Cell → Cell) → (Cell → Cell) → Fifo → Fifo → Backend
new cells next prev input output = record {
  pool = create cells next prev;
  input_queue = input;
  output_queue = output;
  receiver = waits;
  handler = waits;
  sender = waits;
  digests = [];
  lost = [];
  shutdown = false;
}

count-onto :
    (x : Cell) (cells unused : List Cell)
    → count x (onto cells unused) ≡ count x cells + count x unused
count-onto x [] unused = omega arith
count-onto x (c ∷ cs) unused = omega (arith, count-onto x cs (c ∷ unused))

length-onto : (cells unused : List Cell) → length (onto cells unused) ≡ length cells + length unused
length-onto [] unused = omega arith
length-onto (c ∷ cs) unused = omega (arith, length-onto cs (c ∷ unused))

module _ (cells : List Cell) (next prev : Cell → Cell) (input output : Fifo) where
  new-Placed :
      IsFresh cells []
      → Inv.IsValid input
      → Inv.IsValid output
      → contents input ≡ []
      → contents output ≡ []
      → Placed cells (new cells next prev input output)
  new-Placed fresh v w e f = record {
    unused = onto cells [];
    used = [];
    lists = create_lem cells next prev fresh;
    all = λ x. omega (arith, count-onto x cells []);
    placed = λ x. omega (arith, ap (count x) e, ap (count x) f);
    number = omega (arith, length-onto cells []);
    taken_number = omega (arith, ap length e, ap length f);
    input_valid = v;
    output_valid = w;
  }

  receive_stop-Placed :
      (b : Backend) → b.receiver ≡ waits → Placed cells b → Placed cells (receive_stop b)
  unfolding receive_stop
  receive_stop-Placed b h v = record {
    unused = v.unused;
    used = v.used;
    lists = v.lists;
    all = v.all;
    placed = λ x. omega (arith, v.placed x, ap (held x) h);
    number = v.number;
    taken_number = omega (arith, v.taken_number, ap busy h);
    input_valid = v.input_valid;
    output_valid = v.output_valid;
  }

  stop_backend-Placed : (b : Backend) → Placed cells b → Placed cells (stop_backend b)
  unfolding stop_backend
  stop_backend-Placed b v = record {
    unused = v.unused;
    used = v.used;
    lists = v.lists;
    all = v.all;
    placed = v.placed;
    number = v.number;
    taken_number = v.taken_number;
    input_valid = v.input_valid;
    output_valid = v.output_valid;
  }

  -- In every interleaving of the backend's three threads with the digests of the switch, from a new
  -- backend with at most 1024 different cells: each cell is unused, or in exactly one of the two
  -- queues, with one thread, in one digest not sent yet, or lost, and the used list of the pool has
  -- just the cells that are not unused. So both queues always have room, no message is dropped and
  -- no cell is in two hands.
  pub Reached-Placed :
      length cells ≤ queue_size
      → IsFresh cells []
      → Inv.IsValid input
      → Inv.IsValid output
      → contents input ≡ []
      → contents output ≡ []
      → (b : Backend) → Reached (new cells next prev input output) b
      → Placed cells b
  Reached-Placed n fr v w e f _ begins = new-Placed fr v w e f
  Reached-Placed n fr v w e f _ (receiver_touches {b} r h) =
      receive_touch-Placed cells n b h (Reached-Placed n fr v w e f b r)
  Reached-Placed n fr v w e f _ (receiver_reads {b} c rv r h) =
      receive_done-Placed cells n c rv b h (Reached-Placed n fr v w e f b r)
  Reached-Placed n fr v w e f _ (receiver_stops {b} r h _) =
      receive_stop-Placed b h (Reached-Placed n fr v w e f b r)
  Reached-Placed n fr v w e f _ (handler_removes {b} r h) =
      handle_remove-Placed cells b h (Reached-Placed n fr v w e f b r)
  Reached-Placed n fr v w e f _ (handler_returns {b} c r h) =
      handle_done-Placed cells c b h (Reached-Placed n fr v w e f b r)
  Reached-Placed n fr v w e f _ (sender_removes {b} r h) =
      send_remove-Placed cells b h (Reached-Placed n fr v w e f b r)
  Reached-Placed n fr v w e f _ (sender_returns {b} c r h) =
      send_done-Placed cells c b h (Reached-Placed n fr v w e f b r)
  Reached-Placed n fr v w e f _ (switch_creates {b} is_short r) =
      create_digest-Placed cells n is_short b (Reached-Placed n fr v w e f b r)
  Reached-Placed n fr v w e f _ (switch_sends {b} front c back r h) =
      send_digest-Placed cells n front c back b h (Reached-Placed n fr v w e f b r)
  Reached-Placed n fr v w e f _ (stops {b} r) =
      stop_backend-Placed b (Reached-Placed n fr v w e f b r)
