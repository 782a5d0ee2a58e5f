-- ===== src/Backend.antt =====
-- src/hardware_dep/shared/ctrl_plane/ctrl_plane_backend.c: the three threads of the backend and the
-- digests of the switch, which pass the cells of the pool on by two queues. Each step is one call
-- under the lock of the pool or of a queue, with what the thread does up to its next such call.
pub mod Counts
pub mod Places
pub mod Steps
pub mod Queues
pub mod Kept
mod Tests
use t4p4s_ma.Common.{
  ℕ, ◌≡◌, Bool, true, false, List, [], ◌∷◌, ◌++◌, ◌==◌, ℤ, pos, negsuc, if◌then◌else◌,
}
use t4p4s_ma.Cells.{Cell, null, Pool, touch_mem_cell, detouch_mem_cell}
use t4p4s_ma.Fifo.{Fifo, add_msg, remove_msg}

-- A thread: it is at the head of its loop, or has a cell, or its loop is left.
pub data Thread : Type 0 where
  waits : Thread
  holds : Cell → Thread
  ended : Thread

-- `backend_t` as far as cells are concerned, with the threads `backend_processor`, `input_processor`
-- and `output_processor`, the cells of the digests that are not sent yet, and the cells that nobody
-- will give back.
pub record Backend : Type 0 where
  pub pool : Pool
  pub input_queue : Fifo
  pub output_queue : Fifo
  pub receiver : Thread
  pub handler : Thread
  pub sender : Thread
  pub digests : List Cell
  pub lost : List Cell
  pub shutdown : Bool

abbrev pub taken : Cell → Thread
taken c = if c == null then waits else holds c

abbrev pub with_cell : Cell → List Cell → List Cell
with_cell c cs = if c == null then cs else c ∷ cs

-- `backend_processor`: one call of `touch_mem_cell`, which is repeated while it gives null.
abbrev pub receive_touched : Cell → Pool → Backend → Backend
receive_touched c p b = record b { pool = p; receiver = taken c }

unfoldable pub receive_touch : Backend → Backend
receive_touch b = receive_touched (touch_mem_cell b.pool).0 (touch_mem_cell b.pool).1 b

-- `backend_processor` behind `read_p4_msg`: the cell goes to the queue, or, where the result is not
-- positive, nowhere; with 0 the loop is left.
unfoldable pub receive_done : Cell → ℤ → Backend → Backend
receive_done c (pos rv) b =
    if rv == 0
    then record b { receiver = ended; lost = c ∷ b.lost }
    else record b { receiver = waits; input_queue = (add_msg b.input_queue c).0 }
receive_done c (negsuc rv) b = record b { receiver = waits; lost = c ∷ b.lost }

-- `backend_processor` where it sees `shutdown`.
unfoldable pub receive_stop : Backend → Backend
receive_stop b = record b { receiver = ended }

-- `input_processor`: the removal of a message, and the test of `shutdown` behind it.
abbrev pub handle_removed : Cell → Fifo → Backend → Backend
handle_removed c q b =
    if b.shutdown
    then record b { input_queue = q; handler = ended; lost = with_cell c b.lost }
    else record b { input_queue = q; handler = taken c }

unfoldable pub handle_remove : Backend → Backend
handle_remove b = handle_removed (remove_msg b.input_queue).0 (remove_msg b.input_queue).1 b

-- `input_processor` behind `handle_p4_msg`.
unfoldable pub handle_done : Cell → Backend → Backend
handle_done c b = record b { pool = (detouch_mem_cell b.pool c).0; handler = waits }

-- `output_processor`, in the same two steps.
abbrev pub send_removed : Cell → Fifo → Backend → Backend
send_removed c q b =
    if b.shutdown
    then record b { output_queue = q; sender = ended; lost = with_cell c b.lost }
    else record b { output_queue = q; sender = taken c }

unfoldable pub send_remove : Backend → Backend
send_remove b = send_removed (remove_msg b.output_queue).0 (remove_msg b.output_queue).1 b

unfoldable pub send_done : Cell → Backend → Backend
send_done c b = record b { pool = (detouch_mem_cell b.pool c).0; sender = waits }

-- `create_digest`: a cell is taken. A name that is too long loses it.
abbrev pub digest_touched : Bool → Cell → Pool → Backend → Backend
digest_touched is_short c p b =
    if is_short
    then record b { pool = p; digests = with_cell c b.digests }
    else record b { pool = p; lost = with_cell c b.lost }

unfoldable pub create_digest : Bool → Backend → Backend
create_digest is_short b =
    digest_touched is_short (touch_mem_cell b.pool).0 (touch_mem_cell b.pool).1 b

-- `send_digest`, of a digest that stands behind `front`.
unfoldable pub send_digest : List Cell → Cell → List Cell → Backend → Backend
send_digest front c back b = record b {
  output_queue = (add_msg b.output_queue c).0;
  digests = front ++ back;
}

-- `stop_backend`, up to the end of the threads.
unfoldable pub stop_backend : Backend → Backend
stop_backend b = record b { shutdown = true }

-- The backends that runs of the threads reach from a new one.
pub data Reached (start : Backend) : Backend → Type 0 where
  begins : Reached start start
  receiver_touches :
      {b : Backend} → Reached start b → b.receiver ≡ waits → Reached start (receive_touch b)
  receiver_reads :
      {b : Backend} (c : Cell) (rv : ℤ)
      → Reached start b
      → b.receiver ≡ holds c
      → Reached start (receive_done c rv b)
  receiver_stops :
      {b : Backend}
      → Reached start b
      → b.receiver ≡ waits
      → b.shutdown ≡ true
      → Reached start (receive_stop b)
  handler_removes :
      {b : Backend} → Reached start b → b.handler ≡ waits → Reached start (handle_remove b)
  handler_returns :
      {b : Backend} (c : Cell)
      → Reached start b
      → b.handler ≡ holds c
      → Reached start (handle_done c b)
  sender_removes :
      {b : Backend} → Reached start b → b.sender ≡ waits → Reached start (send_remove b)
  sender_returns :
      {b : Backend} (c : Cell)
      → Reached start b
      → b.sender ≡ holds c
      → Reached start (send_done c b)
  switch_creates :
      {b : Backend} (is_short : Bool) → Reached start b → Reached start (create_digest is_short b)
  switch_sends :
      {b : Backend} (front : List Cell) (c : Cell) (back : List Cell)
      → Reached start b
      → b.digests ≡ front ++ c ∷ back
      → Reached start (send_digest front c back b)
  stops : {b : Backend} → Reached start b → Reached start (stop_backend b)
