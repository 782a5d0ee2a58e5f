-- ===== src/Controller/Session.antt =====
-- controller.c: from a built message to the switch. `send_p4_msg` copies the buffer into a cell, the
-- output thread writes it to the socket, and the switch reads it into a cell and handles it. The queue
-- between `send_p4_msg` and the output thread is in `Outbox`.
use t4p4s_ma.Common.{
  ℕ, ◌≡◌, ◌≤◌, Option, none, some, List, [], ◌∷◌, Bool, true, ◌&&◌, leb, ltb, if◌then◌else◌, arith,
  ◌∙◌, ap, pos, append-nil,
}
use t4p4s_ma.Memory.{Mem, Run, ok, fault, Cmd, store_bytes, load_bytes}
use t4p4s_ma.Memory.Laws.{load_bytes_congr, store_bytes-load_bytes}
use t4p4s_ma.Messages.Layout.Size
use t4p4s_ma.Handlers.{CtrlMsg, Handled, handle_p4_msg}
use t4p4s_ma.Sock.{Answer, read_p4_msg, write_p4_msg}
use t4p4s_ma.Sock.Read.{Steady, sock}
use t4p4s_ma.Sock.Message.{declared, declared-store_bytes, read_p4_msg_lem, write_p4_msg_lem}
use t4p4s_ma.Controller.Parts.{buffer_size}
use t4p4s_ma.Controller.Seen.{Delivers, Order, Sees}

-- The cell that `send_p4_msg` makes, with what `malloc` left in it behind the copy; none if the message
-- is too long, which the function does not report.
unfoldable pub message_cell : Mem → Mem → ℕ → Option Mem
unfolding load_bytes store_bytes
message_cell junk buffer length =
    if ltb buffer_size length then none else some (store_bytes junk 0 (load_bytes buffer 0 length))

-- The switch's side: what arrives is read into the cell and handled.
unfoldable pub receive : Mem → CtrlMsg → List Answer → List ℕ → Run Handled
unfolding read_p4_msg handle_p4_msg
receive cell stack answers bytes = elim (read_p4_msg 0 buffer_size cell (sock bytes [] answers)) [
  | none ↦ fault
  | some (rval, m, s) ↦ handle_p4_msg 0 buffer_size stack m
]

-- What is in memory and on the stack before, and how fast the sockets transfer.
pub record World : Type 0 where
  pub buffer : Mem
  pub junk : Mem
  pub cell : Mem
  pub stack : CtrlMsg
  pub writes : List Answer
  pub reads : List Answer

-- What `output_processor` does with a cell, and then the switch with what arrives.
unfoldable pub transfer : World → Mem → ℕ → Run Handled
unfolding receive write_p4_msg
transfer w copy length = elim (write_p4_msg 0 length copy (sock [] [] w.writes)) [
  | none ↦ fault
  | some (wval, m', s) ↦ receive w.cell w.stack w.reads s.sent
]

-- A message built in a buffer, sent with the given length, and handled by the switch, if it finds room
-- in the queue.
unfoldable pub session : World → Cmd (Unit {0}) → ℕ → Run Handled
unfolding message_cell transfer
session w build length = elim (build w.buffer) [
  | fault ↦ fault
  | ok _ m ↦ elim (message_cell w.junk m length) [
    | none ↦ fault
    | some copy ↦ transfer w copy length
  ]
]

-- No call on the sockets fails.
pub record IsSteady (w : World) : Type 0 where
  pub writes : Steady w.writes
  pub reads : Steady w.reads

module _ (w : World) (steady : IsSteady w) (build : Cmd (Unit {0})) (length : ℕ) (g : Mem) where
  copied : Mem
  copied = store_bytes w.junk 0 (load_bytes g 0 length)

  session_step :
      {ws : List Answer}
      → build w.buffer ≡ ok tt g
      → length ≤ buffer_size
      → write_p4_msg 0 length copied (sock [] [] w.writes)
        ≡ some
            (pos (declared copied 0), copied, sock [] (load_bytes copied 0 (declared copied 0)) ws)
      → session w build length
        ≡ receive w.cell w.stack w.reads (load_bytes copied 0 (declared copied 0))
  unfolding session message_cell transfer copied
  session_step built le wrote = ground (arith, built, wrote)

  receive_step :
      {rs : List Answer} {n : ℕ} {m : Mem} (bytes : List ℕ)
      → read_p4_msg 0 buffer_size w.cell (sock bytes [] w.reads) ≡ some (pos n, m, sock [] [] rs)
      → receive w.cell w.stack w.reads bytes ≡ handle_p4_msg 0 buffer_size w.stack m
  unfolding receive
  receive_step bytes got = rw got

  -- The switch handles exactly the message that was built.
  pub session_lem :
      build w.buffer ≡ ok tt g
      → Size.header ≤ declared g 0
      → declared g 0 ≤ length
      → length ≤ buffer_size
      → session w build length
        ≡ handle_p4_msg 0 buffer_size w.stack (store_bytes w.cell 0 (load_bytes g 0 (declared g 0)))
  unfolding copied
  session_lem built header le fits =
      let same : declared copied 0 ≡ declared g 0 =
        declared-store_bytes w.junk g 0 0 length (omega arith) in
      let bytes : load_bytes copied 0 (declared copied 0) ≡ load_bytes g 0 (declared g 0) =
        ap (load_bytes copied 0) same
        ∙ load_bytes_congr copied g 0 0 (declared g 0)
            (λ i lt. store_bytes-load_bytes w.junk g 0 0 length i (omega arith)) in
      let (ws, st, wrote) =
        write_p4_msg_lem 0 length copied [] [] w.writes (omega arith) (omega (arith, same))
          steady.writes in
      let (rs, st', got) =
        read_p4_msg_lem 0 buffer_size 0 w.cell g [] [] w.reads header (omega arith) steady.reads in
      session_step built fits wrote
      ∙ ap (receive w.cell w.stack w.reads) bytes
      ∙ receive_step (load_bytes g 0 (declared g 0)) (rw append-nil at got)

abbrev pub after : Run (Unit {0}) → Mem
after (ok _ m) = m
after fault = λ a. 0

-- The session makes the switch's callback see that order.
abbrev pub Conveys : World → Cmd (Unit {0}) → ℕ → Order → Type 0
Conveys w build length order = Delivers (Sees order) (session w build length)

-- A message of `d` bytes that is sent with the given length and still fits.
abbrev pub fits : ℕ → ℕ → Bool
fits d length = leb Size.header d && leb d length && leb length buffer_size

-- It does so if the handler does on the built message, whose length is `d`.
pub Conveys-of_handled :
    (w : World) (build : Cmd (Unit {0})) (length d : ℕ) (order : Order)
    → IsSteady w
    → build w.buffer ≡ ok tt (after (build w.buffer))
    → declared (after (build w.buffer)) 0 ≡ d
    → fits d length ≡ true
    → Delivers (Sees order) (
        handle_p4_msg 0 buffer_size w.stack
          (store_bytes w.cell 0 (load_bytes (after (build w.buffer)) 0 d)))
    → Conveys w build length order
Conveys-of_handled w build length d order steady built e f h =
    rw
      (
        session_lem w steady build length (after (build w.buffer)) built (ground (arith, e, f))
            (ground (arith, e, f)) (ground (arith, f)),
        e,
      )
      h

-- A message and the length that it is sent with.
abbrev pub Outgoing : Type 0
Outgoing = Cmd (Unit {0}) × ℕ

-- Each message conveys its order.
abbrev pub AllConvey : World → List Outgoing → List Order → Type 0
AllConvey w [] [] = Unit
AllConvey w [] (o ∷ os) = ⊥
AllConvey w (m ∷ ms) [] = ⊥
AllConvey w (m ∷ ms) (o ∷ os) = Conveys w m.0 m.1 o × AllConvey w ms os
