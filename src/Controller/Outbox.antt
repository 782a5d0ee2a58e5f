-- ===== src/Controller/Outbox.antt =====
-- controller.c: `send_p4_msg` and `output_processor` over the output queue between them, and a thread
-- that sends messages while the output thread takes them.
pub mod Kept
pub mod Sent
use t4p4s_ma.Common.{ℕ, ◌+◌, Option, none, some, List, [], ◌∷◌, ◌++◌, ◌==◌, if◌then◌else◌}
use t4p4s_ma.Memory.{Mem, Run, ok, fault}
use t4p4s_ma.MainLoop.{◌>>=◌}
use t4p4s_ma.Handlers.{Handled}
use t4p4s_ma.Fifo.{Fifo, add_msg, remove_msg}
use t4p4s_ma.Controller.Session.{World, Outgoing, message_cell, transfer}

-- The output queue of `controller_t`, and the `msg_buf_t` that its pointers stand for, each with its
-- data and its length: `made` is the last one that `malloc` gave.
pub record Outbox : Type 0 where
  pub output_queue : Fifo
  pub made : ℕ
  pub cells : ℕ → Mem × ℕ

-- `send_p4_msg`, which returns 0 in any case. `fifo_add_msg` returns its queue, which is not null, also
-- when it is full and the message is not in it, so the printing of an error is never reached.
unfoldable pub send_p4_msg : Mem → Mem → ℕ → Outbox → Outbox
unfolding message_cell add_msg
send_p4_msg junk buffer length c = elim (message_cell junk buffer length) [
  | none ↦ c
  | some copy ↦ record {
    output_queue = (add_msg c.output_queue (c.made + 1)).0;
    made = c.made + 1;
    cells = λ p. if p == c.made + 1 then (copy, length) else c.cells p;
  }
]

-- A message is built in the buffer and sent; `none` is a fault.
unfoldable pub build_and_send : World → Outgoing → Outbox → Option Outbox
unfolding send_p4_msg
build_and_send w m c = elim (m.0 w.buffer) [
  | fault ↦ none
  | ok _ g ↦ some (send_p4_msg w.junk g m.1 c)
]

-- One round of `output_processor`: what the switch makes of the message, if there is one.
unfoldable pub output_round : World → Outbox → List (Run Handled) × Outbox
unfolding remove_msg
output_round w c =
    let (p, q, signal) = remove_msg c.output_queue in
    (
      (if p == 0 then [] else transfer w (c.cells p).0 (c.cells p).1 ∷ []),
      record c { output_queue = q },
    )

-- Whose turn it is: the thread that sends the next message, or the output thread.
pub data Turn : Type 0 where
  sends takes : Turn

-- What the switch made of the messages that arrived, those not sent yet, and the queue, behind so many
-- turns.
unfoldable pub run :
    World
    → List Turn
    → List Outgoing
    → Outbox
    → Option (List (Run Handled) × List Outgoing × Outbox)
unfolding build_and_send output_round
run w [] ms c = some ([], ms, c)
run w (sends ∷ turns) [] c = run w turns [] c
run w (sends ∷ turns) (m ∷ ms) c = build_and_send w m c >>= run w turns ms
run w (takes ∷ turns) ms c =
    let (arrived, c') = output_round w c in
    run w turns ms c' >>= (λ (later, ms', c''). some (arrived ++ later, ms', c''))
