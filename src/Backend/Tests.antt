-- ===== src/Backend/Tests.antt =====
-- ctrl_plane_backend.c: three cells; a message is received, handled and given back while the switch
-- makes a digest.
use t4p4s_ma.Common.{
  ◌≡◌, refl, arith, true, some, List, [], ◌∷◌, pos, negsuc, length-replicate, replicate,
}
use t4p4s_ma.Cells.{Cell, create, touch_mem_cell}
use t4p4s_ma.Cells.Detouch.{IsFresh}
use t4p4s_ma.Fifo.{Fifo, Ptr, init, add_msg, remove_msg}
use t4p4s_ma.Fifo.Inv.{IsValid, init-IsValid}
use t4p4s_ma.Backend.{
  Backend, receive_touch, receive_done, handle_remove, handle_done, create_digest, send_digest,
  Reached, begins, receiver_touches, receiver_reads, handler_removes, handler_returns,
  switch_creates, switch_sends,
}
use t4p4s_ma.Backend.Places.{Placed}
use t4p4s_ma.Backend.Kept.{new, Reached-Placed}

abbrev cells : List Cell
cells = 5 ∷ 6 ∷ 7 ∷ []

abbrev junk : Cell → Cell
junk c = 9

cells-IsFresh : IsFresh cells []
cells-IsFresh = (
  (λ e. omega (arith, e)),
  tt,
  (
    (λ e. omega (arith, e)),
    ((λ e. omega (arith, e)), tt),
    ((λ e. omega (arith, e)), ((λ e. omega (arith, e)), ((λ e. omega (arith, e)), tt)), tt),
  ),
)

abbrev fresh : Fifo
fresh = record { queue = replicate 1024 0; head = 0; size = 0; tail = negsuc 0 }

init-fresh : init (replicate 1024 0) 0 0 0 ≡ some fresh
unfolding init
init-fresh = refl

fresh-IsValid : IsValid fresh
fresh-IsValid =
    (init-IsValid (replicate 1024 0) 0 0 0 (length-replicate {A = Ptr} 1024 0) init-fresh).0

abbrev started : Backend
started = new cells junk junk fresh fresh

abbrev touched : Backend
touched = receive_touch started

abbrev received : Backend
received = receive_done 7 (pos 100) touched

abbrev digested : Backend
digested = create_digest true received

abbrev removed : Backend
removed = handle_remove digested

abbrev sent : Backend
sent = send_digest [] 6 [] removed

abbrev given_back : Backend
given_back = handle_done 7 sent

run : Reached started given_back
unfolding receive_touch receive_done handle_remove create_digest send_digest touch_mem_cell create
    add_msg remove_msg
run =
    handler_returns 7
      (switch_sends [] 6 []
        (handler_removes
          (switch_creates true (receiver_reads 7 (pos 100) (receiver_touches begins refl) refl))
          refl)
        refl)
      refl

Reached-Placed_example : Placed cells given_back
Reached-Placed_example =
    Reached-Placed cells junk junk fresh fresh (omega arith) cells-IsFresh fresh-IsValid
      fresh-IsValid refl refl given_back run
