-- ===== src/Fifo/Tests.antt =====
-- fifo.c: the queue on concrete inputs.
use t4p4s_ma.Common.{◌≡◌, refl, none, some, [], ◌∷◌, pos, negsuc, length-replicate, replicate}
use t4p4s_ma.Fifo.{Fifo, Ptr, init, add_msg, remove_msg, empty}
use t4p4s_ma.Fifo.Inv.{IsValid, init-IsValid, add_msg-IsValid}
use t4p4s_ma.Fifo.Refine.{contents, enqueue, dequeue, add_msg_refines, remove_msg_refines}

abbrev fresh : Fifo
fresh = record { queue = replicate 1024 0; head = 0; size = 0; tail = negsuc 0 }

init-fresh : init (replicate 1024 0) 0 0 0 ≡ some fresh
unfolding init
init-fresh = refl

init_fails : init [] 0 1 0 ≡ none
unfolding init
init_fails = refl

fresh-IsValid : IsValid fresh
fresh-IsValid =
    (init-IsValid (replicate 1024 0) 0 0 0 (length-replicate {A = Ptr} 1024 0) init-fresh).0

abbrev one : Fifo
one = record { queue = 7 ∷ replicate 1023 0; head = 0; size = 1; tail = pos 0 }

one_added : (add_msg fresh 7).0 ≡ one
unfolding add_msg
one_added = refl

one_removed : ((remove_msg one).0 ≡ 7) × ((remove_msg one).2 ≡ some empty)
unfolding remove_msg
one_removed = (refl, refl)

add_msg_refines_example :
    (contents (add_msg fresh 7).0, (add_msg fresh 7).1) ≡ enqueue (contents fresh) 7
add_msg_refines_example = add_msg_refines 7 fresh-IsValid

remove_msg_refines_example :
    (
      (remove_msg (add_msg fresh 7).0).0,
      contents (remove_msg (add_msg fresh 7).0).1,
      (remove_msg (add_msg fresh 7).0).2,
    )
    ≡ dequeue (contents (add_msg fresh 7).0)
remove_msg_refines_example = remove_msg_refines (add_msg-IsValid 7 fresh-IsValid)
