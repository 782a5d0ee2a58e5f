-- ===== src/Fifo/Ends.antt =====
-- src/hardware_dep/shared/ctrl_plane/fifo.c: what is at the two ends of a queue.
use t4p4s_ma.Common.{
  ◌<◌, ◌≡◌, ◌⊎◌, inl, inr, refl, sym, ap, subst, ◌∙◌, List, [], ◌∷◌, ◌++◌, lt→ltb, length,
}
use t4p4s_ma.Fifo.{Fifo, Ptr, queue_size, add_msg, remove_msg}
use t4p4s_ma.Fifo.Inv.{IsValid}
use t4p4s_ma.Fifo.Refine.{contents, enqueue, dequeue, add_msg_refines, remove_msg_refines}

-- With room, a message is added at the end.
pub add_msg_room :
    (f : Fifo) (c : Ptr)
    → IsValid f
    → length (contents f) < queue_size
    → contents (add_msg f c).0 ≡ contents f ++ c ∷ []
unfolding enqueue
add_msg_room f c v h =
    ap (λ r. r.0) (add_msg_refines c v) ∙ rw (lt→ltb (length (contents f)) queue_size h)

-- What a removal does: it gives null from an empty queue, and else the first message.
abbrev pub Removed : List Ptr → Ptr → List Ptr → Type 0
Removed q c q' = ((c ≡ 0) × (q ≡ []) × (q' ≡ [])) ⊎ (q ≡ c ∷ q')

dequeue-Removed : (q : List Ptr) → Removed q (dequeue q).0 (dequeue q).1
unfolding dequeue
dequeue-Removed [] = inl (refl, refl, refl)
dequeue-Removed (x ∷ []) = inr refl
dequeue-Removed (x ∷ y ∷ q) = inr refl

pub remove_msg-Removed :
    (f : Fifo) → IsValid f → Removed (contents f) (remove_msg f).0 (contents (remove_msg f).1)
remove_msg-Removed f v =
    let e = remove_msg_refines v in
    subst (λ r. Removed (contents f) r.0 r.1) (sym e) (dequeue-Removed (contents f))
