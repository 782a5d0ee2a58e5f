-- ===== src/Fifo/Refine.antt =====
-- A valid queue behaves as the bounded FIFO of the pointers that it holds.
use t4p4s_ma.Common.{
  ℕ, zero, suc, ◌+◌, ◌-◌, ◌%◌, ◌≤◌, ◌<◌, ◌≡◌, refl, ap, ap₂, ◌∙◌, Option, none, some, List, [], ◌∷◌,
  ◌++◌, arith, ltb, ◌==◌, if◌then◌else◌, length, get_or, set, get_or-set_self, get_or-set_ne,
}
use t4p4s_ma.Fifo.{Fifo, Ptr, Signal, not_empty, empty, queue_size, add_msg, remove_msg}
use t4p4s_ma.Fifo.Inv.{IsValid}

-- The `n` pointers from index `h` on, going round at the end of the array.
abbrev pub window : List Ptr → ℕ → ℕ → List Ptr
window q h zero = []
window q h (suc n) = get_or q (h % queue_size) 0 ∷ window q (h + 1) n

abbrev pub contents : Fifo → List Ptr
contents f = window f.queue f.head f.size

-- The abstract queue, oldest first: a message that does not fit is dropped.
unfoldable pub enqueue : List Ptr → Ptr → List Ptr × Option Signal
enqueue q x = if ltb (length q) queue_size then (q ++ x ∷ [], some not_empty) else (q, none)

unfoldable pub dequeue : List Ptr → Ptr × List Ptr × Option Signal
dequeue [] = (0, [], none)
dequeue (x ∷ []) = (x, [], some empty)
dequeue (x ∷ y ∷ q) = (x, y ∷ q, none)

pub length-window : (q : List Ptr) (h n : ℕ) → length (window q h n) ≡ n
length-window q h zero = refl
length-window q h (suc n) = ap suc (length-window q (h + 1) n)

window_congr :
    (q : List Ptr) (h k n : ℕ) → h % queue_size ≡ k % queue_size → window q h n ≡ window q k n
window_congr q h k zero e = refl
window_congr q h k (suc n) e =
    ap₂ ◌∷◌ (ap (λ i. get_or q i 0) e) (window_congr q (h + 1) (k + 1) n (omega arith))

-- A write `d` places behind the window's start leaves a window of at most `d` places as it was.
window-set_ne :
    (q : List Ptr) (x h n d : ℕ)
    → n ≤ d
    → d < queue_size
    → window (set q ((h + d) % queue_size) x) h n ≡ window q h n
window-set_ne q x h zero d le lt = refl
window-set_ne q x h (suc n) zero le lt = absurd (omega arith)
window-set_ne q x h (suc n) (suc d) le lt =
    ap₂ ◌∷◌ (get_or-set_ne q ((h + suc d) % queue_size) (h % queue_size) x 0 (omega arith)) (
      ap (λ i. window (set q i x) (h + 1) n) (omega arith)
      ∙ window-set_ne q x (h + 1) n d (omega arith) (omega arith))

window_snoc :
    (q : List Ptr) (h n : ℕ)
    → window q h (suc n) ≡ window q h n ++ get_or q ((h + n) % queue_size) 0 ∷ []
window_snoc q h zero = ap (λ i. get_or q i 0 ∷ []) (omega arith)
window_snoc q h (suc n) =
    ap (◌∷◌ (get_or q (h % queue_size) 0))
      (window_snoc q (h + 1) n ∙ ap (λ i. window q (h + 1) n ++ get_or q i 0 ∷ []) (omega arith))

-- Writing just behind a window that leaves room extends it by the written pointer.
window-set :
    (q : List Ptr) (x h n : ℕ)
    → length q ≡ queue_size
    → n < queue_size
    → window (set q ((h + n) % queue_size) x) h (n + 1) ≡ window q h n ++ x ∷ []
window-set q x h n len lt =
    ap (window (set q ((h + n) % queue_size) x) h) one_more
    ∙ window_snoc (set q ((h + n) % queue_size) x) h n
    ∙ ap₂ (λ (w : List Ptr) (y : Ptr). w ++ y ∷ []) (window-set_ne q x h n n (omega arith) lt)
        (get_or-set_self q ((h + n) % queue_size) x 0 (omega arith))
  where
    one_more : n + 1 ≡ suc n
    one_more = omega arith

dequeue-window :
    (q : List Ptr) (h n : ℕ)
    → 0 < n
    → dequeue (window q h n) ≡ (
      get_or q (h % queue_size) 0,
      window q (h + 1) (n - 1),
      if n - 1 == 0 then some empty else none,
    )
unfolding dequeue
dequeue-window q h zero lt = absurd (omega arith)
dequeue-window q h (suc zero) lt = refl
dequeue-window q h (suc (suc n)) lt =
    let less : suc (suc n) - 1 ≡ suc n = omega arith in rw less (ground arith)

dequeue_empty : (q : List Ptr) (h n : ℕ) → n ≡ 0 → dequeue (window q h n) ≡ (0, [], none)
unfolding dequeue
dequeue_empty q h zero e = refl
dequeue_empty q h (suc n) e = absurd (omega arith)

window_empty : (q : List Ptr) (h n : ℕ) → n ≡ 0 → window q h n ≡ []
window_empty q h zero e = refl
window_empty q h (suc n) e = absurd (omega arith)

-- `fifo_add_msg` on a valid queue is `enqueue` on its contents: the pointer goes to the end and
-- `not_empty` is signalled if fewer than 1024 are stored, and otherwise nothing changes.
pub add_msg_refines :
    {f : Fifo} (x : Ptr)
    → IsValid f
    → (contents (add_msg f x).0, (add_msg f x).1) ≡ enqueue (contents f) x
unfolding add_msg enqueue
add_msg_refines {f} x v =
    ground (arith, length-window f.queue f.head f.size, window-set f.queue x f.head f.size)

-- `fifo_remove_msg` on a valid queue is `dequeue` on its contents: the oldest pointer, or null if
-- there is none, and `empty` is signalled if it was the last one.
pub remove_msg_refines :
    {f : Fifo}
    → IsValid f
    → ((remove_msg f).0, contents (remove_msg f).1, (remove_msg f).2) ≡ dequeue (contents f)
unfolding remove_msg
remove_msg_refines {f} v = ground (
  arith,
  dequeue-window f.queue f.head f.size,
  window_congr f.queue ((f.head + 1) % queue_size) (f.head + 1) (f.size - 1),
  dequeue_empty f.queue f.head f.size,
  window_empty f.queue f.head f.size,
)
