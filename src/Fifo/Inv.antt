-- ===== src/Fifo/Inv.antt =====
-- The representation invariant of `fifo_t`.
use t4p4s_ma.Common.{
  ℕ, ◌+◌, ◌%◌, ◌≤◌, ◌<◌, ◌≡◌, some, List, arith, ℤ, pos, negsuc, next_mod, length, length-set,
}
use t4p4s_ma.Fifo.{Fifo, Ptr, queue_size, init, put, add_msg, remove_msg}

pub record IsValid (f : Fifo) : Type 0 where
  pub storage : length f.queue ≡ queue_size
  pub head_in : f.head < queue_size
  pub size_in : f.size ≤ queue_size
  pub tail_at : next_mod f.tail queue_size ≡ pos ((f.head + f.size) % queue_size)

length-put : (q : List Ptr) (i : ℤ) (x : Ptr) → length (put q i x) ≡ length q
length-put q (pos i) x = length-set q i x
length-put q (negsuc i) x = omega arith

-- If `fifo_init` on an array of 1024 pointers succeeds, whatever they are, the queue is valid and
-- empty.
pub init-IsValid :
    (s : List Ptr) (a b c : ℕ) {f : Fifo}
    → length s ≡ queue_size
    → init s a b c ≡ some f
    → IsValid f × (f.size ≡ 0)
unfolding init
init-IsValid s a b c h e = ground arith

-- `fifo_add_msg` keeps a queue valid, full or not.
pub add_msg-IsValid : {f : Fifo} (x : Ptr) → IsValid f → IsValid (add_msg f x).0
unfolding add_msg
add_msg-IsValid {f} x v = ground (arith, length-put f.queue (next_mod f.tail queue_size) x)

-- `fifo_remove_msg` keeps a queue valid, empty or not.
pub remove_msg-IsValid : {f : Fifo} → IsValid f → IsValid (remove_msg f).1
unfolding remove_msg
remove_msg-IsValid v = ground arith
