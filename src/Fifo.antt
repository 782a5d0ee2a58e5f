-- ===== src/Fifo.antt =====
-- src/hardware_dep/shared/ctrl_plane/fifo.c and fifo.h: the bounded queue of message pointers
-- between the threads of the backend and of the controller.
-- Each function runs under the queue's lock, so it is one step on the queue's state.
pub mod Inv
pub mod Refine
pub mod Ends
mod Tests
use t4p4s_ma.Common.{
  ℕ, ◌+◌, ◌-◌, ◌%◌, Bool, true, false, Option, none, some, List, ℤ, pos, negsuc, next_mod, ltb,
  ◌==◌, if◌then◌else◌, get_or, set, replicate,
}

-- `void*`; 0 is the null pointer.
abbrev pub Ptr : Type 0
Ptr = ℕ

-- P4_BG_QUEUE_SIZE
abbrev pub queue_size : ℕ
queue_size = 1024

-- `fifo_t`, less the lock and the condition variables. `tail` starts at -1.
pub record Fifo : Type 0 where
  pub queue : List Ptr
  pub head : ℕ
  pub size : ℕ
  pub tail : ℤ

-- The condition variables that a call may signal.
pub data Signal : Type 0 where
  not_empty empty : Signal

-- `fifo_init`: the arguments after the array are the results of `pthread_mutex_init` and of the
-- two calls of `pthread_cond_init`; the option is the returned pointer. The fields are set in any case.
unfoldable pub init : List Ptr → ℕ → ℕ → ℕ → Option Fifo
init storage lock_rc empty_rc not_empty_rc =
    if lock_rc == 0
    then (if empty_rc == 0 then (if not_empty_rc == 0 then some fresh else none) else none)
    else none
  where
    fresh : Fifo
    fresh = record { queue = storage; head = 0; size = 0; tail = negsuc 0 }

-- `queue->queue[i] = element`; a negative index is out of the array, as is one past its end.
abbrev pub put : List Ptr → ℤ → Ptr → List Ptr
put q (pos i) x = set q i x
put q (negsuc i) x = q

-- `fifo_add_msg`: the new queue and the signal sent. It returns its argument in any case.
unfoldable pub add_msg : Fifo → Ptr → Fifo × Option Signal
add_msg f element =
    if ltb f.size queue_size
    then (
      record f {
        tail = next_mod f.tail queue_size;
        size = f.size + 1;
        queue = put f.queue (next_mod f.tail queue_size) element;
      },
      some not_empty,
    )
    else (f, none)

-- `fifo_remove_msg`: the removed pointer, 0 if there is none, the new queue and the signal sent.
unfoldable pub remove_msg : Fifo → Ptr × Fifo × Option Signal
remove_msg f =
    if ltb 0 f.size
    then (
      get_or f.queue f.head 0,
      record f { head = (f.head + 1) % queue_size; size = f.size - 1 },
      (if f.size - 1 == 0 then some empty else none),
    )
    else (0, f, none)

-- `fifo_size`
unfoldable pub size_of : Fifo → ℕ
size_of f = f.size

-- `fifo_wait`: whether the call blocks on `not_empty`.
unfoldable pub wait_blocks : Fifo → Bool
wait_blocks f = f.size == 0
