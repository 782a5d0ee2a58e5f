-- ===== src/ThreadPool.antt =====
-- src/hardware_dep/shared/ctrl_plane/threadpool.c: the queue of work items, a linked list with a
-- head and a tail, and what dispatch and one round of do_work do with the lock.
pub mod Queue
mod Tests
use t4p4s_ma.Common.{ℕ, ◌+◌, ◌-◌, Bool, true, false, List, [], ◌∷◌, ◌&&◌, not, ◌==◌, if◌then◌else◌}
use t4p4s_ma.Cells.{Cell, null, store}

-- The signals that a call sends.
pub data Signal : Type 0 where
  q_not_empty q_empty : Signal

-- `_threadpool`, with the members of the `work_t` items, and whether the caller holds `qlock`.
pub record Pool : Type 0 where
  pub qsize : ℕ
  pub qhead : Cell
  pub qtail : Cell
  pub next : Cell → Cell
  pub routine : Cell → ℕ
  pub arg : Cell → ℕ
  pub shutdown : Bool
  pub dont_accept : Bool
  pub locked : Bool

-- The part of `create_threadpool` that sets the queue up.
unfoldable pub create : (Cell → Cell) → (Cell → ℕ) → (Cell → ℕ) → Pool
create next routine arg = record {
  qsize = 0;
  qhead = null;
  qtail = null;
  next = next;
  routine = routine;
  arg = arg;
  shutdown = false;
  dont_accept = false;
  locked = false;
}

-- `dispatch`: `cur` is what `malloc` returns.
unfoldable pub dispatch : Cell → ℕ → ℕ → Pool → Pool × List Signal
unfolding store
dispatch cur routine arg p =
    if cur == null
    then (p, [])
    else (let q : Pool = record p {
      routine = store p.routine cur routine;
      arg = store p.arg cur arg;
      next = store p.next cur null;
      locked = true;
    } in
        if p.dont_accept
        then (q, [])
        else (if p.qsize == 0
            then (
              record q { qhead = cur; qtail = cur; qsize = p.qsize + 1; locked = false },
              q_not_empty ∷ [],
            )
            else (
              record q {
                next = store q.next p.qtail cur;
                qtail = cur;
                qsize = p.qsize + 1;
                locked = false;
              },
              [],
            )))

-- What a worker does next, once it looked at the queue under the lock.
pub data Round : Type 0 where
  exits : Round
  -- `pthread_cond_wait`, to which the mutex is passed unlocked
  waits : Round
  works : Cell → Round

-- One look of `do_work` at the queue: the item taken is worked on without the lock.
unfoldable pub round : Pool → Round × Pool × List Signal
round p =
    if p.qsize == 0
    then (if p.shutdown
        then (exits, record p { locked = false }, [])
        else (waits, record p { locked = false }, []))
    else (
      works p.qhead,
      (if p.qsize - 1 == 0
          then record p { qsize = p.qsize - 1; qhead = null; qtail = null; locked = false }
          else record p { qsize = p.qsize - 1; qhead = p.next p.qhead; locked = false }),
      (if (p.qsize - 1 == 0) && not p.shutdown then q_empty ∷ [] else []),
    )
