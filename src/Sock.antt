-- ===== src/Sock.antt =====
-- src/hardware_dep/shared/ctrl_plane/sock_helpers.c: whole messages over a stream socket, whose
-- `read` and `write` may transfer fewer bytes than they are asked for.
pub mod Read
pub mod Write
pub mod Message
pub mod Wire
mod Tests
use t4p4s_ma.Common.{
  ℕ, zero, suc, ◌+◌, ◌-◌, Option, none, some, List, [], ◌∷◌, ◌++◌, ltb, ◌==◌, if◌then◌else◌, ℤ, pos,
  negsuc, is_neg, le_zero, length, take, drop, min,
}
use t4p4s_ma.Memory.{Mem, load16, htons, store_bytes, load_bytes}
use t4p4s_ma.Messages.Layout.At
use t4p4s_ma.Messages.Layout.Size

-- What the operating system does with a call: it fails, or it transfers at most `k + 1` bytes.
pub data Answer : Type 0 where
  fails : Answer
  at_most : ℕ → Answer

-- A socket: the bytes that the peer sends before it closes, those that went out, and the answers
-- that the next calls get. Behind the last answer a call transfers all that it can.
pub record Sock : Type 0 where
  pub pending : List ℕ
  pub sent : List ℕ
  pub answers : List Answer

-- How many of `n` bytes the next call may transfer; `none` if it fails.
abbrev pub quota : ℕ → List Answer → Option ℕ
quota n [] = some n
quota n (fails ∷ as') = none
quota n (at_most k ∷ as') = some (min n (k + 1))

abbrev pub later : List Answer → List Answer
later [] = []
later (a ∷ as') = as'

-- POSIX `read` and `write` of at most `n` bytes on a blocking stream socket: the result, and for
-- `read` the bytes delivered, which are none when the peer has closed.
unfoldable pub sys_read : ℕ → Sock → ℤ × List ℕ × Sock
sys_read n s = elim (quota n s.answers) [
  | none ↦ (negsuc 0, [], record s { answers = later s.answers })
  | some q ↦ (
    pos (length (take q s.pending)),
    take q s.pending,
    record s { pending = drop q s.pending; answers = later s.answers },
  )
]

unfoldable pub sys_write : List ℕ → Sock → ℤ × Sock
sys_write xs s = elim (quota (length xs) s.answers) [
  | none ↦ (negsuc 0, record s { answers = later s.answers })
  | some q ↦ (pos q, record s { sent = s.sent ++ take q xs; answers = later s.answers })
]

-- What a call leaves: its result, the memory and the socket. `none` is a loop cut off by the fuel.
abbrev pub Outcome : Type 0
Outcome = Option (ℤ × Mem × Sock)

-- The loop of `read_fix`: `r` of the `n` bytes are read.
unfoldable pub read_loop : ℕ → ℕ → ℕ → ℕ → Mem → Sock → Outcome
unfolding store_bytes sys_read
read_loop zero buffer n r m s = if ltb r n then none else some (pos r, m, s)
read_loop (suc fuel) buffer n r m s =
    let (rval, bytes, s') = sys_read (n - r) s in
    let m' = store_bytes m (buffer + r) bytes in
    let next = read_loop fuel buffer n (r + length bytes) m' s' in
    if ltb r n then (if le_zero rval then some (rval, m', s') else next) else some (pos r, m, s)

-- `read_fix`: each round that goes on reads a byte or more, so `nbytes` rounds are enough.
unfoldable pub read_fix : ℕ → ℤ → Mem → Sock → Outcome
unfolding read_loop
read_fix buffer (pos n) m s = read_loop n buffer n 0 m s
read_fix buffer (negsuc n) m s = some (pos 0, m, s)

-- The number that a call wrote, once it is known not to be negative.
abbrev count : ℤ → ℕ
count (pos n) = n
count (negsuc n) = 0

-- The loop of `write_fix`: `w` of the `n` bytes are written.
unfoldable pub write_loop : ℕ → ℕ → ℕ → ℕ → Mem → Sock → Outcome
unfolding load_bytes sys_write
write_loop zero buffer n w m s = if ltb w n then none else some (pos w, m, s)
write_loop (suc fuel) buffer n w m s =
    let (wval, s') = sys_write (load_bytes m (buffer + w) (n - w)) s in
    let next = write_loop fuel buffer n (w + count wval) m s' in
    if ltb w n then (if is_neg wval then some (wval, m, s') else next) else some (pos w, m, s)

-- `write_fix`, of a number of bytes that is never negative.
unfoldable pub write_fix : ℕ → ℕ → Mem → Sock → Outcome
unfolding write_loop
write_fix buffer n m s = write_loop n buffer n 0 m s

-- `msglen - sizeof(struct p4_header)`, passed as an `int`.
abbrev pub body_length : ℕ → ℤ
body_length n = if ltb n Size.header then negsuc (Size.header - n - 1) else pos (n - Size.header)

-- The end of `read_p4_msg`, behind the last `read_fix`.
abbrev pub return_length : ℕ → Outcome → Outcome
return_length msglen none = none
return_length msglen (some (rval, m, s)) = some ((if le_zero rval then rval else pos msglen), m, s)

-- The part of `read_p4_msg` behind the first `read_fix`.
unfoldable pub read_body : ℕ → ℕ → Outcome → Outcome
unfolding read_fix load16 htons
read_body buffer length none = none
read_body buffer length (some (rval, m, s)) =
    let msglen = htons (load16 m (buffer + At.length)) in
    if le_zero rval
    then some (rval, m, s)
    else (if ltb length msglen
        then some (negsuc 99, m, s)
        else (if msglen == Size.header
            then some (pos msglen, m, s)
            else return_length msglen (read_fix (buffer + Size.header) (body_length msglen) m s)))

-- `read_p4_msg`, into a buffer whose length is not negative.
unfoldable pub read_p4_msg : ℕ → ℕ → Mem → Sock → Outcome
unfolding read_body read_fix
read_p4_msg buffer length m s =
    if ltb length Size.header
    then some (negsuc 0, m, s)
    else read_body buffer length (read_fix buffer (pos Size.header) m s)

-- `write_p4_msg`
unfoldable pub write_p4_msg : ℕ → ℕ → Mem → Sock → Outcome
unfolding write_fix load16 htons
write_p4_msg buffer length m s =
    let msglen = htons (load16 m (buffer + At.length)) in
    if ltb length Size.header
    then some (negsuc 0, m, s)
    else (if ltb length msglen then some (negsuc 0, m, s) else write_fix buffer msglen m s)
