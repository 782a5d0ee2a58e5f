-- ===== src/Sock/Write.antt =====
-- `write_fix` on a socket whose calls do not fail: all the bytes, however they are taken.
use t4p4s_ma.Common.{
  ℕ, zero, suc, ◌+◌, ◌-◌, ◌≤◌, ◌<◌, ◌≡◌, ◌∙◌, arith, some, List, ◌++◌, append-nil, append_assoc,
  pos, length, take, lt→ltb,
}
use native.Mathlib.Decide.{dec_lt}
use t4p4s_ma.Memory.{Mem, load_bytes}
use t4p4s_ma.Memory.Laws.{length-load_bytes, load_bytes-add, take-load_bytes}
use t4p4s_ma.Sock.{Answer, quota, later, sys_write, Outcome, write_loop, write_fix}
use t4p4s_ma.Sock.Read.{Steady, later-Steady, sock, quota-some, ltb_self}

sys_write-some :
    (n q : ℕ) (xs p t : List ℕ) (as' : List Answer)
    → quota n as' ≡ some q
    → length xs ≡ n
    → sys_write xs (sock p t as') ≡ (pos q, sock p (t ++ take q xs) (later as'))
unfolding sys_write
sys_write-some n q xs p t as' e len =
    let at_length : quota (length xs) as' ≡ some q = rw len e in rw at_length

module _ (buffer n : ℕ) (m : Mem) (p : List ℕ) where
  write_more :
      (fuel w q : ℕ) (t : List ℕ) (as' : List Answer)
      → w < n
      → quota (n - w) as' ≡ some q
      → q ≤ n - w
      → write_loop (suc fuel) buffer n w m (sock p t as')
        ≡ write_loop fuel buffer n (w + q) m (sock p (t ++ load_bytes m (buffer + w) q) (later as'))
  unfolding write_loop
  write_more fuel w q t as' lt e k =
      let wrote =
        sys_write-some (n - w) q (load_bytes m (buffer + w) (n - w)) p t as' e
          (length-load_bytes m (buffer + w) (n - w)) in
      rw (lt→ltb w n lt, wrote, take-load_bytes m (buffer + w) q (n - w) k)

  write_done :
      (fuel w : ℕ) (t : List ℕ) (as' : List Answer)
      → w ≡ n
      → write_loop fuel buffer n w m (sock p t as')
        ≡ some (pos n, m, sock p (t ++ load_bytes m (buffer + w) (n - w)) as')
  unfolding write_loop load_bytes
  write_done zero w t as' e =
      let none_left : n - w ≡ 0 = omega arith in rw (none_left, append-nil, ltb_self w n e, e)
  write_done (suc fuel) w t as' e =
      let none_left : n - w ≡ 0 = omega arith in rw (ltb_self w n e, none_left, append-nil, e)

  write_join :
      (w q : ℕ) (t : List ℕ) (bs : List Answer)
      → w + q ≤ n
      → ◌≡◌ {A = Outcome}
          (some (
            pos n,
            m,
            sock p
                ((t ++ load_bytes m (buffer + w) q)
                  ++ load_bytes m (buffer + (w + q)) (n - (w + q)))
                bs,
          ))
          (some (pos n, m, sock p (t ++ load_bytes m (buffer + w) (n - w)) bs))
  write_join w q t bs le =
      let split : n - w ≡ q + (n - (w + q)) = omega arith in
      let at : buffer + (w + q) ≡ buffer + w + q = omega arith in
      rw (split, load_bytes-add, append_assoc, at)

  -- With a byte or more for each round left, the loop writes the rest.
  write_loop_lem :
      (fuel w : ℕ) (t : List ℕ) (as' : List Answer)
      → w ≤ n
      → n ≤ w + fuel
      → Steady as'
      → (bs : List Answer) × Steady bs
        × (write_loop fuel buffer n w m (sock p t as')
            ≡ some (pos n, m, sock p (t ++ load_bytes m (buffer + w) (n - w)) bs))
  write_loop_lem zero w t as' le fuel h = (as', h, write_done 0 w t as' (omega arith))
  write_loop_lem (suc fuel) w t as' le more h = elim (dec_lt w n) [
    | no done ↦ (as', h, write_done (suc fuel) w t as' (omega arith))
    | yes lt ↦
        let (q, e, some_left, small) = quota-some (n - w) as' (omega arith) h in
        let (bs, steady, ih) =
          write_loop_lem fuel (w + q) (t ++ load_bytes m (buffer + w) q) (later as') (omega arith)
            (omega arith) (later-Steady as' h) in
        (bs, steady, write_more fuel w q t as' lt e small ∙ ih ∙ write_join w q t bs (omega arith))
  ]

-- `write_fix` with no failing call returns the number of bytes given, sends exactly those bytes in
-- their order behind what was sent before, and changes no memory.
pub write_fix_lem :
    (buffer n : ℕ) (m : Mem) (p t : List ℕ) (as' : List Answer)
    → Steady as'
    → (bs : List Answer) × Steady bs
      × (write_fix buffer n m (sock p t as')
          ≡ some (pos n, m, sock p (t ++ load_bytes m buffer n) bs))
unfolding write_fix
write_fix_lem buffer n m p t as' h =
    let (bs, steady, e) = write_loop_lem buffer n m p n 0 t as' (omega arith) (omega arith) h in
    let from_start : buffer + 0 ≡ buffer = omega arith in
    let all_left : n - 0 ≡ n = omega arith in (bs, steady, rw (from_start, all_left) at e)
