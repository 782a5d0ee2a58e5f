-- ===== src/Sock/Message.antt =====
-- `write_p4_msg` and `read_p4_msg` on sockets whose calls do not fail.
use t4p4s_ma.Common.{
  zero, suc, take-append_of_length, drop-append_of_length, ℕ, ◌+◌, ◌-◌, ◌≤◌, ◌≡◌, refl, ap, sym,
  ◌∙◌, arith, some, List, ◌++◌, append_assoc, length-append, pos, length, take, drop,
}
use t4p4s_ma.Memory.{Mem, load16, htons, store_bytes, load_bytes}
use t4p4s_ma.Memory.Laws.{
  length-load_bytes, store_bytes-load_bytes, load_bytes-add, store_bytes-append,
}
use t4p4s_ma.Messages.Layout.At
use t4p4s_ma.Messages.Layout.Size
use t4p4s_ma.Sock.{Answer, Sock, read_fix, body_length, read_body, read_p4_msg, write_p4_msg}
use t4p4s_ma.Sock.Read.{Steady, sock, read_fix_lem}
use t4p4s_ma.Sock.Write.{write_fix_lem}

-- The length that the header of a message in network byte order declares.
abbrev pub declared : Mem → ℕ → ℕ
declared m buffer = htons (load16 m (buffer + At.length))

-- `write_p4_msg` with no failing call sends exactly the declared bytes, if the buffer holds them.
pub write_p4_msg_lem :
    (buffer size : ℕ) (m : Mem) (p t : List ℕ) (as' : List Answer)
    → Size.header ≤ size
    → declared m buffer ≤ size
    → Steady as'
    → (bs : List Answer) × Steady bs
      × (write_p4_msg buffer size m (sock p t as')
          ≡ some (
            pos (declared m buffer),
            m,
            sock p (t ++ load_bytes m buffer (declared m buffer)) bs,
          ))
unfolding write_p4_msg
write_p4_msg_lem buffer size m p t as' h k st =
    let (bs, steady, e) = write_fix_lem buffer (declared m buffer) m p t as' st in
    (bs, steady, ground (arith, e))

pub load16_congr :
    (m g : Mem) (a b : ℕ) → m a ≡ g b → m (a + 1) ≡ g (b + 1) → load16 m a ≡ load16 g b
unfolding load16
load16_congr m g a b h k = omega arith

-- The length field is one of the eight bytes that the first `read_fix` stores.
pub declared-store_bytes :
    (m g : Mem) (a b n : ℕ) → 4 ≤ n → declared (store_bytes m a (load_bytes g b n)) a ≡ declared g b
declared-store_bytes m g a b n h = ap htons (
    load16_congr (store_bytes m a (load_bytes g b n)) g (a + At.length) (b + At.length)
      (store_bytes-load_bytes m g a b n 2 (omega arith))
      (ap (store_bytes m a (load_bytes g b n)) (omega arith)
        ∙ store_bytes-load_bytes m g a b n 3 (omega arith)
        ∙ ap g (omega arith)))

take_front :
    (g : Mem) (b n k : ℕ) (rest : List ℕ)
    → take n (load_bytes g b (n + k) ++ rest) ≡ load_bytes g b n
take_front g b n k rest =
    rw (load_bytes-add, append_assoc)
      (take-append_of_length n (load_bytes g b n) (load_bytes g (b + n) k ++ rest)
        (length-load_bytes g b n))

drop_front :
    (g : Mem) (b n k : ℕ) (rest : List ℕ)
    → drop n (load_bytes g b (n + k) ++ rest) ≡ load_bytes g (b + n) k ++ rest
drop_front g b n k rest =
    rw (load_bytes-add, append_assoc)
      (drop-append_of_length n (load_bytes g b n) (load_bytes g (b + n) k ++ rest)
        (length-load_bytes g b n))

body_length_eq : (d k : ℕ) → d ≡ Size.header + k → body_length d ≡ pos k
body_length_eq d k e = ground arith

-- Behind the header, when `k` more bytes are declared and come.
read_body_lem :
    (buffer size d k : ℕ) (m : Mem) (p t : List ℕ) (as' : List Answer)
    → declared m buffer ≡ d
    → d ≡ Size.header + k
    → d ≤ size
    → k ≤ length p
    → Steady as'
    → (bs : List Answer) × Steady bs
      × (read_body buffer size (some (pos Size.header, m, sock p t as'))
          ≡ some (pos d, store_bytes m (buffer + Size.header) (take k p), sock (drop k p) t bs))
unfolding read_body store_bytes
read_body_lem buffer size d zero m p t as' e split le long st = (as', st, ground (arith, e))
read_body_lem buffer size d (suc k) m p t as' e split le long st =
    let (bs, steady, got) = read_fix_lem (buffer + Size.header) (suc k) m p t as' long st in
    (bs, steady, ground (arith, e, body_length_eq d (suc k) split, got))

store_front :
    (m g : Mem) (a b n k : ℕ)
    → store_bytes (store_bytes m a (load_bytes g b n)) (a + n) (load_bytes g (b + n) k)
      ≡ store_bytes m a (load_bytes g b (n + k))
store_front m g a b n k =
    ap (λ i. store_bytes (store_bytes m a (load_bytes g b n)) (a + i) (load_bytes g (b + n) k))
      (sym (length-load_bytes g b n))
    ∙ sym (store_bytes-append m a (load_bytes g b n) (load_bytes g (b + n) k))
    ∙ ap (store_bytes m a) (sym (load_bytes-add g b n k))

pub read_p4_msg_step :
    (buffer size : ℕ) (m : Mem) (s : Sock)
    → Size.header ≤ size
    → read_p4_msg buffer size m s ≡ read_body buffer size (read_fix buffer (pos Size.header) m s)
unfolding read_p4_msg
read_p4_msg_step buffer size m s h = ground arith

read_whole :
    (buffer size b k : ℕ) (m g : Mem) (rest t : List ℕ) (as' : List Answer)
    → declared g b ≡ Size.header + k
    → Size.header + k ≤ size
    → Steady as'
    → (bs : List Answer) × Steady bs
      × (read_p4_msg buffer size m (sock (load_bytes g b (Size.header + k) ++ rest) t as')
          ≡ some (
            pos (Size.header + k),
            store_bytes m buffer (load_bytes g b (Size.header + k)),
            sock rest t bs,
          ))
unfolding read_p4_msg
read_whole buffer size b k m g rest t as' split le st =
    let long =
      length-append (load_bytes g b (Size.header + k)) rest
      ∙ ap (λ i. i + length rest) (length-load_bytes g b (Size.header + k)) in
    let (cs, st1, e1) =
      read_fix_lem buffer Size.header m (load_bytes g b (Size.header + k) ++ rest) t as'
        (omega (arith, long)) st in
    let front = rw (take_front g b Size.header k rest, drop_front g b Size.header k rest) at e1 in
    let more =
      length-append (load_bytes g (b + Size.header) k) rest
      ∙ ap (λ i. i + length rest) (length-load_bytes g (b + Size.header) k) in
    let (bs, st2, e2) =
      read_body_lem buffer size (Size.header + k) k
        (store_bytes m buffer (load_bytes g b Size.header))
        (load_bytes g (b + Size.header) k ++ rest) t cs
        (declared-store_bytes m g buffer b Size.header (omega arith) ∙ split) refl le
        (omega (arith, more)) st1 in
    let whole =
      rw
        (
          take-append_of_length k (load_bytes g (b + Size.header) k) rest
              (length-load_bytes g (b + Size.header) k),
          drop-append_of_length k (load_bytes g (b + Size.header) k) rest
              (length-load_bytes g (b + Size.header) k),
          store_front m g buffer b Size.header k,
        )
        at e2 in
    (
      bs,
      st2,
      read_p4_msg_step buffer size m (sock (load_bytes g b (Size.header + k) ++ rest) t as')
            (omega arith)
          ∙ ap (read_body buffer size) front
          ∙ whole,
    )

-- `read_p4_msg`, when the next bytes to arrive are a message that fits into the buffer, with no
-- failing call: it returns the length of the message, stores exactly the message, and leaves what
-- follows it unread.
pub read_p4_msg_lem :
    (buffer size b : ℕ) (m g : Mem) (rest t : List ℕ) (as' : List Answer)
    → Size.header ≤ declared g b
    → declared g b ≤ size
    → Steady as'
    → (bs : List Answer) × Steady bs
      × (read_p4_msg buffer size m (sock (load_bytes g b (declared g b) ++ rest) t as')
          ≡ some (
            pos (declared g b),
            store_bytes m buffer (load_bytes g b (declared g b)),
            sock rest t bs,
          ))
read_p4_msg_lem buffer size b m g rest t as' h k st =
    let split : declared g b ≡ Size.header + (declared g b - Size.header) = omega arith in
    let (bs, steady, e) =
      read_whole buffer size b (declared g b - Size.header) m g rest t as' split (omega arith) st in
    (
      bs,
      steady,
      ap (λ d. read_p4_msg buffer size m (sock (load_bytes g b d ++ rest) t as')) split
          ∙ e
          ∙ ap (λ d. some (pos d, store_bytes m buffer (load_bytes g b d), sock rest t bs))
              (sym split),
    )
