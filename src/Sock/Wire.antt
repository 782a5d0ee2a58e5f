-- ===== src/Sock/Wire.antt =====
-- A message over the wire: `write_p4_msg` at one end, `read_p4_msg` at the other.
use t4p4s_ma.Common.{
  take-append_of_length, drop-append_of_length, ℕ, ◌+◌, ◌≤◌, ◌<◌, ◌≡◌, ◌≢◌, refl, ap, ◌∙◌, arith,
  none, some, List, [], ◌++◌, append-nil, ◌⊎◌, length-append, ltb, pos, negsuc, length,
  if◌then◌else◌,
}
use t4p4s_ma.Memory.{Mem, store_bytes, load_bytes}
use t4p4s_ma.Memory.Laws.{length-load_bytes, store_bytes-load_bytes, store_bytes_ne}
use t4p4s_ma.Messages.Layout.Size
use t4p4s_ma.Sock.{
  Answer, Sock, Outcome, read_fix, body_length, read_body, read_p4_msg, write_p4_msg,
}
use t4p4s_ma.Sock.Read.{Steady, sock, read_fix_lem, read_fix_ends}
use t4p4s_ma.Sock.Message.{
  declared, declared-store_bytes, read_p4_msg_step, read_p4_msg_lem, write_p4_msg_lem,
}

read_body_refuses :
    (buffer size d : ℕ) (m : Mem) (s : Sock)
    → declared m buffer ≡ d
    → Size.header ≤ size
    → (size < d) ⊎ (d < Size.header)
    → read_body buffer size (some (pos Size.header, m, s))
      ≡ some ((if ltb size d then negsuc 99 else pos 0), m, s)
unfolding read_body read_fix
read_body_refuses buffer size d m s e h bad = ground (arith, e)

read_body_ends : (buffer size : ℕ) (o : Outcome) → o ≢ none → read_body buffer size o ≢ none
unfolding read_body
read_body_ends buffer size none h = absurd (h refl)
read_body_ends buffer size (some (rval, m, s)) h =
    ground (arith, read_fix_ends (buffer + Size.header) (body_length (declared m buffer)) m s)

-- A message that `write_p4_msg` sends, at whatever pace, is what `read_p4_msg` receives, at
-- whatever pace: both return its declared length, if that is at least the header and fits into both
-- buffers; the reader's buffer then holds the message, and nothing else of its memory has changed.
pub wire_lem :
    (a b size : ℕ) (m g : Mem) (ws rs : List Answer)
    → Size.header ≤ declared g b
    → declared g b ≤ size
    → Steady ws
    → Steady rs
    → (bytes : List ℕ) × (ws' : List Answer) × (rs' : List Answer) × (m' : Mem) × (write_p4_msg b
          size g
          (sock [] [] ws)
        ≡ some (pos (declared g b), g, sock [] bytes ws'))
      × (read_p4_msg a size m (sock bytes [] rs) ≡ some (pos (declared g b), m', sock [] [] rs'))
      × ((i : ℕ) → i < declared g b → m' (a + i) ≡ g (b + i))
      × ((c : ℕ) → (c < a) ⊎ (a + declared g b ≤ c) → m' c ≡ m c)
wire_lem a b size m g ws rs h k sw sr =
    let (ws', st1, wrote) = write_p4_msg_lem b size g [] [] ws (omega arith) k sw in
    let (rs', st2, got) = read_p4_msg_lem a size b m g [] [] rs h k sr in
    (
      load_bytes g b (declared g b),
      ws',
      rs',
      store_bytes m a (load_bytes g b (declared g b)),
      wrote,
      rw append-nil at got,
      λ i lt. store_bytes-load_bytes m g a b (declared g b) i lt,
      λ c out.
          store_bytes_ne m a (load_bytes g b (declared g b)) c
            (ground (arith, length-load_bytes g b (declared g b))),
    )

-- Once the eight bytes of a header have come, with no failing call: a message that declares more
-- than the buffer holds is refused with -100, and one that declares less than a header with 0,
-- which is also the result at the end of the stream. Neither reads on.
pub read_p4_msg_refuses :
    (buffer size b : ℕ) (m g : Mem) (rest t : List ℕ) (as' : List Answer)
    → Size.header ≤ size
    → Steady as'
    → (size < declared g b) ⊎ (declared g b < Size.header)
    → (bs : List Answer) × (read_p4_msg buffer size m
          (sock (load_bytes g b Size.header ++ rest) t as')
        ≡ some (
          (if ltb size (declared g b) then negsuc 99 else pos 0),
          store_bytes m buffer (load_bytes g b Size.header),
          sock rest t bs,
        ))
read_p4_msg_refuses buffer size b m g rest t as' h st bad =
    let long =
      length-append (load_bytes g b Size.header) rest
      ∙ ap (λ i. i + length rest) (length-load_bytes g b Size.header) in
    let (bs, st1, e) =
      read_fix_lem buffer Size.header m (load_bytes g b Size.header ++ rest) t as'
        (omega (arith, long)) st in
    let front =
      rw
        (
          take-append_of_length Size.header (load_bytes g b Size.header) rest
              (length-load_bytes g b Size.header),
          drop-append_of_length Size.header (load_bytes g b Size.header) rest
              (length-load_bytes g b Size.header),
        )
        at e in
    (
      bs,
      read_p4_msg_step buffer size m (sock (load_bytes g b Size.header ++ rest) t as') h
          ∙ ap (read_body buffer size) front
          ∙ read_body_refuses buffer size (declared g b)
              (store_bytes m buffer (load_bytes g b Size.header)) (sock rest t bs)
              (declared-store_bytes m g buffer b Size.header (omega arith)) h bad,
    )

-- `read_p4_msg` returns on every socket.
pub read_p4_msg_ends : (buffer size : ℕ) (m : Mem) (s : Sock) → read_p4_msg buffer size m s ≢ none
unfolding read_p4_msg
read_p4_msg_ends buffer size m s = ground (
  arith,
  read_fix_ends buffer (pos Size.header) m s,
  read_body_ends buffer size (read_fix buffer (pos Size.header) m s),
)
