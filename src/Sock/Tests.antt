-- ===== src/Sock/Tests.antt =====
-- sock_helpers.c: the properties on a socket that splits the bytes.
use t4p4s_ma.Common.{
  ℕ, ◌+◌, ◌≡◌, ◌≢◌, ◌≤◌, ◌<◌, ◌⊎◌, inr, arith, none, some, List, [], ◌∷◌, ◌++◌, pos, negsuc, ltb,
  if◌then◌else◌, ◌==◌,
}
use t4p4s_ma.Memory.{Mem, store_bytes, load_bytes, load16, htons}
use t4p4s_ma.Messages.Layout.Size
use t4p4s_ma.Sock.{Answer, fails, at_most, read_fix, read_p4_msg, write_p4_msg}
use t4p4s_ma.Sock.Read.{sock, read_fix_ends}
use t4p4s_ma.Sock.Message.{declared}
use t4p4s_ma.Sock.Wire.{wire_lem, read_p4_msg_refuses, read_p4_msg_ends}

-- A message that declares ten bytes in network byte order.
abbrev msg : Mem
msg a = if a == 2 then 0 else (if a == 3 then 10 else a)

abbrev zeros : Mem
zeros a = 0

-- A call that transfers three bytes, then one that transfers one, then all.
abbrev slow : List Answer
slow = at_most 2 ∷ at_most 0 ∷ []

read_slow : read_fix 0 (pos 4) zeros (sock (1 ∷ 2 ∷ 3 ∷ 4 ∷ 5 ∷ []) [] (fails ∷ [])) ≢ none
read_slow = read_fix_ends 0 (pos 4) zeros (sock (1 ∷ 2 ∷ 3 ∷ 4 ∷ 5 ∷ []) [] (fails ∷ []))

wire_lem_example :
    (bytes : List ℕ) × (ws' : List Answer) × (rs' : List Answer) × (m' : Mem) × (write_p4_msg 0 2048
        msg
        (sock [] [] slow)
      ≡ some (pos (declared msg 0), msg, sock [] bytes ws'))
    × (read_p4_msg 0 2048 zeros (sock bytes [] slow)
        ≡ some (pos (declared msg 0), m', sock [] [] rs'))
    × ((i : ℕ) → i < declared msg 0 → m' (0 + i) ≡ msg (0 + i))
    × ((c : ℕ) → (c < 0) ⊎ (0 + declared msg 0 ≤ c) → m' c ≡ zeros c)
wire_lem_example =
    wire_lem 0 0 2048 zeros msg slow slow (unfold load16 htons in omega arith)
      (unfold load16 htons in omega arith) tt tt

read_p4_msg_refuses_example :
    (bs : List Answer) × (read_p4_msg 0 2048 zeros
        (sock (load_bytes zeros 0 Size.header ++ 7 ∷ []) [] slow)
      ≡ some (
        (if ltb 2048 (declared zeros 0) then negsuc 99 else pos 0),
        store_bytes zeros 0 (load_bytes zeros 0 Size.header),
        sock (7 ∷ []) [] bs,
      ))
read_p4_msg_refuses_example =
    read_p4_msg_refuses 0 2048 0 zeros zeros (7 ∷ []) [] slow (omega arith) tt
      (inr (unfold load16 htons in omega arith))

read_p4_msg_ends_example : read_p4_msg 0 2048 zeros (sock [] [] (fails ∷ [])) ≢ none
read_p4_msg_ends_example = read_p4_msg_ends 0 2048 zeros (sock [] [] (fails ∷ []))
