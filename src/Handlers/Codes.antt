-- ===== src/Handlers/Codes.antt =====
-- handlers.c: what `handle_p4_msg` returns, and whether it calls the callback.
use t4p4s_ma.Common.{
  ℕ, ◌+◌, ◌<◌, ◌≤◌, ◌≡◌, ◌≢◌, ◌%◌, inl, ◌∙◌, refl, arith, none, some, negsuc, lt→ltb, le→ltb, ==_ne,
}
use t4p4s_ma.Memory.{Mem, ok, Returns, load16, load32, store16, store32, htons, htonl}
use t4p4s_ma.Memory.Laws.{store16_ne, store32_ne, load16-store16, htons-lt}
use t4p4s_ma.Messages.Layout.At
use t4p4s_ma.Messages.Layout.Size
use t4p4s_ma.Messages.Layout.Code.{type_code, P4Type}
use t4p4s_ma.Handlers.{CtrlMsg, handled, handle_p4_msg}
use t4p4s_ma.Sock.Message.{declared, load16_congr}

-- A buffer that is shorter than a header is refused with -1: no callback, and nothing is written.
pub handle_p4_msg_short :
    (buffer length : ℕ) (stack : CtrlMsg) (m : Mem)
    → length < Size.header
    → handle_p4_msg buffer length stack m ≡ ok (handled (negsuc 0) none) m
unfolding handle_p4_msg
handle_p4_msg_short buffer length stack m h = ground arith

-- The memory once the header is converted.
converted : Mem → ℕ → Mem
converted m p =
    store32 (store16 m (p + At.length) (htons (load16 m (p + At.length)))) (p + At.xid)
      (htonl (load32 (store16 m (p + At.length) (htons (load16 m (p + At.length)))) (p + At.xid)))

converted-length : (m : Mem) (p : ℕ) → load16 (converted m p) (p + At.length) ≡ declared m p
unfolding converted
converted-length m p =
    load16_congr (converted m p) (store16 m (p + At.length) (htons (load16 m (p + At.length))))
      (p + At.length) (p + At.length)
      (store32_ne _ (p + At.xid) _ (p + At.length) (inl (omega arith)))
      (store32_ne _ (p + At.xid) _ (p + At.length + 1) (inl (omega arith)))
    ∙ load16-store16 m (p + At.length) (htons (load16 m (p + At.length)))
    ∙ below (declared m p) (htons-lt (load16 m (p + At.length)))
  where
    below : (v : ℕ) → v < 65536 → v % 65536 ≡ v
    below v h = omega arith

converted-typ : (m : Mem) (p : ℕ) → converted m p (p + At.typ) ≡ m (p + At.typ)
unfolding converted
converted-typ m p =
    store32_ne _ (p + At.xid) _ (p + At.typ) (inl (omega arith))
    ∙ store16_ne m (p + At.length) (htons (load16 m (p + At.length))) (p + At.typ) (omega arith)
        (omega arith)

-- In a buffer of at least a header's length, a message that declares more bytes than the buffer has
-- is refused with -1: no callback.
pub handle_p4_msg_long :
    (buffer length : ℕ) (stack : CtrlMsg) (m : Mem)
    → Size.header ≤ length
    → length < declared m buffer
    → Returns (λ r g. r ≡ handled (negsuc 0) none) (handle_p4_msg buffer length stack m)
unfolding handle_p4_msg converted
handle_p4_msg_long buffer length stack m h k =
    rw (le→ltb length Size.header h, converted-length m buffer, lt→ltb length (declared m buffer) k)
      refl

-- For a message that fits into the buffer, which has at least a header's length, and whose type is
-- none of the three known ones, the result is -100, and yet the
-- callback is called, with whatever the local variable `ctrl_m` held.
pub handle_p4_msg_unknown :
    (buffer length : ℕ) (stack : CtrlMsg) (m : Mem)
    → Size.header ≤ length
    → declared m buffer ≤ length
    → m (buffer + At.typ) ≢ type_code P4Type.set_default_action
    → m (buffer + At.typ) ≢ type_code P4Type.add_table_entry
    → m (buffer + At.typ) ≢ type_code P4Type.ctrl_initialized
    → Returns (λ r g. r ≡ handled (negsuc 99) (some stack)) (handle_p4_msg buffer length stack m)
unfolding handle_p4_msg converted
handle_p4_msg_unknown buffer length stack m h k n1 n2 n3 =
    rw
      (
        le→ltb length Size.header h,
        converted-length m buffer,
        le→ltb length (declared m buffer) k,
        converted-typ m buffer,
        ==_ne (m (buffer + At.typ)) (type_code P4Type.set_default_action) n1,
        ==_ne (m (buffer + At.typ)) (type_code P4Type.add_table_entry) n2,
        ==_ne (m (buffer + At.typ)) (type_code P4Type.ctrl_initialized) n3,
      )
      refl
