-- ===== src/Messages/Header.antt =====
-- messages.c: the header that every message begins with, and the step by which a message grows.
use t4p4s_ma.Common.{ℕ, ◌+◌, ◌%◌, Option, none, some, ltb, if◌then◌else◌}
use t4p4s_ma.Memory.{
  ok, Cmd, pure, modify, ◌>>◌, store8, load16, store16, load32, store32, htons, htonl,
}
use t4p4s_ma.Messages.Layout.At
use t4p4s_ma.Messages.Layout.Size
use t4p4s_ma.Messages.Layout.Code.{p4_version}

-- `create_p4_header`; a result of `none` is the null pointer.
unfoldable pub create_p4_header : ℕ → ℕ → ℕ → Cmd (Option ℕ)
unfolding store8 store16 store32
create_p4_header buffer offset maxlength =
    if ltb maxlength (offset + Size.header) then pure none else do
      let header = buffer + offset
      modify (λ m. store8 m (header + At.version) p4_version)
      modify (λ m. store8 m (header + At.typ) 0)
      modify (λ m. store16 m (header + At.length) Size.header)
      modify (λ m. store32 m (header + At.xid) 0)
      pure (some header)

-- `netconv_p4_header`: host byte order to network byte order, or back.
unfoldable pub netconv_p4_header : ℕ → Cmd (Unit {0})
unfolding load16 store16 load32 store32 htons htonl
netconv_p4_header p = do
  modify (λ m. store16 m (p + At.length) (htons (load16 m (p + At.length))))
  modify (λ m. store32 m (p + At.xid) (htonl (load32 m (p + At.xid))))

-- `unpack_p4_header`, and in the same way the `unpack_` function of every other struct.
abbrev pub unpack : ℕ → ℕ → ℕ
unpack buffer offset = buffer + offset

-- The step that every `add_` function begins with: null if `size` more bytes do not fit; else the
-- address behind the message, whose length grows by `size`.
unfoldable pub grow : ℕ → ℕ → ℕ → Cmd (Option ℕ)
unfolding load16 store16
grow header size maxlength m =
    if ltb maxlength (load16 m (header + At.length) + size)
    then ok none m
    else ok (some (header + load16 m (header + At.length)))
        (store16 m (header + At.length) (load16 m (header + At.length) + size))

-- `x += 1` on a member of one byte.
unfoldable pub bump8 : ℕ → Cmd (Unit {0})
unfolding store8
bump8 a m = ok tt (store8 m a ((m a + 1) % 256))

-- What an `add_` function does to the new struct, if it got one.
abbrev pub init_new : (ℕ → Cmd (Unit {0})) → Option ℕ → Cmd (Option ℕ)
init_new f none = pure none
init_new f (some p) = f p >> pure (some p)
