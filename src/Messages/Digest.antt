-- ===== src/Messages/Digest.antt =====
-- messages.c: digests, the messages by which the switch reports to the controller.
use t4p4s_ma.Common.{ℕ, ◌+◌, Option, none, some, leb, if◌then◌else◌}
use t4p4s_ma.Memory.{Cmd, pure, modify, ◌>>=◌, ◌>>◌, store8, store16, load32, store32, htonl}
use t4p4s_ma.Messages.Layout.At
use t4p4s_ma.Messages.Layout.Size
use t4p4s_ma.Messages.Layout.Code.{type_code, P4Type}
use t4p4s_ma.Messages.Header.{grow, bump8, init_new}

-- `create_p4_digest`
unfoldable pub create_p4_digest : ℕ → ℕ → ℕ → Cmd (Option ℕ)
unfolding store8 store16
create_p4_digest buffer offset maxlength =
    if leb maxlength (offset + Size.digest) then pure none else do
      let d = buffer + offset
      modify (λ m. store16 m (d + At.length) Size.digest)
      modify (λ m. store8 m (d + At.typ) (type_code P4Type.digest))
      modify (λ m. store8 m (d + At.field_list_name) 0)
      modify (λ m. store8 m (d + At.list_size) 0)
      pure (some d)

-- `add_p4_digest_field`
unfoldable pub add_p4_digest_field : ℕ → ℕ → Cmd (Option ℕ)
unfolding store8 store32 grow bump8
add_p4_digest_field digest maxlength = do
  p ← grow digest Size.digest_field maxlength
  init_new
      (λ q. do
        bump8 (digest + At.list_size)
        modify (λ m. store8 m q 0)
        modify (λ m. store32 m (q + At.field_length) 0))
      p

-- `netconv_p4_digest_field`
unfoldable pub netconv_p4_digest_field : ℕ → Cmd (Unit {0})
unfolding load32 store32 htonl
netconv_p4_digest_field p =
    modify (λ m. store32 m (p + At.field_length) (htonl (load32 m (p + At.field_length))))
