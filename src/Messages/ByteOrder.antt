-- ===== src/Messages/ByteOrder.antt =====
-- messages.c: the `netconv_` functions, which turn host byte order into network byte order and back.
use t4p4s_ma.Common.{ℕ, ◌+◌, ◌<◌, ◌≡◌, refl, ap, ◌∙◌, fun_ext, arith, ◌==◌, if◌then◌else◌}
use t4p4s_ma.Memory.{Mem, ok, ◌>>◌, ◌>>=◌, load16, store16, load32, store32, htons, htonl}
use t4p4s_ma.Memory.Laws.{IsBytes}
use t4p4s_ma.Messages.Layout.At
use t4p4s_ma.Messages.Layout.Size
use t4p4s_ma.Messages.Layout.Code.{FieldMatchType, match_code, exact, ternary, lpm, range, valid}
use t4p4s_ma.Messages.Header.{netconv_p4_header}
use t4p4s_ma.Messages.Entry.{netconv_p4_field_match_complex}
use t4p4s_ma.Messages.Action.{netconv_p4_action_parameter}
use t4p4s_ma.Messages.Digest.{netconv_p4_digest_field}

swap16 : Mem → ℕ → Mem
swap16 m a = store16 m a (htons (load16 m a))

swap32 : Mem → ℕ → Mem
swap32 m a = store32 m a (htonl (load32 m a))

-- The memory with two and with four bytes in the opposite order.
abbrev pub turned16 : Mem → ℕ → Mem
turned16 m a b = if b == a then m (a + 1) else (if b == a + 1 then m a else m b)

abbrev turned32 : Mem → ℕ → Mem
turned32 m a b =
    if b == a
    then m (a + 3)
    else (if b == a + 1
        then m (a + 2)
        else (if b == a + 2 then m (a + 1) else (if b == a + 3 then m a else m b)))

swap16_lem : (m : Mem) (a : ℕ) → IsBytes m → swap16 m a ≡ turned16 m a
unfolding swap16 store16 htons load16
swap16_lem m a h = fun_ext (λ b. ground (arith, h a, h (a + 1)))

swap32_lem : (m : Mem) (a : ℕ) → IsBytes m → swap32 m a ≡ turned32 m a
unfolding swap32 store32 htonl load32
swap32_lem m a h = fun_ext (λ b. ground (arith, h a, h (a + 1), h (a + 2), h (a + 3)))

turned16-IsBytes : (m : Mem) (a : ℕ) → IsBytes m → IsBytes (turned16 m a)
turned16-IsBytes m a h b = ground (arith, h a, h (a + 1), h b)

turned32-IsBytes : (m : Mem) (a : ℕ) → IsBytes m → IsBytes (turned32 m a)
turned32-IsBytes m a h b = ground (arith, h a, h (a + 1), h (a + 2), h (a + 3), h b)

turned16-turned16 : (m : Mem) (a : ℕ) → turned16 (turned16 m a) a ≡ m
turned16-turned16 m a = fun_ext (λ b. ground arith)

turned32-turned32 : (m : Mem) (a : ℕ) → turned32 (turned32 m a) a ≡ m
turned32-turned32 m a = fun_ext (λ b. ground arith)

swap16_twice : (m : Mem) (a : ℕ) → IsBytes m → swap16 (swap16 m a) a ≡ m
swap16_twice m a h =
    ap (λ g. swap16 g a) (swap16_lem m a h)
    ∙ swap16_lem (turned16 m a) a (turned16-IsBytes m a h)
    ∙ turned16-turned16 m a

swap32_twice : (m : Mem) (a : ℕ) → IsBytes m → swap32 (swap32 m a) a ≡ m
swap32_twice m a h =
    ap (λ g. swap32 g a) (swap32_lem m a h)
    ∙ swap32_lem (turned32 m a) a (turned32-IsBytes m a h)
    ∙ turned32-turned32 m a

netconv_p4_header_eq :
    (p : ℕ) (m : Mem)
    → IsBytes m
    → netconv_p4_header p m ≡ ok tt (turned32 (turned16 m (p + At.length)) (p + At.xid))
unfolding netconv_p4_header swap16 swap32
netconv_p4_header_eq p m h = ap (ok tt) (
    ap (λ g. swap32 g (p + At.xid)) (swap16_lem m (p + At.length) h)
    ∙ swap32_lem (turned16 m (p + At.length)) (p + At.xid) (turned16-IsBytes m (p + At.length) h))

-- On a memory of bytes, `netconv_p4_header` done twice changes nothing: what the sender converts,
-- the receiver converts back.
pub netconv_p4_header_twice :
    (p : ℕ) (m : Mem) → IsBytes m → (netconv_p4_header p >> netconv_p4_header p) m ≡ ok tt m
netconv_p4_header_twice p m h =
    rw
      (
        netconv_p4_header_eq p m h,
        netconv_p4_header_eq p (turned32 (turned16 m (p + At.length)) (p + At.xid)) (
            turned32-IsBytes (turned16 m (p + At.length)) (p + At.xid)
              (turned16-IsBytes m (p + At.length) h)),
      )
      (ap (ok tt) (fun_ext (λ b. ground arith)))

-- On a memory of bytes, converting an action parameter, or a field of a digest, twice changes
-- nothing.
pub netconv_length_twice :
    (p : ℕ) (m : Mem)
    → IsBytes m
    → ((netconv_p4_action_parameter p >> netconv_p4_action_parameter p) m ≡ ok tt m)
      × ((netconv_p4_digest_field p >> netconv_p4_digest_field p) m ≡ ok tt m)
unfolding netconv_p4_action_parameter netconv_p4_digest_field swap32
netconv_length_twice p m h = (
  ap (ok tt) (swap32_twice m (p + At.param_length) h),
  ap (ok tt) (swap32_twice m (p + At.field_length) h),
)

-- The size of the struct of a field match of the type.
abbrev pub match_size : FieldMatchType → ℕ
match_size exact = Size.field_match_exact
match_size ternary = Size.field_match_ternary
match_size lpm = Size.field_match_lpm
match_size range = Size.field_match_range
match_size valid = Size.field_match_valid

netconv_p4_field_match_complex_eq :
    (t : FieldMatchType) (p : ℕ) (m : Mem)
    → IsBytes m
    → m (p + At.match_type) ≡ match_code t
    → netconv_p4_field_match_complex p m ≡ ok (match_size t) (turned16 m (p + At.match_length))
unfolding netconv_p4_field_match_complex swap16
netconv_p4_field_match_complex_eq exact p m h e =
    rw e (ap (ok (match_size exact)) (swap16_lem m (p + At.match_length) h))
netconv_p4_field_match_complex_eq ternary p m h e =
    rw e (ap (ok (match_size ternary)) (swap16_lem m (p + At.match_length) h))
netconv_p4_field_match_complex_eq lpm p m h e =
    rw e (ap (ok (match_size lpm)) (swap16_lem m (p + At.match_length) h))
netconv_p4_field_match_complex_eq range p m h e =
    rw e (ap (ok (match_size range)) (swap16_lem m (p + At.match_length) h))
netconv_p4_field_match_complex_eq valid p m h e =
    rw e (ap (ok (match_size valid)) (swap16_lem m (p + At.match_length) h))

-- On a memory of bytes that has a field match of one of the five types at `p`: the conversion returns
-- the size of its struct and exchanges the two bytes of its length, and nothing else; done twice it
-- changes nothing.
pub netconv_p4_field_match_complex_twice :
    (t : FieldMatchType) (p : ℕ) (m : Mem)
    → IsBytes m
    → m (p + At.match_type) ≡ match_code t
    → (netconv_p4_field_match_complex p m ≡ ok (match_size t) (turned16 m (p + At.match_length)))
      × ((netconv_p4_field_match_complex p >>= λ size. netconv_p4_field_match_complex p) m
          ≡ ok (match_size t) m)
netconv_p4_field_match_complex_twice t p m h e = (
  netconv_p4_field_match_complex_eq t p m h e,
  rw
      (
        netconv_p4_field_match_complex_eq t p m h e,
        netconv_p4_field_match_complex_eq t p (turned16 m (p + At.match_length))
            (turned16-IsBytes m (p + At.match_length) h) (ground (arith, e)),
        turned16-turned16 m (p + At.match_length),
      )
      refl,
)

-- A field match of an unknown type is left alone, and its size is given as 0.
pub netconv_p4_field_match_complex_unknown :
    (p : ℕ) (m : Mem) → 4 < m (p + At.match_type) → netconv_p4_field_match_complex p m ≡ ok 0 m
unfolding netconv_p4_field_match_complex
netconv_p4_field_match_complex_unknown p m h = ground arith
