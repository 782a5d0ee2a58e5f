-- ===== src/Messages/Grow.antt =====
-- messages.c: what the `add_` functions do to a message: one struct is appended at its end, its
-- length and a count grow, and everything else stays.
use t4p4s_ma.Common.{
  ℕ, ◌+◌, ◌%◌, ◌/◌, ◌∙◌, ◌<◌, ◌≤◌, ◌≡◌, ◌≢◌, ◌⊎◌, inl, inr, refl, arith, Option, none, some, ltb,
  false, Bool-cases, ltb→lt,
}
use t4p4s_ma.Memory.{Mem, Returns, store8, load16, store16, store32}
use t4p4s_ma.Messages.Layout.At
use t4p4s_ma.Messages.Layout.Size
use t4p4s_ma.Messages.Layout.Code.{FieldMatchType, exact, ternary, match_code}
use t4p4s_ma.Messages.Entry.{add_p4_field_match_exact, add_p4_field_match_ternary}
use t4p4s_ma.Messages.Action.{add_p4_action_parameter}
use t4p4s_ma.Messages.Digest.{add_p4_digest_field}

-- A 16-bit member that holds the two bytes of a number.
load16_of_bytes :
    (m : Mem) (a v : ℕ) → v < 65536 → m a ≡ v % 256 → m (a + 1) ≡ v / 256 % 256 → load16 m a ≡ v
unfolding load16
load16_of_bytes m a v h lo hi = omega (arith, lo, hi)

-- The message at `p` is at least `low` bytes long, and its length stays below 65536 when it grows.
pub record HasRoom (m : Mem) (p low size : ℕ) : Type 0 where
  pub long : low ≤ load16 m (p + At.length)
  pub below : load16 m (p + At.length) + size < 65536

-- The message at `p` grew by `size` bytes, which still fit into `max`, behind its end, and the count
-- went up by one; or they do not fit, and nothing changed.
abbrev pub Grown : Mem → ℕ → ℕ → ℕ → ℕ → Option ℕ → Mem → Type 0
Grown m p size count max none g = (max < load16 m (p + At.length) + size) × (g ≡ m)
Grown m p size count max (some q) g =
    (q ≡ p + load16 m (p + At.length))
    × (load16 m (p + At.length) + size ≤ max)
    × (load16 g (p + At.length) ≡ load16 m (p + At.length) + size)
    × (g count ≡ (m count + 1) % 256)
    × ((b : ℕ)
        → b ≢ p + At.length
        → b ≢ p + At.length + 1
        → b ≢ count
        → (b < q) ⊎ (q + size ≤ b)
        → g b ≡ m b)

-- The appended struct, if there is one, is a field match of this type, and its length is 0.
abbrev pub IsMatch : FieldMatchType → Option ℕ → Mem → Type 0
IsMatch t none g = Unit
IsMatch t (some q) g = (g (q + At.match_type) ≡ match_code t) × (load16 g (q + At.match_length) ≡ 0)

-- The memory once the length and the count are stored.
bumped : Mem → ℕ → ℕ → ℕ → Mem
bumped m p size count =
    store8 (store16 m (p + At.length) (load16 m (p + At.length) + size)) count
      ((store16 m (p + At.length) (load16 m (p + At.length) + size) count + 1) % 256)

bumped_lem :
    (m : Mem) (p size count : ℕ)
    → p + At.xid ≤ count
    → (bumped m p size count (p + At.length) ≡ (load16 m (p + At.length) + size) % 256)
      × (bumped m p size count (p + At.length + 1) ≡ (load16 m (p + At.length) + size) / 256 % 256)
      × (bumped m p size count count ≡ (m count + 1) % 256)
      × ((b : ℕ)
          → b ≢ p + At.length
          → b ≢ p + At.length + 1
          → b ≢ count
          → bumped m p size count b ≡ m b)
unfolding bumped store8 store16
bumped_lem m p size count h = (ground arith, ground arith, ground arith, λ b h1 h2 h3. ground arith)

-- A struct that is filled in behind the message leaves the message alone.
Grown_lem :
    (m g : Mem) (p low size count max : ℕ)
    → HasRoom m p low size
    → At.xid ≤ low
    → p + At.xid ≤ count
    → count < p + load16 m (p + At.length)
    → ltb max (load16 m (p + At.length) + size) ≡ false
    → ((b : ℕ)
        → (b < p + load16 m (p + At.length)) ⊎ (p + load16 m (p + At.length) + size ≤ b)
        → g b ≡ bumped m p size count b)
    → Grown m p size count max (some (p + load16 m (p + At.length))) g
Grown_lem m g p low size count max room header after inside e frame =
    let (lo, hi, counted, rest) = bumped_lem m p size count after in
    (
      refl,
      ground (arith, e),
      load16_of_bytes g (p + At.length) (load16 m (p + At.length) + size) room.below
          (frame (p + At.length) (inl (omega (arith, room.long))) ∙ lo)
          (frame (p + At.length + 1) (inl (omega (arith, room.long))) ∙ hi),
      frame count (inl inside) ∙ counted,
      λ b h1 h2 h3 h4. frame b h4 ∙ rest b h1 h2 h3,
    )

-- What is stored in a new struct stays inside it.
named_ne :
    (g : Mem) (q b : ℕ)
    → (b < q) ⊎ (q + Size.digest_field ≤ b)
    → store32 (store8 g q 0) (q + At.param_length) 0 b ≡ g b
unfolding store8 store32
named_ne g q b h = ground arith

match_ne :
    (g : Mem) (q t b : ℕ)
    → (b < q) ⊎ (q + Size.field_match_exact ≤ b)
    → store16 (store8 g (q + At.match_type) t) (q + At.match_length) 0 b ≡ g b
unfolding store8 store16
match_ne g q t b h = ground arith

IsMatch-self :
    (g : Mem) (q : ℕ) (t : FieldMatchType)
    → IsMatch t
        (some q)
        (store16 (store8 g (q + At.match_type) (match_code t)) (q + At.match_length) 0)
unfolding store8 store16 load16
IsMatch-self g q t = (ground arith, ground arith)

ternary_ne :
    (g : Mem) (q t b : ℕ)
    → (b < q) ⊎ (q + Size.field_match_ternary ≤ b)
    → store8
        (store16 (store8 g (q + At.match_type) t) (q + At.match_length) 0)
        (q + At.priority)
        0
        b
      ≡ g b
unfolding store8 store16
ternary_ne g q t b h = ground arith

-- `add_p4_action_parameter`, for an action that stands inside the message, behind its length, and a
-- length that stays below 65536: the parameter is
-- appended and the action's count goes up by one, or the message is left alone.
pub add_p4_action_parameter_lem :
    (header action max : ℕ) (m : Mem)
    → HasRoom m header (Size.header + Size.action) Size.action_parameter
    → header + At.xid ≤ action
    → action + Size.action ≤ header + load16 m (header + At.length)
    → Returns
        (Grown m header Size.action_parameter (action + At.param_size) max)
        (add_p4_action_parameter header action max m)
unfolding add_p4_action_parameter bumped
add_p4_action_parameter_lem header action max m room after inside =
    elim (Bool-cases (ltb max (load16 m (header + At.length) + Size.action_parameter))) [
      | inl e ↦ rw e (ltb→lt max (load16 m (header + At.length) + Size.action_parameter) e, refl)
      | inr e ↦ rw e (
          Grown_lem m _ header (Size.header + Size.action) Size.action_parameter
            (action + At.param_size) max room (omega arith) (omega arith) (omega arith) e
            (λ b h.
              named_ne (bumped m header Size.action_parameter (action + At.param_size))
                (header + load16 m (header + At.length)) b (ground (arith, h))))
    ]

-- `add_p4_digest_field`, for a digest of at least its fixed size whose length stays below 65536: the
-- field is appended and the digest's count goes up by one, or the
-- digest is left alone.
pub add_p4_digest_field_lem :
    (digest max : ℕ) (m : Mem)
    → HasRoom m digest Size.digest Size.digest_field
    → Returns
        (Grown m digest Size.digest_field (digest + At.list_size) max)
        (add_p4_digest_field digest max m)
unfolding add_p4_digest_field bumped
add_p4_digest_field_lem digest max m room =
    elim (Bool-cases (ltb max (load16 m (digest + At.length) + Size.digest_field))) [
      | inl e ↦ rw e (ltb→lt max (load16 m (digest + At.length) + Size.digest_field) e, refl)
      | inr e ↦ rw e (
          Grown_lem m _ digest Size.digest Size.digest_field (digest + At.list_size) max room
            (omega arith) (omega arith) (omega (arith, room.long)) e
            (λ b h.
              named_ne (bumped m digest Size.digest_field (digest + At.list_size))
                (digest + load16 m (digest + At.length)) b h))
    ]

-- `add_p4_field_match_exact`, for an entry of at least its fixed size whose length stays below 65536:
-- a field match that is tagged as an exact one, with length 0, is appended and the entry's count goes up
-- by one, or the entry is left alone.
pub add_p4_field_match_exact_lem :
    (entry max : ℕ) (m : Mem)
    → HasRoom m entry Size.add_table_entry Size.field_match_exact
    → Returns
        (λ r g.
          Grown m entry Size.field_match_exact (entry + At.read_size) max r g × IsMatch exact r g)
        (add_p4_field_match_exact entry max m)
unfolding add_p4_field_match_exact bumped
add_p4_field_match_exact_lem entry max m room =
    elim (Bool-cases (ltb max (load16 m (entry + At.length) + Size.field_match_exact))) [
      | inl e ↦
          rw e ((ltb→lt max (load16 m (entry + At.length) + Size.field_match_exact) e, refl), tt)
      | inr e ↦ rw e (
        Grown_lem m _ entry Size.add_table_entry Size.field_match_exact (entry + At.read_size) max
            room (omega arith) (omega arith) (omega (arith, room.long)) e
            (λ b h.
              match_ne (bumped m entry Size.field_match_exact (entry + At.read_size))
                (entry + load16 m (entry + At.length)) (match_code exact) b h),
        IsMatch-self (bumped m entry Size.field_match_exact (entry + At.read_size))
            (entry + load16 m (entry + At.length)) exact,
      )
    ]

-- `add_p4_field_match_ternary`, for an entry of at least its fixed size whose length stays below
-- 65536: the field match, of 646 bytes, is appended and the entry's count goes up by one, or the
-- entry is left alone.
pub add_p4_field_match_ternary_lem :
    (entry max : ℕ) (m : Mem)
    → HasRoom m entry Size.add_table_entry Size.field_match_ternary
    → Returns
        (Grown m entry Size.field_match_ternary (entry + At.read_size) max)
        (add_p4_field_match_ternary entry max m)
unfolding add_p4_field_match_ternary bumped
add_p4_field_match_ternary_lem entry max m room =
    elim (Bool-cases (ltb max (load16 m (entry + At.length) + Size.field_match_ternary))) [
      | inl e ↦ rw e (ltb→lt max (load16 m (entry + At.length) + Size.field_match_ternary) e, refl)
      | inr e ↦ rw e (
          Grown_lem m _ entry Size.add_table_entry Size.field_match_ternary (entry + At.read_size)
            max room (omega arith) (omega arith) (omega (arith, room.long)) e
            (λ b h.
              ternary_ne (bumped m entry Size.field_match_ternary (entry + At.read_size))
                (entry + load16 m (entry + At.length)) (match_code ternary) b h))
    ]
