-- ===== src/Args/Print.antt =====
-- dpdk_lib_parse_args.c: a configuration of queues written out as the usage text says, in decimal.
use t4p4s_ma.Common.{
  ℕ, zero, suc, ◌+◌, ◌/◌, ◌%◌, ◌≡◌, ◌<◌, refl, ap, arith, Bool, true, false, ◌&&◌, Option, none,
  some, List, [], ◌∷◌, ◌++◌, ltb, ◌==◌, ==_iff, length, if◌then◌else◌, Bool-cases, inl, inr, ltb→lt,
}
use t4p4s_ma.Ports.{LcoreParams}
use t4p4s_ma.Args.Strtoul.{Text, field}

abbrev pub decimal : ℕ → Text
decimal n =
    if ltb n 10
    then (n + 48) ∷ []
    else if ltb n 100
    then (n / 10 + 48) ∷ (n % 10 + 48) ∷ []
    else (n / 100 + 48) ∷ (n / 10 % 10 + 48) ∷ (n % 10 + 48) ∷ []

-- No character of the text is `c`.
abbrev pub none_of : ℕ → Text → Bool
none_of c [] = true
none_of c (x ∷ xs) = if x == c then false else none_of c xs

pub none_of-append :
    (c : ℕ) (xs ys : Text) → none_of c xs ≡ true → none_of c ys ≡ true → none_of c (xs ++ ys) ≡ true
none_of-append c [] ys h k = k
none_of-append c (x ∷ xs) ys h k = elim (Bool-cases (x == c)) [
  | inl e ↦ cc (rw e at h)
  | inr e ↦ rw e (none_of-append c xs ys (rw e at h) k)
]

is_field : ℕ → Option ℕ → Bool
is_field n none = false
is_field n (some m) = m == n

is_field-some : (n : ℕ) (o : Option ℕ) → is_field n o ≡ true → o ≡ some n
unfolding is_field
is_field-some n none h = cc h
is_field-some n (some m) h = ap some ((==_iff m n).0 h)

-- What is checked of a number.
is_sound : ℕ → Bool
unfolding field is_field
is_sound n =
    is_field n (field (decimal n))
    && none_of b',' (decimal n)
    && none_of b')' (decimal n)
    && ltb (length (decimal n)) 4

all_sound : ℕ → Bool
unfolding is_sound
all_sound zero = true
all_sound (suc n) = if is_sound n then all_sound n else false

all_sound_lt : (n k : ℕ) → all_sound n ≡ true → k < n → is_sound k ≡ true
unfolding all_sound
all_sound_lt zero k h lt = absurd (omega arith)
all_sound_lt (suc n) k h lt = elim (Bool-cases (is_sound n)) [
  | inr bad ↦ cc (rw bad at h)
  | inl good ↦ elim (Bool-cases (k == n)) [
    | inl e ↦ rw ((==_iff k n).0 e) good
    | inr e ↦ all_sound_lt n k (rw good at h) (ground (arith, e, lt))
  ]
]

checked : all_sound 256 ≡ true
unfolding all_sound is_sound is_field field
checked = refl

all_four :
    (a b c d : Bool) → a && b && c && d ≡ true → (a ≡ true) × (b ≡ true) × (c ≡ true) × (d ≡ true)
all_four a b c d h = ground arith

module _ (n : ℕ) (lt : n < 256) where
  sound :
      (is_field n (field (decimal n)) ≡ true)
      × (none_of b',' (decimal n) ≡ true)
      × (none_of b')' (decimal n) ≡ true)
      × (ltb (length (decimal n)) 4 ≡ true)
  unfolding is_sound
  sound =
      all_four (is_field n (field (decimal n))) (none_of b',' (decimal n))
        (none_of b')' (decimal n)) (ltb (length (decimal n)) 4) (all_sound_lt 256 n checked lt)

  pub field-decimal : field (decimal n) ≡ some n
  field-decimal = is_field-some n (field (decimal n)) sound.0

  pub no_comma : none_of b',' (decimal n) ≡ true
  no_comma = sound.1

  pub no_parenthesis : none_of b')' (decimal n) ≡ true
  no_parenthesis = sound.2

  pub length-decimal : length (decimal n) < 4
  length-decimal = ltb→lt (length (decimal n)) 4 sound.3

-- The numbers of a parameter, between commas.
abbrev pub numbers : LcoreParams → Text
numbers p = decimal p.port_id ++ b',' ∷ (decimal p.queue_id ++ b',' ∷ decimal p.lcore_id)

abbrev pub entry : LcoreParams → Text → Text
entry p rest = b'(' ∷ (numbers p ++ b')' ∷ rest)

abbrev pub more : List LcoreParams → Text
more [] = []
more (p ∷ ps) = b',' ∷ entry p (more ps)

-- "(port,queue,lcore),(port,queue,lcore)"
abbrev pub config : List LcoreParams → Text
config [] = []
config (p ∷ ps) = entry p (more ps)

-- The numbers of C's `uint8_t` fields.
abbrev pub AreBytes : List LcoreParams → Type 0
AreBytes [] = Unit
AreBytes (p ∷ ps) = (p.port_id < 256) × (p.queue_id < 256) × (p.lcore_id < 256) × AreBytes ps
