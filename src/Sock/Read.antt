-- ===== src/Sock/Read.antt =====
-- `read_fix` on a socket whose calls do not fail: all the bytes asked for, however they arrive.
use t4p4s_ma.Common.{
  ℕ, zero, suc, ◌+◌, ◌-◌, ◌≤◌, ◌<◌, ◌≡◌, refl, ap, ◌∙◌, arith, none, some, List, [], ◌∷◌, ltb, ℤ,
  pos, negsuc, length, take, drop, take-add, drop-add, length-take, length-drop, inl, inr, min,
  le_zero, lt→ltb, false, ◌≢◌, Option-cases,
}
use native.Mathlib.Decide.{dec_lt}
use t4p4s_ma.Memory.{Mem, store_bytes}
use t4p4s_ma.Memory.Laws.{store_bytes-append}
use t4p4s_ma.Sock.{
  Answer, fails, at_most, Sock, quota, later, sys_read, Outcome, read_loop, read_fix,
}

-- No call fails.
abbrev pub Steady : List Answer → Type 0
Steady [] = Unit
Steady (fails ∷ as') = ⊥
Steady (at_most k ∷ as') = Steady as'

pub later-Steady : (as' : List Answer) → Steady as' → Steady (later as')
later-Steady [] h = tt
later-Steady (fails ∷ as') h = absurd h
later-Steady (at_most k ∷ as') h = h

abbrev pub sock : List ℕ → List ℕ → List Answer → Sock
sock p t as' = record { pending = p; sent = t; answers = as' }

-- A steady call may transfer at least one byte of those that are left.
pub quota-some :
    (n : ℕ) (as' : List Answer)
    → 0 < n
    → Steady as'
    → (q : ℕ) × (quota n as' ≡ some q) × (0 < q) × (q ≤ n)
quota-some n [] h s = (n, refl, h, omega arith)
quota-some n (fails ∷ as') h s = absurd s
quota-some n (at_most k ∷ as') h s = (min n (k + 1), refl, omega arith, omega arith)

le_zero_pos : (q : ℕ) → 0 < q → le_zero (pos q) ≡ false
le_zero_pos zero h = absurd (omega arith)
le_zero_pos (suc q) h = refl

le_zero_zero : (n : ℕ) → le_zero (pos n) ≡ false → 0 < n
le_zero_zero zero h = cc
le_zero_zero (suc n) h = omega arith

sys_read-some :
    (n q : ℕ) (p t : List ℕ) (as' : List Answer)
    → quota n as' ≡ some q
    → q ≤ length p
    → sys_read n (sock p t as') ≡ (pos q, take q p, sock (drop q p) t (later as'))
unfolding sys_read
sys_read-some n q p t as' e k =
    let len : length (take q p) ≡ q = omega (arith, length-take q p) in
    rw e (ap {B = ℤ × List ℕ × Sock} (λ i. (pos i, take q p, sock (drop q p) t (later as'))) len)

pub ltb_self : (r n : ℕ) → r ≡ n → ltb r n ≡ false
ltb_self r n e = ground arith

-- A read that goes on has delivered a byte.
sys_read_grows : (n : ℕ) (s : Sock) → le_zero (sys_read n s).0 ≡ false → 0 < length (sys_read n s).1
unfolding sys_read
sys_read_grows n s h = elim (Option-cases (quota n s.answers)) [
  | inl e ↦ ground arith
  | inr (q, e) ↦ ground (arith, le_zero_zero (length (take q s.pending)))
]

module _ (buffer n : ℕ) (t : List ℕ) where
  read_more :
      (fuel r q : ℕ) (m : Mem) (p : List ℕ) (as' : List Answer)
      → r < n
      → quota (n - r) as' ≡ some q
      → 0 < q
      → q ≤ length p
      → read_loop (suc fuel) buffer n r m (sock p t as')
        ≡ read_loop fuel buffer n
            (r + q)
            (store_bytes m (buffer + r) (take q p))
            (sock (drop q p) t (later as'))
  unfolding read_loop
  read_more fuel r q m p as' lt e h k =
      let len : length (take q p) ≡ q = omega (arith, length-take q p) in
      rw (lt→ltb r n lt, sys_read-some (n - r) q p t as' e k, le_zero_pos q h, len)

  read_done :
      (fuel r : ℕ) (m : Mem) (p : List ℕ) (as' : List Answer)
      → r ≡ n
      → read_loop fuel buffer n r m (sock p t as')
        ≡ some (pos n, store_bytes m (buffer + r) (take (n - r) p), sock (drop (n - r) p) t as')
  unfolding read_loop store_bytes
  read_done zero r m p as' e =
      let none_left : n - r ≡ 0 = omega arith in rw none_left (ground arith)
  read_done (suc fuel) r m p as' e =
      let none_left : n - r ≡ 0 = omega arith in rw (ltb_self r n e, none_left, e)

  -- Two chunks of a transfer are one.
  read_join :
      (r q : ℕ) (m : Mem) (p : List ℕ) (bs : List Answer)
      → r + q ≤ n
      → q ≤ length p
      → ◌≡◌ {A = Outcome}
          (some (
            pos n,
            store_bytes
                (store_bytes m (buffer + r) (take q p))
                (buffer + (r + q))
                (take (n - (r + q)) (drop q p)),
            sock (drop (n - (r + q)) (drop q p)) t bs,
          ))
          (some (pos n, store_bytes m (buffer + r) (take (n - r) p), sock (drop (n - r) p) t bs))
  read_join r q m p bs le k =
      let split : n - r ≡ q + (n - (r + q)) = omega arith in
      let at : buffer + (r + q) ≡ buffer + r + length (take q p) = omega (arith, length-take q p) in
      rw (at, ← store_bytes-append, ← take-add, ← drop-add, ← split)

  -- With a byte or more for each round left, the loop reads the rest.
  read_loop_lem :
      (fuel r : ℕ) (m : Mem) (p : List ℕ) (as' : List Answer)
      → r ≤ n
      → n ≤ r + fuel
      → n ≤ r + length p
      → Steady as'
      → (bs : List Answer) × Steady bs
        × (read_loop fuel buffer n r m (sock p t as')
            ≡ some (pos n, store_bytes m (buffer + r) (take (n - r) p), sock (drop (n - r) p) t bs))
  read_loop_lem zero r m p as' le fuel len h = (as', h, read_done 0 r m p as' (omega arith))
  read_loop_lem (suc fuel) r m p as' le more len h = elim (dec_lt r n) [
    | no done ↦ (as', h, read_done (suc fuel) r m p as' (omega arith))
    | yes lt ↦
        let (q, e, some_left, small) = quota-some (n - r) as' (omega arith) h in
        let (bs, steady, ih) =
          read_loop_lem fuel (r + q) (store_bytes m (buffer + r) (take q p)) (drop q p) (later as')
            (omega arith) (omega arith) (omega (arith, length-drop q p)) (later-Steady as' h) in
        (
          bs,
          steady,
          read_more fuel r q m p as' lt e some_left (omega arith)
              ∙ ih
              ∙ read_join r q m p bs (omega arith) (omega arith),
        )
  ]

module _ (buffer n : ℕ) where
  -- The loop ends by itself, whatever the socket answers.
  read_loop_ends :
      (fuel r : ℕ) (m : Mem) (s : Sock) → n ≤ r + fuel → read_loop fuel buffer n r m s ≢ none
  unfolding read_loop
  read_loop_ends zero r m s h = ground arith
  read_loop_ends (suc fuel) r m s h = ground (
    arith,
    sys_read_grows (n - r) s,
    read_loop_ends fuel (r + length (sys_read (n - r) s).1)
        (store_bytes m (buffer + r) (sys_read (n - r) s).1) (sys_read (n - r) s).2,
  )

-- `read_fix` with enough bytes to come and no failing call returns the number asked for, stores
-- exactly the next bytes, and leaves the others to be read.
pub read_fix_lem :
    (buffer n : ℕ) (m : Mem) (p t : List ℕ) (as' : List Answer)
    → n ≤ length p
    → Steady as'
    → (bs : List Answer) × Steady bs
      × (read_fix buffer (pos n) m (sock p t as')
          ≡ some (pos n, store_bytes m buffer (take n p), sock (drop n p) t bs))
unfolding read_fix
read_fix_lem buffer n m p t as' k h =
    let (bs, steady, e) =
      read_loop_lem buffer n t n 0 m p as' (omega arith) (omega arith) (omega arith) h in
    let from_start : buffer + 0 ≡ buffer = omega arith in
    let all_left : n - 0 ≡ n = omega arith in (bs, steady, rw (from_start, all_left) at e)

-- `read_fix` returns on every socket.
pub read_fix_ends : (buffer : ℕ) (n : ℤ) (m : Mem) (s : Sock) → read_fix buffer n m s ≢ none
unfolding read_fix
read_fix_ends buffer (pos n) m s = read_loop_ends buffer n n 0 m s (omega arith)
read_fix_ends buffer (negsuc n) m s = ground arith
