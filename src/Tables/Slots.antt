-- ===== src/Tables/Slots.antt =====
-- A hash that does what `rte_hash` is documented to do, for as many keys as it has room for.
use t4p4s_ma.Common.{
  ℕ, ◌+◌, ◌≡◌, ◌≢◌, ◌<◌, ◌≤◌, ◌⊎◌, refl, sym, ap, ◌∙◌, subst, arith, Bool, true, false, ◌&&◌,
  Option, none, some, [], ◌∷◌, ltb, ltb→lt, ◌==◌, if◌then◌else◌, Bool-cases, inl, inr,
}
use t4p4s_ma.Tables.Entry.{Key}
use t4p4s_ma.Tables.Exact.{Hash}

unfoldable pub key_eq : Key → Key → Bool
key_eq [] [] = true
key_eq [] (b ∷ ys) = false
key_eq (a ∷ xs) [] = false
key_eq (a ∷ xs) (b ∷ ys) = a == b && key_eq xs ys

key_eq-true : (xs ys : Key) → key_eq xs ys ≡ true → xs ≡ ys
unfolding key_eq
key_eq-true [] [] h = refl
key_eq-true [] (b ∷ ys) h = cc
key_eq-true (a ∷ xs) [] h = cc
key_eq-true (a ∷ xs) (b ∷ ys) h = ground (arith, key_eq-true xs ys)

key_eq_refl : (xs : Key) → key_eq xs xs ≡ true
unfolding key_eq
key_eq_refl [] = refl
key_eq_refl (a ∷ xs) = ground (arith, key_eq_refl xs)

key_eq_ne : (xs ys : Key) → xs ≢ ys → key_eq xs ys ≡ false
key_eq_ne xs ys h = elim (Bool-cases (key_eq xs ys)) [
  | inl e ↦ absurd (h (key_eq-true xs ys e))
  | inr e ↦ e
]

-- Positions are given in the order of the additions.
pub record Slots : Type 0 where
  pub at : Key → Option ℕ
  pub next : ℕ
  pub room : ℕ

abbrev pub with_key : Slots → Key → Slots
with_key h k = record h { at = λ q. if key_eq q k then some h.next else h.at q; next = h.next + 1 }

abbrev pub place : Slots → Key → Option ℕ → Option (ℕ × Slots)
place h k (some i) = some (i, h)
place h k none = if ltb h.next h.room then some (h.next, with_key h k) else none

abbrev pub add : Slots → Key → Option (ℕ × Slots)
add h k = place h k (h.at k)

pub record IsMade (n : ℕ) (h : Slots) : Type 0 where
  pub whole : h.room ≡ n
  pub bound : h.next ≤ n
  pub below : (k : Key) (i : ℕ) → h.at k ≡ some i → i < h.next
  pub inj : (k k' : Key) (i : ℕ) → h.at k ≡ some i → h.at k' ≡ some i → k ≡ k'

-- The two ways in which a key gets its position.
Added : Slots → Key → ℕ → Slots → Type 0
Added h k i h' =
    ((h.at k ≡ some i) × (h' ≡ h))
    ⊎ ((h.at k ≡ none) × (h.next < h.room) × (i ≡ h.next) × (h' ≡ with_key h k))

abbrev pub or_else {ℓ} : {A : Type ℓ} → A → Option A → A
or_else d none = d
or_else d (some a) = a

some_inj {ℓ} : {A : Type ℓ} (a b : A) → some a ≡ some b → a ≡ b
some_inj a b e = ap (or_else a) e

place-Added :
    (h : Slots) (k : Key) (i : ℕ) (h' : Slots) (o : Option ℕ)
    → h.at k ≡ o
    → place h k o ≡ some (i, h')
    → Added h k i h'
unfolding Added
place-Added h k i h' (some j) f e =
    let p = some_inj (j, h) (i, h') e in inl (f ∙ ap (λ r. some r.0) p, sym (ap (λ r. r.1) p))
place-Added h k i h' none f e = elim (Bool-cases (ltb h.next h.room)) [
  | inl lt ↦
      let p = some_inj (h.next, with_key h k) (i, h') (rw lt at e) in
      inr (f, ltb→lt h.next h.room lt, sym (ap (λ r. r.0) p), sym (ap (λ r. r.1) p))
  | inr full ↦ cc (rw full at e)
]

add-Added : (h : Slots) (k : Key) (i : ℕ) (h' : Slots) → add h k ≡ some (i, h') → Added h k i h'
add-Added h k i h' e = place-Added h k i h' (h.at k) refl e

with_key-IsMade :
    (n : ℕ) (h : Slots) (k : Key)
    → IsMade n h
    → h.at k ≡ none
    → h.next < h.room
    → IsMade n (with_key h k)
with_key-IsMade n h k m new lt = record {
  whole = m.whole;
  bound = omega (arith, m.whole, m.bound);
  below = λ q j f. elim (Bool-cases (key_eq q k)) [
    | inl same ↦ let e = some_inj h.next j (rw same at f) in omega (arith, e)
    | inr other ↦ let lt' = m.below q j (rw other at f) in omega (arith, lt')
  ];
  inj = λ q r j f g. elim (Bool-cases (key_eq q k)) [
    | inl same ↦ elim (Bool-cases (key_eq r k)) [
      | inl also ↦ key_eq-true q k same ∙ sym (key_eq-true r k also)
      | inr other ↦
          let lt' = m.below r j (rw other at g) in
          let e = some_inj h.next j (rw same at f) in absurd (omega (arith, lt', e))
    ]
    | inr other ↦ elim (Bool-cases (key_eq r k)) [
      | inl same ↦
          let lt' = m.below q j (rw other at f) in
          let e = some_inj h.next j (rw same at g) in absurd (omega (arith, lt', e))
      | inr too ↦ m.inj q r j (rw other at f) (rw too at g)
    ]
  ];
}

pub add-IsMade :
    (n : ℕ) (h h' : Slots) (k : Key) (i : ℕ) → IsMade n h → add h k ≡ some (i, h') → IsMade n h'
unfolding Added
add-IsMade n h h' k i m e = elim (add-Added h k i h' e) [
  | inl (_, same) ↦ subst (IsMade n) (sym same) m
  | inr (new, lt, _, same) ↦ subst (IsMade n) (sym same) (with_key-IsMade n h k m new lt)
]

pub at-add_self :
    {n : ℕ} {h h' : Slots} {k : Key} {i : ℕ}
    → IsMade n h
    → add h k ≡ some (i, h')
    → h'.at k ≡ some i
unfolding Added
at-add_self {n} {h} {h'} {k} {i} m e = elim (add-Added h k i h' e) [
  | inl (at, same) ↦ subst (λ (r : Slots). r.at k ≡ some i) (sym same) at
  | inr (new, lt, first, same) ↦
      subst (λ (r : Slots). r.at k ≡ some i) (sym same) (rw (key_eq_refl k) (ap some (sym first)))
]

pub at-add_ne :
    {n : ℕ} {h h' : Slots} {k : Key} {i : ℕ} (q : Key)
    → IsMade n h
    → add h k ≡ some (i, h')
    → q ≢ k
    → h'.at q ≡ h.at q
unfolding Added
at-add_ne {n} {h} {h'} {k} {i} q m e other = elim (add-Added h k i h' e) [
  | inl (_, same) ↦ ap (λ (r : Slots). r.at q) same
  | inr (new, lt, first, same) ↦ ap (λ (r : Slots). r.at q) same ∙ rw (key_eq_ne q k other)
]

abbrev pub no_slots : ℕ → Slots
no_slots n = record { at = λ k. none; next = 0; room = n }

no_slots-IsMade : (n : ℕ) → IsMade n (no_slots n)
no_slots-IsMade n = record {
  whole = refl;
  bound = omega arith;
  below = λ k i e. cc e;
  inj = λ k q i e f. cc e;
}

pub create-IsMade : (n : ℕ) (h : Slots) → some (no_slots n) ≡ some h → IsMade n h
create-IsMade n h e = subst (IsMade n) (some_inj (no_slots n) h e) (no_slots-IsMade n)

pub at-create : (n : ℕ) (h : Slots) (k : Key) → some (no_slots n) ≡ some h → h.at k ≡ none
at-create n h k e = sym (ap (λ (r : Slots). r.at k) (some_inj (no_slots n) h e))

pub reset-IsMade : {n : ℕ} {h : Slots} → IsMade n h → IsMade n (no_slots h.room)
reset-IsMade {n} {h} m = rw m.whole (no_slots-IsMade n)

unfoldable pub slots : Hash Slots
slots = record {
  create = λ n len. some (no_slots n);
  add_key = add;
  lookup = λ h k. h.at k;
  reset = λ h. no_slots h.room;
  iterate = λ h iter. none;
  IsMade = IsMade;
  create-IsMade = λ e. create-IsMade _ _ e;
  add_key-IsMade = λ m e. add-IsMade _ _ _ _ _ m e;
  reset-IsMade = reset-IsMade;
  lookup-create = λ k e. at-create _ _ k e;
  iterate-reset = λ h iter. refl;
  lookup-reset = λ h k. refl;
  lookup-add_self = at-add_self;
  lookup-add_ne = at-add_ne;
  lookup_inj = λ m e f. m.inj _ _ _ e f;
  lookup_lt = λ m e. omega (arith, m.below _ _ e, m.bound);
}
