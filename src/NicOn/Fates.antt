-- ===== src/NicOn/Fates.antt =====
-- src/hardware_dep/dpdk/dpdk_nicon.c: the packets that left a port, and those in a part of a buffer.
use t4p4s_ma.Common.{
  ℕ, zero, suc, ◌+◌, ◌≡◌, ◌≤◌, refl, sym, ap, ap₂, ◌∙◌, arith, List, [], ◌∷◌, ◌++◌, ◌==◌, ==_self,
  ==_ne, length, if◌then◌else◌,
}
use t4p4s_ma.NicOn.{Fate, transmitted, freed, dropped, entries, all_as}

module _ {P : Type 0} where
  -- The packets of a port that went out or were freed behind its buffer.
  unfoldable pub fates_on : ℕ → List (Fate P) → List P
  fates_on q [] = []
  fates_on q (transmitted port p ∷ fs) = if port == q then p ∷ fates_on q fs else fates_on q fs
  fates_on q (freed port p ∷ fs) = if port == q then p ∷ fates_on q fs else fates_on q fs
  fates_on q (dropped p ∷ fs) = fates_on q fs

  pub fates_on-append :
      (q : ℕ) (fs gs : List (Fate P)) → fates_on q (fs ++ gs) ≡ fates_on q fs ++ fates_on q gs
  unfolding fates_on
  fates_on-append q [] gs = refl
  fates_on-append q (transmitted port p ∷ fs) gs = ground (arith, fates_on-append q fs gs)
  fates_on-append q (freed port p ∷ fs) gs = ground (arith, fates_on-append q fs gs)
  fates_on-append q (dropped p ∷ fs) gs = fates_on-append q fs gs

  pub fates_on-transmitted :
      (q port : ℕ) (ps : List P)
      → fates_on q (all_as (transmitted port) ps) ≡ (if port == q then ps else [])
  unfolding fates_on
  fates_on-transmitted q port [] = ground arith
  fates_on-transmitted q port (p ∷ ps) = ground (arith, fates_on-transmitted q port ps)

  pub fates_on-freed :
      (q port : ℕ) (ps : List P)
      → fates_on q (all_as (freed port) ps) ≡ (if port == q then ps else [])
  unfolding fates_on
  fates_on-freed q port [] = ground arith
  fates_on-freed q port (p ∷ ps) = ground (arith, fates_on-freed q port ps)

  pub entries-zero : (t : ℕ → P) (i : ℕ) → entries t i 0 ≡ []
  unfolding entries
  entries-zero t i = refl

  pub entries-add :
      (t : ℕ → P) (i a b : ℕ) → entries t i a ++ entries t (i + a) b ≡ entries t i (a + b)
  unfolding entries
  entries-add t i zero b =
      let z : i + 0 ≡ i = omega arith in let y : 0 + b ≡ b = omega arith in rw (z, y)
  entries-add t i (suc a) b =
      let there : i + suc a ≡ i + 1 + a = omega arith in
      let more : suc a + b ≡ suc (a + b) = omega arith in
      rw (there, more) (ap (◌∷◌ (t i)) (entries-add t (i + 1) a b))

  pub length-entries : (t : ℕ → P) (i n : ℕ) → length (entries t i n) ≡ n
  unfolding entries
  length-entries t i zero = refl
  length-entries t i (suc n) = omega (arith, length-entries t (i + 1) n)

  -- A write behind the entries does not change them.
  entries-write :
      (t : ℕ → P) (m : P) (len i n : ℕ)
      → i + n ≤ len
      → entries (λ j. if j == len then m else t j) i n ≡ entries t i n
  unfolding entries
  entries-write t m len i zero h = refl
  entries-write t m len i (suc n) h =
      rw (==_ne i len (λ e. absurd (omega arith)))
        (ap (◌∷◌ (t i)) (entries-write t m len (i + 1) n (omega arith)))

  pub entries-snoc :
      (t : ℕ → P) (m : P) (len : ℕ)
      → entries (λ j. if j == len then m else t j) 0 (len + 1) ≡ entries t 0 len ++ m ∷ []
  unfolding entries
  entries-snoc t m len =
      let t' = λ (j : ℕ). if j == len then m else t j in
      let z : 0 + len ≡ len = omega arith in
      let last : entries t' (0 + len) 1 ≡ m ∷ [] = rw (z, ==_self len) in
      sym (entries-add t' 0 len 1) ∙ ap₂ ◌++◌ (entries-write t m len 0 len (omega arith)) last
