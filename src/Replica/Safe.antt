-- ===== src/Replica/Safe.antt =====
-- dpdk_lib_change_tables.c: no core reads a replica while it is written, and in the end all
-- replicas have the change.
use t4p4s_ma.Common.{
  ℕ, ◌<◌, ◌≡◌, ◌≢◌, refl, sym, ap, ap₂, ◌∙◌, arith, Bool, true, false, List, [], ◌∷◌, if◌then◌else◌,
  map, Bool-cases, inl, inr, ◌⊎◌,
}
use t4p4s_ma.Replica.{
  Core, State, is_on, any_on, point, change_table, all_writes, nb_replica, next_replica,
}

-- Each core of the list that is enabled and on the socket reads that replica.
abbrev pub AllRead : ℕ → ℕ → List Core → Type 0
AllRead socketid r [] = Unit
AllRead socketid r (c ∷ cs) = (is_on socketid c ≡ true → c.replica ≡ r) × AllRead socketid r cs

-- None of them does.
abbrev pub NoneReads : ℕ → ℕ → List Core → Type 0
NoneReads socketid r [] = Unit
NoneReads socketid r (c ∷ cs) = (is_on socketid c ≡ true → c.replica ≢ r) × NoneReads socketid r cs

none_reads :
    (socketid a r : ℕ) (cs : List Core) → a ≢ r → AllRead socketid a cs → NoneReads socketid r cs
none_reads socketid a r [] n h = tt
none_reads socketid a r (c ∷ cs) n h =
    ((λ on e. n (sym (h.0 on) ∙ e)), none_reads socketid a r cs n h.1)

point_core :
    (socketid r : ℕ) (c : Core)
    → is_on socketid (point socketid r c) ≡ true
    → (point socketid r c).replica ≡ r
point_core socketid r c = elim (Bool-cases (is_on socketid c)) [
  | inl e ↦ rw e (λ on. refl)
  | inr e ↦ rw e (λ on. cc)
]

points : (socketid r : ℕ) (cs : List Core) → AllRead socketid r (map (point socketid r) cs)
points socketid r [] = tt
points socketid r (c ∷ cs) = (point_core socketid r c, points socketid r cs)

on_off : (b : Bool) → b ≡ true → b ≡ false → ⊥
on_off b h k = cc

on_twice : (b r : Bool) → b ≡ true → (if b then true else r) ≡ false → ⊥
on_twice b r h k = ground (arith, h, k)

-- On a socket without an enabled core anything holds of those that are.
no_core : (socketid r : ℕ) (cs : List Core) → any_on socketid cs ≡ false → AllRead socketid r cs
no_core socketid r [] e = tt
no_core socketid r (c ∷ cs) e = elim (Bool-cases (is_on socketid c)) [
  | inl on ↦ absurd (on_twice (is_on socketid c) (any_on socketid cs) on e)
  | inr off ↦
      ((λ on. absurd (on_off (is_on socketid c) on off)), no_core socketid r cs (rw off at e))
]

point_off : (socketid r : ℕ) (c : Core) → is_on socketid c ≡ false → point socketid r c ≡ c
point_off socketid r c off = rw off refl

none_moved :
    (socketid r : ℕ) (cs : List Core) → any_on socketid cs ≡ false → map (point socketid r) cs ≡ cs
none_moved socketid r [] e = refl
none_moved socketid r (c ∷ cs) e = elim (Bool-cases (is_on socketid c)) [
  | inl on ↦ absurd (on_twice (is_on socketid c) (any_on socketid cs) on e)
  | inr off ↦ ap₂ ◌∷◌ (point_off socketid r c off) (none_moved socketid r cs (rw off at e))
]

two_replicas : (a : ℕ) → a < nb_replica → (a ≡ 0) ⊎ (a ≡ 1)
two_replicas a h = omega arith

module _ {ℓ} {T : Type ℓ} where
  -- In each state of the list nobody reads the replica that it stands with.
  abbrev pub Unread : ℕ → List (ℕ × State T) → Type 0
  Unread socketid [] = Unit
  Unread socketid ((r, s) ∷ rest) = NoneReads socketid r s.cores × Unread socketid rest

  -- If all enabled cores of the socket read the active one of the two replicas, then `CHANGE_TABLE` writes a
  -- replica only in a state in which no core of the socket reads it, and afterwards all of them read
  -- the other replica.
  pub change_table-Unread :
      (f : T → T) (socketid : ℕ) (s : State T)
      → s.active_replica < nb_replica
      → AllRead socketid s.active_replica s.cores
      → Unread socketid (all_writes f socketid s)
        × AllRead socketid (next_replica s) (change_table f socketid s).cores
  unfolding all_writes change_table
  change_table-Unread f socketid s lt h = elim (two_replicas s.active_replica lt) [
    | inl e ↦ rw e (
      (
        none_reads socketid s.active_replica 1 s.cores (λ q. omega (arith, q, e)) h,
        (
          none_reads socketid 1 0 (map (point socketid 1) s.cores) (λ q. omega (arith, q))
              (points socketid 1 s.cores),
          tt,
        ),
      ),
      points socketid 1 s.cores,
    )
    | inr e ↦ rw e (
      (
        none_reads socketid s.active_replica 0 s.cores (λ q. omega (arith, q, e)) h,
        (
          none_reads socketid 0 1 (map (point socketid 0) s.cores) (λ q. omega (arith, q))
              (points socketid 0 s.cores),
          tt,
        ),
      ),
      points socketid 0 s.cores,
    )
  ]

  -- If all enabled cores of the socket read the active one of the two replicas, then so they do after `CHANGE_TABLE`, which
  -- leaves the active one below the number of replicas.
  pub change_table-AllRead :
      (f : T → T) (socketid : ℕ) (s : State T)
      → s.active_replica < nb_replica
      → AllRead socketid s.active_replica s.cores
      → ((change_table f socketid s).active_replica < nb_replica)
        × AllRead socketid
            (change_table f socketid s).active_replica
            (change_table f socketid s).cores
  unfolding change_table
  change_table-AllRead f socketid s lt h = elim (two_replicas s.active_replica lt) [
    | inl e ↦ elim (Bool-cases (any_on socketid s.cores)) [
      | inl on ↦ rw (e, on) (omega arith, points socketid 1 s.cores)
      | inr off ↦
          rw (e, off)
            (omega arith, rw (none_moved socketid 1 s.cores off) (no_core socketid 0 s.cores off))
    ]
    | inr e ↦ elim (Bool-cases (any_on socketid s.cores)) [
      | inl on ↦ rw (e, on) (omega arith, points socketid 0 s.cores)
      | inr off ↦
          rw (e, off)
            (omega arith, rw (none_moved socketid 0 s.cores off) (no_core socketid 1 s.cores off))
    ]
  ]

  -- If both replicas hold the same table, and the active one is one of them, then after `CHANGE_TABLE`
  -- both hold the changed table.
  pub change_table_lem :
      (f : T → T) (socketid : ℕ) (s : State T) (t : T)
      → s.active_replica < nb_replica
      → ((r : ℕ) → r < nb_replica → s.tables r ≡ t)
      → (r : ℕ) → r < nb_replica
      → (change_table f socketid s).tables r ≡ f t
  unfolding change_table
  change_table_lem f socketid s t lt h r k = elim (two_replicas s.active_replica lt) [
    | inl e ↦ elim (two_replicas r k) [
      | inl z ↦ rw (e, z) (ap f (h 0 (omega arith)))
      | inr z ↦ rw (e, z) (ap f (h 1 (omega arith)))
    ]
    | inr e ↦ elim (two_replicas r k) [
      | inl z ↦ rw (e, z) (ap f (h 0 (omega arith)))
      | inr z ↦ rw (e, z) (ap f (h 1 (omega arith)))
    ]
  ]
