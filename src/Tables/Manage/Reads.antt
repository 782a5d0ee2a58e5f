-- ===== src/Tables/Manage/Reads.antt =====
-- src/hardware_dep/dpdk/data_plane/dpdk_lib_init_tables.c: between two launches the tables are flushed
-- and the cores are pointed to the active replicas.
use t4p4s_ma.Common.{
  leb, true, false, ℕ, zero, suc, ◌+◌, ◌≡◌, ◌<◌, ◌≤◌, refl, ap, ◌∙◌, subst, arith, some, ◌==◌,
  ==_self, ==_iff, Bool-cases, inl, inr,
}
use t4p4s_ma.Replica.{nb_replica}
use t4p4s_ma.Tables.Entry.{ok}
use t4p4s_ma.Tables.Manage.{
  nb_sockets, get_socketid, SocketState, Config, put_table, activate, create_replicas,
  create_tables, flush_replicas, flush_all,
}

-- The sockets of the enabled cores are in range, the tables of the configuration are created, and those of a kind can be flushed.
pub record Works {T : Type 0} (cfg : Config T) (IsGood : T → Type 0) : Type 0 where
  pub creates : (i : ℕ) → (t : T) × (cfg.create (cfg.table_config i) ≡ ok t) × IsGood t
  pub in_range :
      (l : ℕ) → cfg.lcore_is_enabled l ≡ true → leb nb_sockets (get_socketid cfg l) ≡ false
  pub flushes : (t : T) → IsGood t → (t' : T) × (cfg.flush t ≡ ok t') × IsGood t'

module _ {T : Type 0} (cfg : Config T) (IsGood : T → Type 0) (works : Works cfg IsGood) where
  abbrev pub Has : SocketState T → ℕ → ℕ → Type 0
  Has s i j = (t : T) × (s.tables i j ≡ some t) × IsGood t

  abbrev pub Filled : SocketState T → Type 0
  Filled s = (i j : ℕ) → i < cfg.nb_tables → j < nb_replica → Has s i j

  -- From the one state of a socket to the other the tables from `i` on, `n` of them, are there and
  -- have replica 0 active, and nothing is lost.
  pub record Made (n i : ℕ) (s k : SocketState T) : Type 0 where
    pub grows : (i' j : ℕ) → Has s i' j → Has k i' j
    pub zeros : (i' : ℕ) → s.active_replica i' ≡ 0 → k.active_replica i' ≡ 0
    pub filled : (i' j : ℕ) → i ≤ i' → i' < i + n → j < nb_replica → Has k i' j
    pub zeroed : (i' : ℕ) → i ≤ i' → i' < i + n → k.active_replica i' ≡ 0

  -- The same for the replicas of one table.
  record Row (n j i : ℕ) (s k : SocketState T) : Type 0 where
    grows : (i' j' : ℕ) → Has s i' j' → Has k i' j'
    active : k.active_replica ≡ s.active_replica
    filled : (j' : ℕ) → j ≤ j' → j' < j + n → Has k i j'

  put_table-Has :
      (i j : ℕ) (t : T) (s : SocketState T) (i' j' : ℕ)
      → IsGood t
      → Has s i' j'
      → Has (put_table i j t s) i' j'
  put_table-Has i j t s i' j' good has = elim (Bool-cases (i == i')) [
    | inr e ↦ rw e has
    | inl e ↦ elim (Bool-cases (j == j')) [
      | inr f ↦ rw (e, f) has
      | inl f ↦ rw (e, f) (t, refl, good)
    ]
  ]

  put_table-Has_self :
      (i j : ℕ) (t : T) (s : SocketState T) → IsGood t → Has (put_table i j t s) i j
  put_table-Has_self i j t s good = rw (==_self i, ==_self j) (t, refl, good)

  -- A row, when its first replica is put and the others follow.
  Row-suc :
      (n j i : ℕ) (t : T) (s k : SocketState T)
      → IsGood t
      → Row n (j + 1) i (put_table i j t s) k
      → Row (suc n) j i s k
  Row-suc n j i t s k good r = record {
    grows = λ i' j' has. r.grows i' j' (put_table-Has i j t s i' j' good has);
    active = r.active;
    filled = λ j' le lt. elim (Bool-cases (j == j')) [
      | inl e ↦ subst (Has k i) ((==_iff j j').0 e) (r.grows i j (put_table-Has_self i j t s good))
      | inr e ↦ r.filled j' (ground (arith, e, le)) (omega (arith, lt))
    ];
  }

  create_replicas-Row :
      (n j i : ℕ) (s : SocketState T)
      → (k : SocketState T) × (create_replicas cfg n j i s ≡ ok k) × Row n j i s k
  unfolding create_replicas
  create_replicas-Row zero j i s = (
    s,
    refl,
    record {
      grows = λ i' j' has. has;
      active = refl;
      filled = λ j' le lt. absurd (omega (arith, le, lt));
    },
  )
  create_replicas-Row (suc n) j i s =
      let (t, made, good) = works.creates i in
      let (k, e, row) = create_replicas-Row n (j + 1) i (put_table i j t s) in
      (k, rw (made, e), Row-suc n j i t s k good row)

  flush_replicas-suc :
      (n j i : ℕ) (t₀ t : T) (s : SocketState T)
      → s.tables i j ≡ some t₀
      → cfg.flush t₀ ≡ ok t
      → flush_replicas cfg (suc n) j i s ≡ flush_replicas cfg n (j + 1) i (put_table i j t s)
  unfolding flush_replicas
  flush_replicas-suc n j i t₀ t s there made = ground arith

  flush_replicas-Row :
      (n j i : ℕ) (s : SocketState T)
      → ((j' : ℕ) → j ≤ j' → j' < j + n → Has s i j')
      → (k : SocketState T) × (flush_replicas cfg n j i s ≡ ok k) × Row n j i s k
  unfolding flush_replicas
  flush_replicas-Row zero j i s h = (
    s,
    refl,
    record {
      grows = λ i' j' has. has;
      active = refl;
      filled = λ j' le lt. absurd (omega (arith, le, lt));
    },
  )
  flush_replicas-Row (suc n) j i s h =
      let (t₀, there, good₀) = h j (omega arith) (omega arith) in
      let (t, made, good) = works.flushes t₀ good₀ in
      let (k, e, row) =
        flush_replicas-Row n (j + 1) i (put_table i j t s)
          (λ j' le lt. put_table-Has i j t s i j' good (h j' (omega arith) (omega arith))) in
      (k, flush_replicas-suc n j i t₀ t s there made ∙ e, Row-suc n j i t s k good row)

  -- The tables, when the first one is done and activated and the others follow.
  Made-suc :
      (n i : ℕ) (s r k : SocketState T)
      → Row nb_replica 0 i s r
      → Made n (i + 1) (activate i r) k
      → Made (suc n) i s k
  Made-suc n i s r k row m = record {
    grows = λ i' j has. m.grows i' j (row.grows i' j has);
    zeros = λ i' e. m.zeros i' (elim (Bool-cases (i == i')) [
      | inl f ↦ rw f
      | inr f ↦ rw f (ap (λ a. a i') row.active ∙ e)
    ]);
    filled = λ i' j le lt small. elim (Bool-cases (i == i')) [
      | inl e ↦
          subst (λ q. Has k q j) ((==_iff i i').0 e)
            (m.grows i j (row.filled j (omega arith) (omega (arith, small))))
      | inr e ↦ m.filled i' j (ground (arith, e, le)) (omega (arith, lt)) small
    ];
    zeroed = λ i' le lt. elim (Bool-cases (i == i')) [
      | inl e ↦ m.zeros i' (rw e)
      | inr e ↦ m.zeroed i' (ground (arith, e, le)) (omega (arith, lt))
    ];
  }

  Made-zero : (i : ℕ) (s : SocketState T) → Made zero i s s
  Made-zero i s = record {
    grows = λ i' j has. has;
    zeros = λ i' e. e;
    filled = λ i' j le lt small. absurd (omega (arith, le, lt));
    zeroed = λ i' le lt. absurd (omega (arith, le, lt));
  }

  pub create_tables-Made :
      (n i : ℕ) (s : SocketState T)
      → (k : SocketState T) × (create_tables cfg n i s ≡ ok k) × Made n i s k
  unfolding create_tables
  create_tables-Made zero i s = (s, refl, Made-zero i s)
  create_tables-Made (suc n) i s =
      let (r, e, row) = create_replicas-Row nb_replica 0 i s in
      let (k, f, m) = create_tables-Made n (i + 1) (activate i r) in
      (k, rw (e, f), Made-suc n i s r k row m)

  pub flush_all-Made :
      (n i : ℕ) (s : SocketState T)
      → ((i' j : ℕ) → i ≤ i' → i' < i + n → j < nb_replica → Has s i' j)
      → (k : SocketState T) × (flush_all cfg n i s ≡ ok k) × Made n i s k
  unfolding flush_all
  flush_all-Made zero i s h = (s, refl, Made-zero i s)
  flush_all-Made (suc n) i s h =
      let (r, e, row) =
        flush_replicas-Row nb_replica 0 i s (λ j le lt. h i j (omega arith) (omega arith) lt) in
      let (k, f, m) =
        flush_all-Made n (i + 1) (activate i r)
          (λ i' j le lt small. row.grows i' j (h i' j (omega arith) (omega arith) small)) in
      (k, rw (e, f), Made-suc n i s r k row m)
