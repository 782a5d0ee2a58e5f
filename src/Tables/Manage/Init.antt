-- ===== src/Tables/Manage/Init.antt =====
-- src/hardware_dep/dpdk/data_plane/dpdk_lib_init_tables.c: init_tables over all cores.
use t4p4s_ma.Common.{
  ℕ, zero, suc, ◌+◌, ◌≡◌, ◌≢◌, ◌<◌, refl, sym, ap, ◌∙◌, subst, arith, true, false, some, ◌==◌,
  ==_self, ==_ne, ==_iff, Bool-cases, inl, inr, lt→ltb,
}
use t4p4s_ma.Tables.Entry.{ok}
use t4p4s_ma.Tables.Manage.{
  SocketState, State, Config, put_state, get_socketid, create_tables_on_socket, has_none, point,
  create_table_on_lcore, init_from, init_tables,
}
use t4p4s_ma.Tables.Manage.Reads.{Works, Has, Filled, Made, create_tables-Made}

module _ {T : Type 0} (cfg : Config T) (IsGood : T → Type 0) (works : Works cfg IsGood) where
  -- All tables of a socket are there, and replica 0 of each is the active one.
  abbrev pub IsReady : SocketState T → Type 0
  IsReady s = Filled cfg IsGood works s × ((i : ℕ) → i < cfg.nb_tables → s.active_replica i ≡ 0)

  abbrev pub IsThere : State T → ℕ → Type 0
  IsThere s q = has_none cfg q s ≡ false

  abbrev pub AllFilled : State T → Type 0
  AllFilled s = (q : ℕ) → IsThere s q → Filled cfg IsGood works (s.state q)

  abbrev pub AllReady : State T → Type 0
  AllReady s = (q : ℕ) → IsThere s q → IsReady (s.state q)

  -- The core reads replica 0 of all tables of its socket, which are there, and replica 0 active.
  abbrev pub IsDone : State T → ℕ → Type 0
  IsDone s l =
      IsReady (s.state (get_socketid cfg l))
      × ((i : ℕ) → i < cfg.nb_tables → s.reads l i ≡ some (get_socketid cfg l, 0))

  pub Made-IsReady : (s k : SocketState T) → Made cfg IsGood works cfg.nb_tables 0 s k → IsReady k
  Made-IsReady s k m = (
    λ i j lt small. m.filled i j (omega arith) (omega arith) small,
    λ i lt. m.zeroed i (omega arith) (omega arith),
  )

  -- What the step for a core keeps.
  record Step (l : ℕ) (s s' : State T) : Type 0 where
    valid : AllReady s'
    keeps : (q : ℕ) → IsReady (s.state q) → IsReady (s'.state q)
    others : (l' i : ℕ) → l' ≢ l → s'.reads l' i ≡ s.reads l' i
    done : cfg.lcore_is_enabled l ≡ true → IsDone s' l

  pub has_none_ne :
      (q q' : ℕ) (k : SocketState T) (s : State T)
      → (q == q') ≡ false
      → has_none cfg q' (put_state q k s) ≡ has_none cfg q' s
  has_none_ne q q' k s e = ground arith

  put_state-AllReady :
      (q : ℕ) (k : SocketState T) (s : State T)
      → IsReady k
      → AllReady s
      → AllReady (put_state q k s)
  put_state-AllReady q k s r v q' there = elim (Bool-cases (q == q')) [
    | inl e ↦ rw e r
    | inr e ↦ rw e (v q' (sym (has_none_ne q q' k s e) ∙ there))
  ]

  pub put_state_keeps :
      (q : ℕ) (k : SocketState T) (s : State T)
      → IsReady k
      → (q' : ℕ) → IsReady (s.state q')
      → IsReady ((put_state q k s).state q')
  put_state_keeps q k s r q' old = elim (Bool-cases (q == q')) [ inl e ↦ rw e r | inr e ↦ rw e old ]

  pub put_state_self :
      (q : ℕ) (k : SocketState T) (s : State T) → IsReady k → IsReady ((put_state q k s).state q)
  put_state_self q k s r = rw (==_self q) r

  point_reads :
      (l i : ℕ) (s : State T)
      → i < cfg.nb_tables
      → Has cfg IsGood works (s.state (get_socketid cfg l)) i 0
      → (point cfg l s).reads l i ≡ some (get_socketid cfg l, 0)
  point_reads l i s lt (t, there, good) = rw (==_self l, lt→ltb i cfg.nb_tables lt, there)

  point-Step :
      (l : ℕ) (s s' : State T)
      → AllReady s'
      → ((q : ℕ) → IsReady (s.state q) → IsReady (s'.state q))
      → s'.reads ≡ s.reads
      → IsReady (s'.state (get_socketid cfg l))
      → Step l s (point cfg l s')
  point-Step l s s' v keeps same r = record {
    valid = v;
    keeps = keeps;
    others = λ l' i ne. rw (==_ne l l' (λ e. ne (sym e))) (ap (λ f. f l' i) same);
    done = λ on. (r, λ i lt. point_reads l i s' lt (r.0 i 0 lt (omega arith)));
  }

  create_table_on_lcore-Step :
      (l : ℕ) (s : State T)
      → AllReady s
      → (s' : State T) × (create_table_on_lcore cfg l s ≡ ok s') × Step l s s'
  unfolding create_table_on_lcore create_tables_on_socket
  create_table_on_lcore-Step l s v = elim (Bool-cases (cfg.lcore_is_enabled l)) [
    | inr off ↦ (
      s,
      rw off,
      record { valid = v; keeps = λ q r. r; others = λ l' i ne. refl; done = λ on. cc (on, off) },
    )
    | inl on ↦ elim (Bool-cases (has_none cfg (get_socketid cfg l) s)) [
      | inr there ↦ (
        point cfg l s,
        rw (on, works.in_range l on, there),
        point-Step l s s v (λ q r. r) refl (v (get_socketid cfg l) there),
      )
      | inl new ↦
          let q = get_socketid cfg l in
          let (k, e, m) = create_tables-Made cfg IsGood works cfg.nb_tables 0 (s.state q) in
          let r = Made-IsReady (s.state q) k m in
          (
            point cfg l (put_state q k s),
            rw (on, works.in_range l on, new, e),
            point-Step l s (put_state q k s) (put_state-AllReady q k s r v)
                (put_state_keeps q k s r) refl (put_state_self q k s r),
          )
    ]
  ]

  init_from_lem :
      (n l : ℕ) (s : State T)
      → AllReady s
      → ((l' : ℕ) → l' < l → cfg.lcore_is_enabled l' ≡ true → IsDone s l')
      → (s' : State T) × (init_from cfg n l s ≡ ok s')
        × ((l' : ℕ) → l' < l + n → cfg.lcore_is_enabled l' ≡ true → IsDone s' l')
  unfolding init_from
  init_from_lem zero l s v h = (s, refl, λ l' lt on. h l' (omega (arith, lt)) on)
  init_from_lem (suc n) l s v h =
      let (s₁, e, step) = create_table_on_lcore-Step l s v in
      let earlier : (l' : ℕ) → l' < l + 1 → cfg.lcore_is_enabled l' ≡ true → IsDone s₁ l' =
        λ l' lt on. elim (Bool-cases (l' == l)) [
          | inl same ↦
              subst (IsDone s₁) (sym ((==_iff l' l).0 same))
                (step.done (subst (λ a. cfg.lcore_is_enabled a ≡ true) ((==_iff l' l).0 same) on))
          | inr other ↦
              let ne : l' ≢ l = λ f. cc (other, (==_iff l' l).1 f) in
              let before = h l' (ground arith) on in
              (
                step.keeps (get_socketid cfg l') before.0,
                λ i small. step.others l' i ne ∙ before.1 i small,
              )
        ] in
      let (s', f, done) = init_from_lem n (l + 1) s₁ step.valid earlier in
      (s', rw (e, f), λ l' lt on. done l' (omega (arith, lt)) on)

  pub init_tables_lem :
      (s : State T)
      → AllReady s
      → (s' : State T) × (init_tables cfg s ≡ ok s')
        × ((l : ℕ) → l < cfg.max_lcore → cfg.lcore_is_enabled l ≡ true → IsDone s' l)
  unfolding init_tables
  init_tables_lem s v =
      let (s', e, done) =
        init_from_lem cfg.max_lcore 0 s v (λ l' lt on. absurd (omega (arith, lt))) in
      (s', e, λ l lt on. done l (omega (arith, lt)) on)
