-- ===== src/Tables/Manage/Launch.antt =====
-- src/hardware_dep/dpdk/data_plane/dpdk_lib_init_tables.c: flush_tables over all cores, and the
-- next launch.
use t4p4s_ma.Common.{
  ℕ, zero, suc, ◌+◌, ◌≡◌, ◌<◌, ◌≤◌, refl, sym, ap, ◌∙◌, subst, arith, true, some, ◌==◌, ==_iff,
  Bool-cases, inl, inr,
}
use t4p4s_ma.Tables.Entry.{ok, ◌>>=◌}
use t4p4s_ma.Tables.Manage.{
  SocketState, State, Config, put_state, get_socketid, has_none, init_tables,
  flush_tables_on_socket, flush_table_on_lcore, flush_from, flush_tables,
}
use t4p4s_ma.Tables.Manage.Reads.{Works, Has, flush_all-Made}
use t4p4s_ma.Tables.Manage.Init.{
  IsReady, IsThere, AllFilled, AllReady, Made-IsReady, has_none_ne, put_state_keeps, put_state_self,
  init_tables_lem,
}

module _ {T : Type 0} (cfg : Config T) (IsGood : T → Type 0) (works : Works cfg IsGood) where
  -- What the flush for a core keeps.
  record Flush (l : ℕ) (s s' : State T) : Type 0 where
    filled : AllFilled cfg IsGood works s'
    keeps : (q : ℕ) → IsReady cfg IsGood works (s.state q) → IsReady cfg IsGood works (s'.state q)
    back : (q : ℕ) → IsThere cfg IsGood works s' q → IsThere cfg IsGood works s q
    done :
        cfg.lcore_is_enabled l ≡ true
        → IsThere cfg IsGood works s (get_socketid cfg l)
        → IsReady cfg IsGood works (s'.state (get_socketid cfg l))

  put_state-AllFilled :
      (q : ℕ) (k : SocketState T) (s : State T)
      → IsReady cfg IsGood works k
      → AllFilled cfg IsGood works s
      → AllFilled cfg IsGood works (put_state q k s)
  put_state-AllFilled q k s r v q' there = elim (Bool-cases (q == q')) [
    | inl e ↦ rw e r.0
    | inr e ↦ rw e (v q' (sym (has_none_ne cfg IsGood works q q' k s e) ∙ there))
  ]

  put_state_back :
      (q : ℕ) (k : SocketState T) (s : State T) (q' : ℕ)
      → IsThere cfg IsGood works s q
      → IsThere cfg IsGood works (put_state q k s) q'
      → IsThere cfg IsGood works s q'
  put_state_back q k s q' old there = elim (Bool-cases (q == q')) [
    | inl e ↦ subst (IsThere cfg IsGood works s) ((==_iff q q').0 e) old
    | inr e ↦ sym (has_none_ne cfg IsGood works q q' k s e) ∙ there
  ]

  flush_table_on_lcore-Flush :
      (l : ℕ) (s : State T)
      → AllFilled cfg IsGood works s
      → (s' : State T) × (flush_table_on_lcore cfg l s ≡ ok s') × Flush l s s'
  unfolding flush_table_on_lcore flush_tables_on_socket
  flush_table_on_lcore-Flush l s v = elim (Bool-cases (cfg.lcore_is_enabled l)) [
    | inr off ↦ (
      s,
      rw off,
      record { filled = v; keeps = λ q r. r; back = λ q h. h; done = λ on. cc (on, off) },
    )
    | inl on ↦ elim (Bool-cases (has_none cfg (get_socketid cfg l) s)) [
      | inl new ↦ (
        s,
        rw (on, works.in_range l on, new),
        record { filled = v; keeps = λ q r. r; back = λ q h. h; done = λ _ there. cc (there, new) },
      )
      | inr there ↦
          let q = get_socketid cfg l in
          let (k, e, m) =
            flush_all-Made cfg IsGood works cfg.nb_tables 0 (s.state q)
              (λ i j le lt small. v q there i j (omega (arith, lt)) small) in
          let r = Made-IsReady cfg IsGood works (s.state q) k m in
          (
            put_state q k s,
            rw (on, works.in_range l on, there, e),
            record {
              filled = put_state-AllFilled q k s r v;
              keeps = put_state_keeps cfg IsGood works q k s r;
              back = λ q' h. put_state_back q k s q' there h;
              done = λ _ _. put_state_self cfg IsGood works q k s r;
            },
          )
    ]
  ]

  flush_from_lem :
      (n l : ℕ) (s : State T)
      → AllFilled cfg IsGood works s
      → (s' : State T) × (flush_from cfg n l s ≡ ok s')
        × AllFilled cfg IsGood works s'
        × ((q : ℕ) → IsReady cfg IsGood works (s.state q) → IsReady cfg IsGood works (s'.state q))
        × ((q : ℕ) → IsThere cfg IsGood works s' q → IsThere cfg IsGood works s q)
        × ((l' : ℕ)
            → l ≤ l'
            → l' < l + n
            → cfg.lcore_is_enabled l' ≡ true
            → IsThere cfg IsGood works s' (get_socketid cfg l')
            → IsReady cfg IsGood works (s'.state (get_socketid cfg l')))
  unfolding flush_from
  flush_from_lem zero l s v =
      (s, refl, v, λ q r. r, λ q h. h, λ l' le lt on there. absurd (omega (arith, le, lt)))
  flush_from_lem (suc n) l s v =
      let (s₁, e, f) = flush_table_on_lcore-Flush l s v in
      let (s', e', v', keeps, back, done) = flush_from_lem n (l + 1) s₁ f.filled in
      (
        s',
        rw (e, e'),
        v',
        λ q r. keeps q (f.keeps q r),
        λ q h. f.back q (back q h),
        λ l' le lt on there. elim (Bool-cases (l == l')) [
          | inr other ↦ done l' (ground (arith, le, other)) (omega (arith, lt)) on there
          | inl same ↦
              let p = sym ((==_iff l l').0 same) in
              let on_l = subst (λ a. cfg.lcore_is_enabled a ≡ true) p on in
              let there_l = subst (λ a. IsThere cfg IsGood works s' (get_socketid cfg a)) p there in
              subst (λ a. IsReady cfg IsGood works (s'.state (get_socketid cfg a))) (sym p)
                (keeps (get_socketid cfg l)
                  (f.done on_l (f.back (get_socketid cfg l) (back (get_socketid cfg l) there_l))))
        ],
      )

  -- A socket that has tables is the one of a core.
  abbrev pub AllUsed : State T → Type 0
  AllUsed s =
      (q : ℕ)
      → IsThere cfg IsGood works s q
      → (l : ℕ) × (l < cfg.max_lcore) × (cfg.lcore_is_enabled l ≡ true) × (get_socketid cfg l ≡ q)

  flush_tables_lem :
      (s : State T)
      → AllFilled cfg IsGood works s
      → AllUsed s
      → (s' : State T) × (flush_tables cfg s ≡ ok s') × AllReady cfg IsGood works s'
  unfolding flush_tables
  flush_tables_lem s v used =
      let (s', e, v', keeps, back, done) = flush_from_lem cfg.max_lcore 0 s v in
      (
        s',
        e,
        λ q there.
            let (l, lt, on, same) = used q (back q there) in
            subst (λ a. IsReady cfg IsGood works (s'.state a)) same
              (done l (omega arith) (omega (arith, lt)) on
                (subst (IsThere cfg IsGood works s') (sym same) there)),
      )

  -- Between two launches, `flush_tables` and then `init_tables` return, if the sockets of the enabled
  -- cores are in range, all tables of the configuration can be created and the created ones can be
  -- flushed, whatever replicas were active and were read: if every socket with tables has all of
  -- them, and has an enabled core, then afterwards each enabled core's pointers are to the active
  -- replicas, all of which are there, of the tables of its socket.
  pub init-flush-Reads :
      (s : State T)
      → AllFilled cfg IsGood works s
      → AllUsed s
      → (s' : State T) × ((flush_tables cfg s >>= init_tables cfg) ≡ ok s')
        × ((l i : ℕ)
            → l < cfg.max_lcore
            → cfg.lcore_is_enabled l ≡ true
            → i < cfg.nb_tables
            → let q = get_socketid cfg l in
              (s'.reads l i ≡ some (q, (s'.state q).active_replica i))
              × Has cfg IsGood works (s'.state q) i ((s'.state q).active_replica i))
  init-flush-Reads s v used =
      let (s₁, e, ready) = flush_tables_lem s v used in
      let (s', f, done) = init_tables_lem cfg IsGood works s₁ ready in
      (
        s',
        rw (e, f),
        λ l i lt on small.
            let (r, reads) = done l lt on in
            let zero_ = r.1 i small in
            (
              reads i small ∙ ap (λ a. some (get_socketid cfg l, a)) (sym zero_),
              subst (Has cfg IsGood works (s'.state (get_socketid cfg l)) i) (sym zero_)
                  (r.0 i 0 small (omega arith)),
            ),
      )
