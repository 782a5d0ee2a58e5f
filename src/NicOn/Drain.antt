-- ===== src/NicOn/Drain.antt =====
-- src/hardware_dep/dpdk/dpdk_nicon.c: the periodic drain of the buffers.
use t4p4s_ma.Common.{
  ℕ, zero, suc, ◌+◌, ◌-◌, ◌%◌, ◌^◌, ◌≡◌, ◌<◌, refl, sym, ◌∙◌, subst, arith, Bool, true, false, ◌++◌,
  append-nil, ltb, leb, ◌&&◌, ◌==◌, ==_iff, ==_self, lt→ltb, if◌then◌else◌, Bool-cases, inl, inr,
}
use t4p4s_ma.NicOn.{
  Config, World, entries, send_burst, set_buffer, drain_from, tx_burst_queue_drain,
}
use t4p4s_ma.NicOn.Fates.{fates_on, entries-zero}
use t4p4s_ma.NicOn.Trail.{trail, send_burst_lem}

module _ {P S : Type 0} (cfg : Config P S) where
  -- The body of the loop.
  abbrev emptied : ℕ → World P S → World P S
  emptied portid w =
      if (w.tx_mbufs portid).len == 0
      then w
      else set_buffer cfg portid (record (w.tx_mbufs portid) { len = 0 })
          (send_burst cfg (w.tx_mbufs portid).len portid w)

  -- What a drain of the ports of `Drained` leaves: each packet went out or was freed, the buffers of
  -- those ports are empty and the others are as they were.
  pub record Drains (Drained : ℕ → Bool) (w w' : World P S) : Type 0 where
    pub kept : (q : ℕ) → trail cfg q w' ≡ trail cfg q w
    pub lens : (q : ℕ) → (w'.tx_mbufs q).len ≡ (if Drained q then 0 else (w.tx_mbufs q).len)
    pub rest : (w'.pkts_burst ≡ w.pkts_burst) × (w'.switch ≡ w.switch) × (w'.pd ≡ w.pd)

  emptied-trail_self :
      (port : ℕ) (w : World P S) → trail cfg port (emptied port w) ≡ trail cfg port w
  emptied-trail_self port w = elim (Bool-cases ((w.tx_mbufs port).len == 0)) [
    | inl none_there ↦ rw none_there
    | inr some_there ↦ rw (some_there) (
        rw (send_burst_lem cfg port (w.tx_mbufs port).len port w, ==_self port, entries-zero)
          (append-nil _))
  ]

  emptied-trail_ne :
      (port : ℕ) (w : World P S) (q : ℕ)
      → port == q ≡ false
      → trail cfg q (emptied port w) ≡ trail cfg q w
  unfolding send_burst
  emptied-trail_ne port w q other = elim (Bool-cases ((w.tx_mbufs port).len == 0)) [
    | inl none_there ↦ rw none_there
    | inr some_there ↦
        rw (some_there)
          (rw (send_burst_lem cfg q (w.tx_mbufs port).len port w, other) (simp append-nil))
  ]

  emptied_len_self : (port : ℕ) (w : World P S) → ((emptied port w).tx_mbufs port).len ≡ 0
  emptied_len_self port w = elim (Bool-cases ((w.tx_mbufs port).len == 0)) [
    | inl none_there ↦ rw none_there ((==_iff (w.tx_mbufs port).len 0).0 none_there)
    | inr some_there ↦ rw (some_there, ==_self port)
  ]

  emptied_len_ne :
      (port : ℕ) (w : World P S) (q : ℕ)
      → port == q ≡ false
      → ((emptied port w).tx_mbufs q).len ≡ (w.tx_mbufs q).len
  unfolding send_burst
  emptied_len_ne port w q other = elim (Bool-cases ((w.tx_mbufs port).len == 0)) [
    | inl none_there ↦ rw none_there
    | inr some_there ↦ rw (some_there, other)
  ]

  emptied_rest :
      (port : ℕ) (w : World P S)
      → ((emptied port w).pkts_burst ≡ w.pkts_burst)
        × ((emptied port w).switch ≡ w.switch)
        × ((emptied port w).pd ≡ w.pd)
  unfolding send_burst
  emptied_rest port w = elim (Bool-cases ((w.tx_mbufs port).len == 0)) [
    | inl none_there ↦ rw none_there (refl, refl, refl)
    | inr some_there ↦ rw some_there (refl, refl, refl)
  ]

  emptied-Drains : (port : ℕ) (w : World P S) → Drains (λ q. port == q) w (emptied port w)
  emptied-Drains port w = record {
    kept = λ q. elim (Bool-cases (port == q)) [
      | inl same ↦
          subst (λ (p : ℕ). trail cfg p (emptied port w) ≡ trail cfg p w) ((==_iff port q).0 same)
            (emptied-trail_self port w)
      | inr other ↦ emptied-trail_ne port w q other
    ];
    lens = λ q. elim (Bool-cases (port == q)) [
      | inl same ↦ rw same (
          subst (λ (p : ℕ). ((emptied port w).tx_mbufs p).len ≡ 0) ((==_iff port q).0 same)
            (emptied_len_self port w))
      | inr other ↦ rw other (emptied_len_ne port w q other)
    ];
    rest = emptied_rest port w;
  }

  drain_from-Drains :
      (n portid : ℕ) (w : World P S)
      → Drains (λ q. leb portid q && ltb q (portid + n)) w (drain_from cfg n portid w)
  unfolding drain_from
  drain_from-Drains zero portid w = record {
    kept = λ q. refl;
    lens = λ q. ground arith;
    rest = (refl, refl, refl);
  }
  drain_from-Drains (suc n) portid w =
      let first = emptied-Drains portid w in
      let others = drain_from-Drains n (portid + 1) (emptied portid w) in
      record {
        kept = λ q. others.kept q ∙ first.kept q;
        lens = λ q. others.lens q ∙ ground (arith, first.lens q);
        rest = (
          others.rest.0 ∙ first.rest.0,
          others.rest.1 ∙ first.rest.1,
          others.rest.2 ∙ first.rest.2,
        );
      }

  -- The test by which `tx_burst_queue_drain` finds that the time is over.
  abbrev pub is_over : World P S → Bool
  is_over w = ltb cfg.drain_tsc ((cfg.driver.rdtsc w.time + 2 ^ 64 - w.prev_tsc) % 2 ^ 64)

  -- When the time is over, a round begins with empty buffers for all ports that are present; else all
  -- buffers stay. In both cases the packets of each port go out, or are freed, in the order in which
  -- they came, and none is lost.
  pub tx_burst_queue_drain-Drains :
      (w : World P S) → Drains (λ q. is_over w && ltb q cfg.nb_ports) w (tx_burst_queue_drain cfg w)
  unfolding tx_burst_queue_drain
  tx_burst_queue_drain-Drains w = elim (Bool-cases (is_over w)) [
    | inl over ↦
        let d = drain_from-Drains cfg.nb_ports 0 (record w { time = w.time + 1 }) in
        record {
          kept = λ q. rw over (d.kept q);
          lens = λ q. rw over (d.lens q ∙ ground arith);
          rest = rw over d.rest;
        }
    | inr early ↦ record {
      kept = λ q. rw early;
      lens = λ q. rw early;
      rest = rw early (refl, refl, refl);
    }
  ]

  -- Once the time is over, every packet that waited for one of the ports has gone out, or is freed.
  pub tx_burst_queue_drain_sends :
      (w : World P S) (q : ℕ)
      → is_over w ≡ true
      → q < cfg.nb_ports
      → fates_on q (tx_burst_queue_drain cfg w).fates ≡ trail cfg q w
  unfolding entries
  tx_burst_queue_drain_sends w q over present =
      let d = tx_burst_queue_drain-Drains w in
      let w' = tx_burst_queue_drain cfg w in
      let empty : (w'.tx_mbufs q).len ≡ 0 = d.lens q ∙ rw (over, lt→ltb q cfg.nb_ports present) in
      sym (append-nil _)
      ∙ subst (λ n. fates_on q w'.fates ++ entries (w'.tx_mbufs q).m_table 0 n ≡ trail cfg q w)
          empty (d.kept q)
