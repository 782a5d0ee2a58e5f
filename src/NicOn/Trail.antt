-- ===== src/NicOn/Trail.antt =====
-- src/hardware_dep/dpdk/dpdk_nicon.c: the packets of a port, from their way into its buffer to the
-- driver.
use t4p4s_ma.Common.{
  ℕ, ◌+◌, ◌-◌, ◌%◌, ◌≡◌, ◌<◌, refl, sym, ap, ap₂, ◌∙◌, subst, arith, Bool, true, false, some, List,
  [], ◌∷◌, ◌++◌, append-nil, append_assoc, ◌==◌, ==_iff, ==_self, lt→ltb, length, ◌⊎◌,
  if◌then◌else◌, Bool-cases, inl, inr,
}
use t4p4s_ma.NicOn.{
  transmitted, freed, Config, World, max_pkt_burst, entries, all_as, send_burst,
  add_packet_to_queue, set_len, dpdk_send_packet,
}
use t4p4s_ma.NicOn.Fates.{
  fates_on, fates_on-append, fates_on-transmitted, fates_on-freed, entries-zero, entries-add,
  entries-snoc, length-entries,
}

-- The two parts are those of one port.
either {ℓ} :
    {A : Type ℓ} (xs ys zs : List A) (b : Bool)
    → xs ++ ys ≡ zs
    → (if b then xs else []) ++ (if b then ys else []) ≡ (if b then zs else [])
either xs ys zs true h = h
either xs ys zs false h = refl

module _ {P S : Type 0} (cfg : Config P S) where
  -- What came of the port's packets, and behind it those that wait.
  abbrev pub trail : ℕ → World P S → List P
  trail q w = fates_on q w.fates ++ entries (w.tx_mbufs q).m_table 0 (w.tx_mbufs q).len

  pub send_burst_lem :
      (q n port : ℕ) (w : World P S)
      → fates_on q (send_burst cfg n port w).fates
        ≡ fates_on q w.fates ++ (if port == q then entries (w.tx_mbufs port).m_table 0 n else [])
  unfolding send_burst
  send_burst_lem q n port w =
      let table = (w.tx_mbufs port).m_table in
      let ret = cfg.driver.tx_burst w.time port n in
      let taken = cfg.driver.tx_burst_le w.time port n in
      let z : 0 + ret ≡ ret = omega arith in
      let all : ret + (n - ret) ≡ n = omega arith in
      let whole = entries-add table 0 ret (n - ret) in
      fates_on-append q w.fates _
      ∙ ap (◌++◌ (fates_on q w.fates)) (
          fates_on-append q (all_as (transmitted port) (entries table 0 ret)) _
          ∙ ap₂ ◌++◌ (fates_on-transmitted q port (entries table 0 ret))
              (fates_on-freed q port (entries table ret (n - ret)))
          ∙ either _ _ _ (port == q) (rw (z, all) at whole))

  pub record IsValid (w : World P S) : Type 0 where
    -- there is room in each buffer
    pub room : (q : ℕ) → (w.tx_mbufs q).len < max_pkt_burst

  -- The packet in the buffer, whose length is not changed yet.
  abbrev with_packet : P → ℕ → World P S → World P S
  with_packet mbuf port w = (add_packet_to_queue cfg mbuf port w).1

  -- A full buffer goes to the driver.
  trail_full_self :
      (n : ℕ) (mbuf : P) (port : ℕ) (w : World P S)
      → (w.tx_mbufs port).len + 1 ≡ n
      → trail port (set_len cfg port 0 (send_burst cfg n port (with_packet mbuf port w)))
        ≡ trail port w ++ mbuf ∷ []
  unfolding add_packet_to_queue
  trail_full_self n mbuf port w full =
      let b = w.tx_mbufs port in
      let queued = rw full at (entries-snoc b.m_table mbuf b.len) in
      rw (send_burst_lem port n port (with_packet mbuf port w), ==_self port, entries-zero)
        (simp (queued, append-nil, append_assoc))

  trail_full_ne :
      (n : ℕ) (mbuf : P) (port : ℕ) (w : World P S) (q : ℕ)
      → port == q ≡ false
      → trail q (set_len cfg port 0 (send_burst cfg n port (with_packet mbuf port w))) ≡ trail q w
  unfolding add_packet_to_queue send_burst
  trail_full_ne n mbuf port w q other =
      rw (send_burst_lem q n port (with_packet mbuf port w), other) (simp append-nil)

  trail_room_self :
      (mbuf : P) (port : ℕ) (w : World P S)
      → trail port (set_len cfg port ((w.tx_mbufs port).len + 1) (with_packet mbuf port w))
        ≡ trail port w ++ mbuf ∷ []
  unfolding add_packet_to_queue
  trail_room_self mbuf port w =
      let b = w.tx_mbufs port in rw (==_self port) (simp (entries-snoc, append_assoc))

  trail_room_ne :
      (mbuf : P) (port : ℕ) (w : World P S) (q : ℕ)
      → port == q ≡ false
      → trail q (set_len cfg port ((w.tx_mbufs port).len + 1) (with_packet mbuf port w)) ≡ trail q w
  unfolding add_packet_to_queue
  trail_room_ne mbuf port w q other = rw other

  -- What holds of the packet's port, and what of any other.
  by_port :
      (port : ℕ) (mbuf : P) (w w' : World P S)
      → trail port w' ≡ trail port w ++ mbuf ∷ []
      → ((q : ℕ) → port == q ≡ false → trail q w' ≡ trail q w)
      → (q : ℕ) → trail q w' ≡ trail q w ++ (if port == q then mbuf ∷ [] else [])
  by_port port mbuf w w' own others q = elim (Bool-cases (port == q)) [
    | inl same ↦
        rw same
          (subst (λ (p : ℕ). trail p w' ≡ trail p w ++ mbuf ∷ []) ((==_iff port q).0 same) own)
    | inr other ↦ rw other (others q other ∙ sym (append-nil _))
  ]

  -- What became of the packets when the new one was put behind those in the buffer: nothing, while
  -- there is room; or the buffer was full, the packets that the driver takes went out, from the first
  -- on, and just the others were freed.
  abbrev pub Bursts : P → ℕ → World P S → World P S → Type 0
  Bursts mbuf port w w' =
      let b = w.tx_mbufs port in
      ((b.len + 1 < max_pkt_burst) × (w'.fates ≡ w.fates) × ((w'.tx_mbufs port).len ≡ b.len + 1))
      ⊎ ((b.len + 1 ≡ max_pkt_burst)
          × ((w'.tx_mbufs port).len ≡ 0)
          × ((out : List P) × (back : List P) × (out ++ back
                ≡ entries b.m_table 0 b.len ++ mbuf ∷ [])
              × (length out ≡ cfg.driver.tx_burst w.time port max_pkt_burst)
              × (w'.fates
                  ≡ w.fates ++ (all_as (transmitted port) out ++ all_as (freed port) back))))

  Bursts-full :
      (mbuf : P) (port : ℕ) (w : World P S)
      → (w.tx_mbufs port).len + 1 ≡ 32
      → Bursts mbuf port w (set_len cfg port 0 (send_burst cfg 32 port (with_packet mbuf port w)))
  unfolding add_packet_to_queue send_burst
  Bursts-full mbuf port w full =
      let b = w.tx_mbufs port in
      let table = λ (i : ℕ). if i == b.len then mbuf else b.m_table i in
      let ret = cfg.driver.tx_burst w.time port 32 in
      let taken = cfg.driver.tx_burst_le w.time port 32 in
      let z : 0 + ret ≡ ret = omega arith in
      let all : ret + (32 - ret) ≡ 32 = omega arith in
      let whole = rw (z, all) at (entries-add table 0 ret (32 - ret)) in
      let queued = rw full at (entries-snoc b.m_table mbuf b.len) in
      inr (
        full,
        rw (==_self port),
        (
          entries table 0 ret,
          entries table ret (32 - ret),
          whole ∙ queued,
          length-entries table 0 ret,
          rw (==_self port),
        ),
      )

  Bursts-room :
      (mbuf : P) (port : ℕ) (w : World P S)
      → (w.tx_mbufs port).len + 1 < 32
      → Bursts mbuf port w (set_len cfg port ((w.tx_mbufs port).len + 1) (with_packet mbuf port w))
  unfolding add_packet_to_queue
  Bursts-room mbuf port w room = inl (room, refl, rw (==_self port))

  -- A packet that is sent, on a port that there can be, with room in each buffer: it is behind those
  -- that came before it on its port, and on no other, and each buffer has room again. While the port's
  -- buffer is not full nothing happens to them; a full buffer goes to the driver, what it takes is
  -- transmitted, in order, and just what it does not take is freed.
  pub dpdk_send_packet_lem :
      (mbuf : P) (port : ℕ) (w : World P S)
      → IsValid w
      → port < cfg.max_ethports
      → (w' : World P S) × (dpdk_send_packet cfg mbuf port w ≡ some w')
        × IsValid w'
        × ((q : ℕ) → trail q w' ≡ trail q w ++ (if port == q then mbuf ∷ [] else []))
        × (w'.pkts_burst ≡ w.pkts_burst)
        × Bursts mbuf port w w'
  unfolding dpdk_send_packet add_packet_to_queue send_burst
  dpdk_send_packet_lem mbuf port w v h = elim (Bool-cases ((w.tx_mbufs port).len + 1 == 32)) [
    | inl full ↦
        let e = (==_iff ((w.tx_mbufs port).len + 1) 32).0 full in
        let w' = set_len cfg port 0 (send_burst cfg 32 port (with_packet mbuf port w)) in
        (
          w',
          (rw (e, lt→ltb port cfg.max_ethports h)),
          record { room = (λ q. ground (arith, v.room q)) },
          by_port port mbuf w w' (trail_full_self 32 mbuf port w e) (trail_full_ne 32 mbuf port w),
          refl,
          Bursts-full mbuf port w e,
        )
    | inr room ↦
        let w' = set_len cfg port ((w.tx_mbufs port).len + 1) (with_packet mbuf port w) in
        (
          w',
          (let small : ((w.tx_mbufs port).len + 1) % 65536 ≡ (w.tx_mbufs port).len + 1 =
                omega (arith, v.room port) in
              rw (small, room, lt→ltb port cfg.max_ethports h)),
          record { room = (λ q. ground (arith, v.room q, v.room port)) },
          by_port port mbuf w w' (trail_room_self mbuf port w) (trail_room_ne mbuf port w),
          refl,
          Bursts-room mbuf port w (ground (arith, v.room port, room)),
        )
  ]
