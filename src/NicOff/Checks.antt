-- ===== src/NicOff/Checks.antt =====
-- src/hardware_dep/dpdk/dpdk_nicoff.c: what the checks of a sent packet find.
use t4p4s_ma.Common.{
  if◌then◌else◌, sym, ℕ, zero, suc, ◌+◌, ◌-◌, ◌/◌, ◌≡◌, ◌<◌, ◌↔◌, refl, ap, ◌∙◌, arith, Bool, ◌&&◌,
  ◌||◌, not, some, List, [], ◌∷◌, ◌==◌, length, length-append, Bool-cases, Option-cases, inl, inr,
  min,
}
use t4p4s_ma.Memory.{Mem, load_bytes}
use t4p4s_ma.MainLoop.{◌>>=◌, t4p4s_broadcast_port, send_clone, send_packet}
use t4p4s_ma.MainLoop.Broadcast.{targets, send_clones, broadcast_packet_lem}
use t4p4s_ma.NicOff.{
  Text, Cmd, Packet, Switch, World, scan_byte, str2bytes, total_fake_byte_count, fake_bytes,
  wrong_bytes, get_wrong_byte_count, get_cmd, check_egress_port, check_byte_count,
  check_packet_contents, check_sent_packet, clone_packet, nic_off, port_count,
}

length-str2bytes : (t : Text) (bs : List ℕ) → str2bytes t ≡ some bs → length bs ≡ length t / 2
unfolding str2bytes
length-str2bytes [] bs h = ground arith
length-str2bytes (c ∷ []) bs h = ground arith
length-str2bytes (c ∷ d ∷ t) bs h = elim (Option-cases (scan_byte c d)) [
  | inl e ↦ cc (ap (λ o. o >>= (λ (b : ℕ). str2bytes t >>= (λ rest. some (b ∷ rest)))) e)
  | inr (b, e) ↦ elim (Option-cases (str2bytes t)) [
    | inl f ↦ cc (rw (e, f) at h)
    | inr (rest, f) ↦ ground (arith, length-str2bytes t rest f, rw (e, f) at h)
  ]
]

-- The count of the bytes in the texts is the number of bytes that are written.
pub total_fake_byte_count_lem :
    (texts : List Text) (bs : List ℕ)
    → fake_bytes texts ≡ some bs
    → total_fake_byte_count texts ≡ some (length bs)
unfolding fake_bytes total_fake_byte_count
total_fake_byte_count_lem [] bs h = cc
total_fake_byte_count_lem ([] ∷ texts) bs h = ground arith
total_fake_byte_count_lem ((c ∷ t) ∷ texts) bs h = elim (Option-cases (str2bytes (c ∷ t))) [
  | inl e ↦ cc (rw e at h)
  | inr (b, e) ↦ elim (Option-cases (fake_bytes texts)) [
    | inl f ↦ cc (rw (e, f) at h)
    | inr (rest, f) ↦
        rw (total_fake_byte_count_lem texts rest f)
          (ground (arith, length-str2bytes (c ∷ t) b e, length-append b rest, rw (e, f) at h))
  ]
]

-- No byte is wrong just when the packet's bytes are those expected.
pub wrong_bytes_lem :
    (bs : List ℕ) (m : Mem) (a : ℕ) → (wrong_bytes bs m a ≡ 0) ↔ (load_bytes m a (length bs) ≡ bs)
unfolding wrong_bytes load_bytes
wrong_bytes_lem [] m a = (λ _. refl, λ _. refl)
wrong_bytes_lem (b ∷ bs) m a =
    let (ih₁, ih₂) = wrong_bytes_lem bs m (a + 1) in
    (λ h. ground (arith, ih₁), λ h. ground (arith, ih₂))

-- Whether the packet is the one that the command expects.
abbrev pub is_good : ℕ → List ℕ → ℕ → Packet → Bool
is_good out_port outs egress_port pd =
    out_port == egress_port && (length outs == pd.pkt_len && wrong_bytes outs pd.bytes 0 == 0)

-- How many clones are sent of a packet for this port: a broadcast sends one to each enabled port but for
-- the ingress port, and one less than there are ports at most.
unfoldable pub clone_count : {S : Type 0} → Switch S → ℕ → ℕ → ℕ
clone_count sw e i =
    if e == t4p4s_broadcast_port
    then min (port_count - 1) (targets (nic_off sw []) sw.max_ethports 0 i)
    else 0

module _ {S : Type 0} (sw : Switch S) (steps : List Cmd) where
  -- What the checks leave behind.
  abbrev pub checked : Bool → World S → World S
  checked good w = record w {
    is_valid = w.is_valid && good;
    encountered_error = w.encountered_error || not (w.is_valid && good);
  }

  check_sent_packet_lem :
      (cmd : Cmd) (outs : List ℕ) (egress_port ingress_port : ℕ) (w : World S)
      → get_cmd sw steps w ≡ some cmd
      → fake_bytes cmd.out_texts ≡ some outs
      → check_sent_packet sw steps egress_port ingress_port w
        ≡ some (checked (is_good cmd.out_port outs egress_port w.pd) w)
  unfolding check_sent_packet check_egress_port check_byte_count check_packet_contents
      get_wrong_byte_count
  check_sent_packet_lem cmd outs e i w current expected =
      rw (current, total_fake_byte_count_lem cmd.out_texts outs expected, expected) (ground arith)

  checked_again : (good : Bool) (w : World S) → checked good (checked good w) ≡ checked good w
  checked_again good w = ground arith

  -- The world when so many clones were made.
  abbrev pub took : ℕ → World S → World S
  took k w = record w { free_mbufs = w.free_mbufs - k }

  took-zero : (w : World S) → took 0 w ≡ w
  took-zero w = let z : w.free_mbufs - 0 ≡ w.free_mbufs = omega arith in rw z refl

  took-suc : (k : ℕ) (w : World S) → took k (took 1 w) ≡ took (suc k) w
  took-suc k w = let e : w.free_mbufs - 1 - k ≡ w.free_mbufs - suc k = omega arith in rw e refl

  -- The check does not look at what it leaves behind.
  check_again :
      (cmd : Cmd) (outs : List ℕ) (e i : ℕ) (w : World S)
      → get_cmd sw steps w ≡ some cmd
      → fake_bytes cmd.out_texts ≡ some outs
      → check_sent_packet sw steps e i (checked (is_good cmd.out_port outs e w.pd) w)
        ≡ some (checked (is_good cmd.out_port outs e w.pd) w)
  unfolding get_cmd
  check_again cmd outs e i w current expected =
      let good = is_good cmd.out_port outs e w.pd in
      check_sent_packet_lem cmd outs e i (checked good w) current expected
      ∙ ap some (checked_again good w)

  send_clones_lem :
      (k : ℕ) (cmd : Cmd) (outs : List ℕ) (e i : ℕ) (w : World S)
      → get_cmd sw steps w ≡ some cmd
      → fake_bytes cmd.out_texts ≡ some outs
      → send_clones (nic_off sw steps) k e i (checked (is_good cmd.out_port outs e w.pd) w)
        ≡ some (checked (is_good cmd.out_port outs e w.pd) (took k w))
  unfolding send_clones send_clone nic_off clone_packet get_cmd
  send_clones_lem zero cmd outs e i w current expected =
      ap (λ v. some (checked (is_good cmd.out_port outs e w.pd) v)) (sym (took-zero w))
  send_clones_lem (suc k) cmd outs e i w current expected =
      rw (check_again cmd outs e i (took 1 w) current expected) (
        send_clones_lem k cmd outs e i (took 1 w) current expected
        ∙ ap (λ v. some (checked (is_good cmd.out_port outs e w.pd) v)) (took-suc k w))

  port_count_lem : port_count ≡ 4
  unfolding port_count
  port_count_lem = refl

  targets_lem : (n p i : ℕ) → targets (nic_off sw steps) n p i ≡ targets (nic_off sw []) n p i
  unfolding targets nic_off
  targets_lem zero p i = refl
  targets_lem (suc n) p i = rw (targets_lem n (p + 1) i) refl

  some_target :
      (m i : ℕ)
      → 1 < m
      → (k : ℕ) × (min (port_count - 1) (targets (nic_off sw steps) m 0 i) ≡ suc k)
  unfolding nic_off targets
  some_target zero i h = absurd (omega arith)
  some_target (suc zero) i h = absurd (omega arith)
  some_target (suc (suc n)) i h =
      let t = targets (nic_off sw steps) (suc (suc n)) 0 i in
      (min (port_count - 1) t - 1, ground (arith, port_count_lem))

  -- Whatever the port is, the packet is checked: a broadcast checks it for each of its clones, which take
  -- their buffers from the pool.
  pub send_packet_lem :
      (cmd : Cmd) (outs : List ℕ) (e i : ℕ) (w : World S)
      → 1 < sw.max_ethports
      → get_cmd sw steps w ≡ some cmd
      → fake_bytes cmd.out_texts ≡ some outs
      → send_packet (nic_off sw steps) e i w
        ≡ some (checked (is_good cmd.out_port outs e w.pd) (took (clone_count sw e i) w))
  unfolding send_packet send_clones send_clone nic_off clone_packet clone_count get_cmd
  send_packet_lem cmd outs e i w ports current expected = elim (Bool-cases (e == 100)) [
    | inl all ↦
        let (k, some_clone) = some_target sw.max_ethports i ports in
        rw
          (
            all,
            broadcast_packet_lem (nic_off sw steps) e i w,
            sym (targets_lem sw.max_ethports 0 i),
          )
          (rw some_clone (
            rw (check_sent_packet_lem cmd outs e i (took 1 w) current expected) (
              send_clones_lem k cmd outs e i (took 1 w) current expected
              ∙ ap (λ v. some (checked (is_good cmd.out_port outs e w.pd) v)) (took-suc k w))))
    | inr one ↦ rw one (
        check_sent_packet_lem cmd outs e i w current expected
        ∙ ap (λ v. some (checked (is_good cmd.out_port outs e w.pd) v)) (sym (took-zero w)))
  ]
