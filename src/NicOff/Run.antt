-- ===== src/NicOff/Run.antt =====
-- src/hardware_dep/dpdk/dpdk_nicoff.c in the loop of main.c: a test case from its first command to the
-- one that ends it.
use t4p4s_ma.Common.{
  ℕ, ◌+◌, ◌-◌, ◌≡◌, ◌<◌, ◌≤◌, inl, inr, ◌∙◌, arith, Bool, true, false, ◌&&◌, ◌||◌, not, some, List,
  length, get_elem?, if◌then◌else◌, Bool-cases,
}
use t4p4s_ma.Memory.{store_bytes}
use t4p4s_ma.MainLoop.{do_single_tx, process, round}
use t4p4s_ma.MainLoop.Tx.{do_single_tx_dropped, do_single_tx_kept}
use t4p4s_ma.NicOff.{
  Text, Cmd, fake_pkt, fake_setdef, Packet, Switch, World, fake_bytes, get_cmd, has_packet,
  free_packet, nic_off, receive_packet, main_loop_post_single_rx,
}
use t4p4s_ma.NicOff.Checks.{
  total_fake_byte_count_lem, is_good, clone_count, checked, took, send_packet_lem,
}

-- What a command says: a packet with its port, and the port and the bytes expected; a pause; or a
-- default action to be set.
pub data Step : Type 0 where
  packet : List ℕ → ℕ → ℕ → List ℕ → Step
  pause : Step
  set_default : ℕ → Text → Step

module _ {S : Type 0} (sw : Switch S) where
  -- The command is a well-formed way to say it: its texts are hex numbers and end with an empty one,
  -- and the packet fits in front of the data of a buffer.
  abbrev pub Says : Cmd → Step → Type 0
  Says cmd (packet ins in_port out_port outs) =
      (cmd.action ≡ fake_pkt)
      × (has_packet cmd.in_texts ≡ some true)
      × (fake_bytes cmd.in_texts ≡ some ins)
      × (length ins ≤ sw.headroom)
      × (cmd.in_port ≡ in_port)
      × (cmd.out_port ≡ out_port)
      × (fake_bytes cmd.out_texts ≡ some outs)
  Says cmd pause = (cmd.action ≡ fake_pkt) × (has_packet cmd.in_texts ≡ some false)
  Says cmd (set_default ptr arg) =
      (cmd.action ≡ fake_setdef) × (cmd.ptr ≡ ptr) × (get_elem? cmd.in_texts 1 ≡ some arg)

  -- The packet descriptor with a packet that was received.
  abbrev pub received : List ℕ → Packet → Packet
  received ins pd = record pd { pkt_len = length ins; bytes = store_bytes sw.fresh 0 ins }

  -- The switch and its packet descriptor behind a step.
  abbrev pub after : Step → S × Packet → S × Packet
  after (packet ins in_port out_port outs) (s, pd) = sw.handle_packet s (received ins pd) in_port
  after pause r = r
  after (set_default ptr arg) (s, pd) = (sw.setdef ptr arg s, pd)

  -- How many packets the step gives the switch.
  abbrev pub given : Step → ℕ
  given (packet ins in_port out_port outs) = 1
  given pause = 0
  given (set_default ptr arg) = 0

  -- How many buffers the step takes, when the switch now has this descriptor: one for its packet, and
  -- one for each clone that is sent.
  abbrev pub needs : Step → Packet → ℕ
  needs (packet ins in_port out_port outs) pd =
      1 + (if pd.drop then 0 else clone_count sw pd.egress_port pd.ingress_port)
  needs pause pd = 0
  needs (set_default ptr arg) pd = 0

  -- Whether the switch, which now has this descriptor, did what the step expects.
  abbrev pub step_passes : Step → Packet → Bool
  step_passes (packet ins in_port out_port outs) pd =
      pd.drop || is_good out_port outs pd.egress_port pd
  step_passes pause pd = true
  step_passes (set_default ptr arg) pd = true

  abbrev pub sent : Step → Packet → Bool
  sent (packet ins in_port out_port outs) pd = not pd.drop
  sent pause pd = false
  sent (set_default ptr arg) pd = false

  module _ (steps : List Cmd) where
    -- The state behind the command.
    abbrev pub next : Step → World S → World S
    next st w =
        let r = after st (w.switch, w.pd) in
        let valid = w.is_valid && step_passes st r.1 in
        record {
          is_valid = valid;
          idx = w.idx + 1;
          pkt_idx = w.pkt_idx + given st;
          pd = r.1;
          encountered_error =
              (if sent st r.1 then w.encountered_error || not valid else w.encountered_error);
          free_mbufs = w.free_mbufs - needs st r.1;
          switch = r.0;
        }

    do_single_tx_lem :
        (cmd : Cmd) (outs : List ℕ) (w : World S)
        → 1 < sw.max_ethports
        → get_cmd sw steps w ≡ some cmd
        → fake_bytes cmd.out_texts ≡ some outs
        → do_single_tx (nic_off sw steps) w
          ≡ some (
              if w.pd.drop
              then w
              else checked sw steps
                  (is_good cmd.out_port outs w.pd.egress_port w.pd)
                  (took sw steps (clone_count sw w.pd.egress_port w.pd.ingress_port) w))
    unfolding nic_off free_packet
    do_single_tx_lem cmd outs w ports current expected = elim (Bool-cases w.pd.drop) [
      | inl dropped ↦ do_single_tx_dropped (nic_off sw steps) w dropped ∙ simp dropped
      | inr kept ↦
          do_single_tx_kept (nic_off sw steps) w kept
          ∙ send_packet_lem sw steps cmd outs w.pd.egress_port w.pd.ingress_port w ports current
              expected
          ∙ simp kept
    ]

    -- What `receive_packet` makes of a packet.
    abbrev received_world : List ℕ → World S → World S
    received_world ins w = record w { free_mbufs = w.free_mbufs - 1; pd = received ins w.pd }

    receive_packet_lem :
        (cmd : Cmd) (ins : List ℕ) (k : ℕ) (w : World S)
        → get_elem? steps w.idx ≡ some cmd
        → cmd.action ≡ fake_pkt
        → has_packet cmd.in_texts ≡ some true
        → fake_bytes cmd.in_texts ≡ some ins
        → length ins ≤ sw.headroom
        → 1 ≤ w.free_mbufs
        → receive_packet sw steps k w ≡ some (true, received_world ins w)
    unfolding receive_packet
    receive_packet_lem cmd ins k w current pkt some_bytes reads fits room =
        rw (current, pkt, some_bytes, total_fake_byte_count_lem cmd.in_texts ins reads, reads)
          (ground arith)

    process_lem :
        (cmd : Cmd) (outs : List ℕ) (w : World S)
        → 1 < sw.max_ethports
        → get_elem? steps w.idx ≡ some cmd
        → cmd.action ≡ fake_pkt
        → fake_bytes cmd.out_texts ≡ some outs
        → process (nic_off sw steps) 0 w
          ≡ do_single_tx (nic_off sw steps) ((nic_off sw steps).handle_packet cmd.in_port w)
    unfolding process nic_off
    process_lem cmd outs w ports current pkt expected = rw (current, pkt)

    pub round_lem :
        (cmd : Cmd) (st : Step) (w : World S)
        → 1 < sw.max_ethports
        → get_elem? steps w.idx ≡ some cmd
        → Says cmd st
        → needs st (after st (w.switch, w.pd)).1 ≤ w.free_mbufs
        → round (nic_off sw steps) w ≡ some (next st w)
    unfolding round nic_off receive_packet main_loop_post_single_rx
    round_lem cmd (packet ins in_port out_port outs) w ports current
          (is_pkt, some_bytes, reads, fits, port, out, expected) room =
        let w₁ = received_world ins w in
        let w₂ = (nic_off sw steps).handle_packet cmd.in_port w₁ in
        rw
          (receive_packet_lem cmd ins 0 w current is_pkt some_bytes reads fits
            (omega (arith, room)))
          (rw (process_lem cmd outs w₁ ports current is_pkt expected)
            (rw (do_single_tx_lem cmd outs w₂ ports current expected) (ground arith)))
    round_lem cmd pause w ports current (is_pkt, no_bytes) room = ground arith
    round_lem cmd (set_default ptr arg) w ports current (is_setdef, p, a) room = ground arith
