-- ===== src/MainLoop/Broadcast.antt =====
-- src/hardware_dep/dpdk/main.c: how many packets a broadcast sends, and on which port.
use t4p4s_ma.Common.{
  ℕ, zero, suc, ◌+◌, ◌-◌, ◌≡◌, ap, fun_ext, arith, true, false, Option, some, ltb, ◌==◌, ltb→lt,
  if◌then◌else◌, Bool-cases, inl, inr, min,
}
use t4p4s_ma.MainLoop.{Nic, ◌>>=◌, is_port_disabled, send_clone, broadcast_from, broadcast_packet}

module _ {P W : Type 0} (nic : Nic P W) where
  -- The enabled ports but for the ingress port, among `n` from `portidx` on.
  unfoldable pub targets : ℕ → ℕ → ℕ → ℕ
  targets zero portidx ingress_port = 0
  targets (suc n) portidx ingress_port =
      (if portidx == ingress_port
        then 0
        else if is_port_disabled nic.port_mask portidx
        then 0
        else 1)
      + targets n (portidx + 1) ingress_port

  -- So many clones of the packet are sent, one after the other.
  unfoldable pub send_clones : ℕ → ℕ → ℕ → W → Option W
  send_clones zero egress_port ingress_port w = some w
  send_clones (suc k) egress_port ingress_port w =
      send_clone nic egress_port ingress_port w >>= send_clones k egress_port ingress_port

  abbrev left : ℕ → ℕ → ℕ → ℕ → ℕ
  left n portidx nb_port ingress_port =
      min (nic.port_count - 1 - nb_port) (targets n portidx ingress_port)

  sent :
      (nb_port t : ℕ)
      → ltb (nb_port + 1) nic.port_count ≡ true
      → min (nic.port_count - 1 - nb_port) (1 + t)
        ≡ suc (min (nic.port_count - 1 - (nb_port + 1)) t)
  sent nb_port t more = omega (arith, ltb→lt (nb_port + 1) nic.port_count more)

  enough :
      (nb_port t : ℕ)
      → ltb (nb_port + 1) nic.port_count ≡ false
      → min (nic.port_count - 1 - nb_port) t ≡ 0
  enough nb_port t no_more = ground arith

  broadcast_from_lem :
      (n portidx nb_port egress_port ingress_port : ℕ) (w : W)
      → broadcast_from nic n portidx nb_port egress_port ingress_port w
        ≡ send_clones (left n portidx nb_port ingress_port) egress_port ingress_port w
  unfolding broadcast_from targets send_clones
  broadcast_from_lem zero portidx nb_port e i w =
      let none_left : min (nic.port_count - 1 - nb_port) 0 ≡ 0 = omega arith in rw none_left
  broadcast_from_lem (suc n) portidx nb_port e i w =
      let skipped = broadcast_from_lem n (portidx + 1) nb_port e i w in
      let t = targets n (portidx + 1) i in
      let z : 0 + t ≡ t = omega arith in
      elim (Bool-cases (ltb (nb_port + 1) nic.port_count)) [
        | inl more ↦ elim (Bool-cases (portidx == i)) [
          | inl same ↦ rw (more, same, z) skipped
          | inr other ↦ elim (Bool-cases (is_port_disabled nic.port_mask portidx)) [
            | inl off ↦ rw (more, other, off, z) skipped
            | inr on ↦
                rw (more, other, on, sent nb_port t more)
                  (ap (◌>>=◌ (send_clone nic e i w))
                    (fun_ext (broadcast_from_lem n (portidx + 1) (nb_port + 1) e i)))
          ]
        ]
        | inr no_more ↦ rw (no_more, enough nb_port _ no_more)
      ]

  -- A broadcast sends one clone of the packet after the other: as many as there are enabled ports
  -- other than the ingress port, but one less than the number of ports at most.
  pub broadcast_packet_lem :
      (egress_port ingress_port : ℕ) (w : W)
      → broadcast_packet nic egress_port ingress_port w
        ≡ send_clones
            (min (nic.port_count - 1) (targets nic.max_ethports 0 ingress_port))
            egress_port
            ingress_port
            w
  unfolding broadcast_packet
  broadcast_packet_lem e i w =
      let z : nic.port_count - 1 - 0 ≡ nic.port_count - 1 = omega arith in
      rw z at (broadcast_from_lem nic.max_ethports 0 0 e i w)
