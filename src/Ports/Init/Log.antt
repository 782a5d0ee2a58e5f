-- ===== src/Ports/Init/Log.antt =====
-- src/hardware_dep/dpdk/data_plane/dpdk_lib_init_hw.c: which calls each loop of dpdk_init_nic makes.
use t4p4s_ma.Common.{
  ℕ, zero, suc, ◌+◌, ◌%◌, ◌^◌, ◌≡◌, ◌<◌, ◌≤◌, ◌⊎◌, inl, inr, refl, sym, ap, ◌∙◌, subst, arith, true,
  false, Option, some, List, [], ◌∷◌, ◌++◌, append-nil, append_assoc, ◌==◌, ==_iff, Bool-cases,
}
use t4p4s_ma.MainLoop.{◌>>=◌}
use t4p4s_ma.Ports.{is_port_disabled, get_port_n_rx_queues}
use t4p4s_ma.Ports.Init.{
  Call, eth_dev_configure, Machine, Setup, min, call, init_mbuf_pool, init_pools, init_tx_on_lcore,
  init_tx_queues, dpdk_init_port, init_ports,
}

abbrev pub In : {A : Type 0} → A → List A → Type 0
In x [] = ⊥
In x (y ∷ ys) = (x ≡ y) ⊎ In x ys

pub In-append_left : {A : Type 0} (x : A) (xs ys : List A) → In x xs → In x (xs ++ ys)
In-append_left x [] ys h = absurd h
In-append_left x (y ∷ xs) ys (inl e) = inl e
In-append_left x (y ∷ xs) ys (inr h) = inr (In-append_left x xs ys h)

pub In-append_right : {A : Type 0} (x : A) (xs ys : List A) → In x ys → In x (xs ++ ys)
In-append_right x [] ys h = h
In-append_right x (y ∷ xs) ys h = inr (In-append_right x xs ys h)

-- A computation returns, and the calls that it adds are such.
pub record Ran (s : Setup) (o : Option Setup) (IsSuch : List Call → Type 0) : Type 0 where
  pub final : Setup
  pub ran : o ≡ some final
  pub added : List Call
  pub calls : final.calls ≡ s.calls ++ added
  pub such : IsSuch added

-- Nothing is claimed of the calls.
abbrev pub Any : List Call → Type 0
Any cs = Unit

pub Ran-some :
    (s s' : Setup) (IsSuch : List Call → Type 0)
    → s'.calls ≡ s.calls
    → IsSuch []
    → Ran s (some s') IsSuch
Ran-some s s' IsSuch same such = record {
  final = s';
  ran = refl;
  added = [];
  calls = same ∙ sym (append-nil s.calls);
  such = such;
}

pub Ran-bind :
    (s : Setup) (o : Option Setup) (f : Setup → Option Setup) (First Then Both : List Call → Type 0)
    → Ran s o First
    → ((s' : Setup) → Ran s' (f s') Then)
    → ((xs ys : List Call) → First xs → Then ys → Both (xs ++ ys))
    → Ran s (o >>= f) Both
Ran-bind s o f First Then Both a b both =
    let r = b a.final in
    record {
      final = r.final;
      ran = ap (λ q. q >>= f) a.ran ∙ r.ran;
      added = a.added ++ r.added;
      calls = r.calls ∙ ap (λ q. q ++ r.added) a.calls ∙ append_assoc s.calls a.added r.added;
      such = both a.added r.added a.such r.such;
    }

module _ (hw : Machine) (works : (c : Call) → hw.succeeds c ≡ true) where
  pub call-Ran :
      (c : Call) (s s' : Setup) (IsSuch : List Call → Type 0)
      → s'.calls ≡ s.calls
      → IsSuch (c ∷ [])
      → Ran s (call hw c s') IsSuch
  unfolding call
  call-Ran c s s' IsSuch same such = record {
    final = record s' { calls = s'.calls ++ c ∷ [] };
    ran = rw (works c);
    added = c ∷ [];
    calls = ap (λ q. q ++ c ∷ []) same;
    such = such;
  }

  init_mbuf_pool-Ran : (socketid : ℕ) (s : Setup) → Ran s (init_mbuf_pool hw socketid s) Any
  unfolding init_mbuf_pool
  init_mbuf_pool-Ran socketid s = elim (Bool-cases (s.pktmbuf_pool socketid)) [
    | inl e ↦ rw e (Ran-some s s Any refl tt)
    | inr e ↦ rw e (call-Ran _ s _ Any refl tt)
  ]

  pub init_pools-Ran : (n lcore_id : ℕ) (s : Setup) → Ran s (init_pools hw n lcore_id s) Any
  unfolding init_pools
  init_pools-Ran zero lcore_id s = Ran-some s s Any refl tt
  init_pools-Ran (suc n) lcore_id s =
      let rest = λ (s' : Setup). init_pools-Ran n (lcore_id + 1) s' in
      elim (Bool-cases (hw.lcore_is_enabled lcore_id)) [
        | inl e ↦ rw e (Ran-bind s _ _ Any Any Any (init_mbuf_pool-Ran _ s) rest (λ xs ys _ _. tt))
        | inr e ↦
            rw e (Ran-bind s _ _ Any Any Any (Ran-some s s Any refl tt) rest (λ xs ys _ _. tt))
      ]

  init_tx_on_lcore-Ran :
      (lcore_id portid queueid : ℕ) (s : Setup)
      → Ran s (init_tx_on_lcore hw lcore_id portid queueid s) Any
  unfolding init_tx_on_lcore
  init_tx_on_lcore-Ran lcore_id portid queueid s =
      Ran-bind s _ _ Any Any Any (call-Ran _ s s Any refl tt) (λ s'. Ran-some s' _ Any refl tt)
        (λ xs ys _ _. tt)

  init_tx_queues-Ran :
      (n lcore_id portid queueid : ℕ) (s : Setup)
      → Ran s (init_tx_queues hw n lcore_id portid queueid s) Any
  unfolding init_tx_queues
  init_tx_queues-Ran zero lcore_id portid queueid s = Ran-some s s Any refl tt
  init_tx_queues-Ran (suc n) lcore_id portid queueid s =
      elim (Bool-cases (hw.lcore_is_enabled lcore_id)) [
        | inl e ↦ rw e (
            Ran-bind s _ _ Any Any Any (init_tx_on_lcore-Ran lcore_id portid queueid s)
              (λ s'. init_tx_queues-Ran n (lcore_id + 1) portid ((queueid + 1) % 2 ^ 16) s')
              (λ xs ys _ _. tt))
        | inr e ↦ rw e (init_tx_queues-Ran n (lcore_id + 1) portid queueid s)
      ]

  -- The call that configures a port.
  abbrev pub configure : ℕ → Call
  configure portid =
      eth_dev_configure portid (get_port_n_rx_queues portid hw.lcore_params)
        (min hw.lcore_count hw.max_ethports % 2 ^ 16)

  abbrev Configured : ℕ → List Call → Type 0
  Configured portid cs =
      is_port_disabled hw.enabled_port_mask portid ≡ false → In (configure portid) cs

  dpdk_init_port-Ran :
      (portid : ℕ) (s : Setup) → Ran s (dpdk_init_port hw portid s) (Configured portid)
  unfolding dpdk_init_port
  dpdk_init_port-Ran portid s = elim (Bool-cases (is_port_disabled hw.enabled_port_mask portid)) [
    | inl e ↦ rw e (Ran-some s s _ refl (λ on. cc on))
    | inr e ↦ rw e (
        Ran-bind s _ _ (In (configure portid)) Any _
          (call-Ran (configure portid) s s (In (configure portid)) refl (inl refl))
          (λ s'. init_tx_queues-Ran hw.max_lcore 0 portid 0 s')
          (λ xs ys h _ _. In-append_left (configure portid) xs ys h))
  ]

  abbrev pub AllConfigured : ℕ → ℕ → List Call → Type 0
  AllConfigured n portid cs = (q : ℕ) → portid ≤ q → q < portid + n → Configured q cs

  pub init_ports-Ran :
      (n portid : ℕ) (s : Setup) → Ran s (init_ports hw n portid s) (AllConfigured n portid)
  unfolding init_ports
  init_ports-Ran zero portid s = Ran-some s s _ refl (λ q le lt. absurd (omega (arith, le, lt)))
  init_ports-Ran (suc n) portid s =
      Ran-bind s _ _ (Configured portid) (AllConfigured n (portid + 1)) _
        (dpdk_init_port-Ran portid s) (λ s'. init_ports-Ran n (portid + 1) s')
        (λ xs ys h hs q le lt on. elim (Bool-cases (portid == q)) [
          | inl e ↦
              let p = (==_iff portid q).0 e in
              In-append_left (configure q) xs ys (subst (λ a. Configured a xs) p h on)
          | inr e ↦
              In-append_right (configure q) xs ys
                (hs q (ground (arith, e, le)) (omega (arith, lt)) on)
        ])
