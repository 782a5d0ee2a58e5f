-- ===== src/Ports/Init/Params.antt =====
-- src/hardware_dep/dpdk/data_plane/dpdk_lib_init_hw.c: what the checks say of each parameter, and
-- where its queue is listed.
use t4p4s_ma.Common.{
  ℕ, zero, suc, ◌+◌, ◌≡◌, ◌<◌, ◌≤◌, inl, inr, refl, sym, ap, subst, arith, Bool, true, false, List,
  [], ◌∷◌, leb, ◌==◌, ==_iff, pos, Bool-cases,
}
use t4p4s_ma.Ports.{LcoreParams, RxQueue, check_lcore_params, is_port_disabled, check_port_config}
use t4p4s_ma.Ports.Queues.{queues_of, AllBelow}
use t4p4s_ma.Ports.Cores.{listed, given}
use t4p4s_ma.Ports.Init.Log.{In}

-- The queue of a parameter.
abbrev pub queue : LcoreParams → RxQueue
queue p = record { port_id = p.port_id; queue_id = p.queue_id }

pub check_lcore_params-In :
    (is_enabled : ℕ → Bool) (p : LcoreParams) (ps : List LcoreParams)
    → check_lcore_params is_enabled ps ≡ pos 0
    → In p ps
    → (p.queue_id < 128) × (is_enabled p.lcore_id ≡ true)
unfolding check_lcore_params
check_lcore_params-In is_enabled p [] h i = absurd i
check_lcore_params-In is_enabled p (q ∷ ps) h i = elim (Bool-cases (leb 128 q.queue_id)) [
  | inl big ↦ cc (rw big at h)
  | inr small ↦ elim (Bool-cases (is_enabled q.lcore_id)) [
    | inr off ↦ cc (rw (small, off) at h)
    | inl on ↦ elim i [
      | inl e ↦
          subst (λ (a : LcoreParams). (a.queue_id < 128) × (is_enabled a.lcore_id ≡ true)) (sym e)
            (ground arith, on)
      | inr later ↦ check_lcore_params-In is_enabled p ps (rw (small, on) at h) later
    ]
  ]
]

pub check_port_config-In :
    (mask nb_ports : ℕ) (p : LcoreParams) (ps : List LcoreParams)
    → check_port_config mask nb_ports ps ≡ true
    → In p ps
    → (is_port_disabled mask p.port_id ≡ false) × (p.port_id < nb_ports)
unfolding check_port_config
check_port_config-In mask nb_ports p [] h i = absurd i
check_port_config-In mask nb_ports p (q ∷ ps) h i =
    elim (Bool-cases (is_port_disabled mask q.port_id)) [
      | inl off ↦ cc (rw off at h)
      | inr on ↦ elim (Bool-cases (leb nb_ports q.port_id)) [
        | inl big ↦ cc (rw (on, big) at h)
        | inr small ↦ elim i [
          | inl e ↦
              subst
                (λ (a : LcoreParams).
                  (is_port_disabled mask a.port_id ≡ false) × (a.port_id < nb_ports))
                (sym e) (on, ground arith)
          | inr later ↦ check_port_config-In mask nb_ports p ps (rw (on, small) at h) later
        ]
      ]
    ]

pub AllBelow-In :
    (b : ℕ) (p : LcoreParams) (ps : List LcoreParams)
    → AllBelow b (queues_of p.port_id ps)
    → In p ps
    → p.queue_id < b
AllBelow-In b p [] h i = absurd i
AllBelow-In b p (q ∷ ps) h (inl e) =
    let same : (q.port_id == p.port_id) ≡ true =
      (==_iff q.port_id p.port_id).1 (ap (λ (a : LcoreParams). a.port_id) (sym e)) in
    subst (λ (a : LcoreParams). a.queue_id < b) (sym e) ((rw same at h).0)
AllBelow-In b p (q ∷ ps) h (inr i) = elim (Bool-cases (q.port_id == p.port_id)) [
  | inl e ↦ AllBelow-In b p ps (rw e at h).1 i
  | inr e ↦ AllBelow-In b p ps (rw e at h) i
]

pub AllBelow-queues_of :
    (b port : ℕ) (ps : List LcoreParams)
    → ((p : LcoreParams) → In p ps → p.queue_id < b)
    → AllBelow b (queues_of port ps)
AllBelow-queues_of b port [] h = tt
AllBelow-queues_of b port (q ∷ ps) h =
    let rest = AllBelow-queues_of b port ps (λ p i. h p (inr i)) in
    elim (Bool-cases (q.port_id == port)) [
      | inl e ↦ rw e (h q (inl refl), rest)
      | inr e ↦ rw e rest
    ]

pub given-In :
    (p : LcoreParams) (ps : List LcoreParams) → In p ps → In (queue p) (given p.lcore_id ps)
given-In p [] i = absurd i
given-In p (q ∷ ps) (inl e) =
    let same : (q.lcore_id == p.lcore_id) ≡ true =
      (==_iff q.lcore_id p.lcore_id).1 (ap (λ (a : LcoreParams). a.lcore_id) (sym e)) in
    rw same (inl (ap queue e))
given-In p (q ∷ ps) (inr i) = elim (Bool-cases (q.lcore_id == p.lcore_id)) [
  | inl e ↦ rw e (inr (given-In p ps i))
  | inr e ↦ rw e (given-In p ps i)
]

pub listed-In :
    (f : ℕ → RxQueue) (i n : ℕ) (r : RxQueue)
    → In r (listed f i n)
    → (k : ℕ) × (i ≤ k) × (k < i + n) × (r ≡ f k)
listed-In f i zero r h = absurd h
listed-In f i (suc n) r (inl e) = (i, omega arith, omega arith, e)
listed-In f i (suc n) r (inr h) =
    let (k, le, lt, e) = listed-In f (i + 1) n r h in (k, omega (arith, le), omega (arith, lt), e)
