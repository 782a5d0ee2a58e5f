-- ===== src/Ports/Cores.antt =====
-- src/hardware_dep/dpdk/data_plane/dpdk_lib_init_hw.c: the queues that each core reads.
use t4p4s_ma.Common.{
  ℕ, zero, suc, ◌+◌, ◌≡◌, ◌<◌, ◌≤◌, ◌⊎◌, inl, inr, refl, sym, ap, ap₂, ◌∙◌, subst, arith, List, [],
  ◌∷◌, ◌++◌, append-nil, append_assoc, leb, leb→le, ◌==◌, ==_iff, ==_ne, ==_self, length,
  length-append, ℤ, pos, negsuc, if◌then◌else◌, Bool-cases,
}
use t4p4s_ma.Ports.{
  LcoreParams, RxQueue, Confs, max_rx_queue_per_lcore, add_queue, init_lcore_rx_queues,
}

-- The queues of a core in its configuration.
abbrev pub listed : (ℕ → RxQueue) → ℕ → ℕ → List RxQueue
listed list i zero = []
listed list i (suc n) = list i ∷ listed list (i + 1) n

abbrev pub queues : Confs → ℕ → List RxQueue
queues conf lcore = listed (conf lcore).rx_queue_list 0 (conf lcore).n_rx_queue

-- The queues that the parameters give to a core, in their order.
abbrev pub given : ℕ → List LcoreParams → List RxQueue
given lcore [] = []
given lcore (p ∷ ps) =
    if p.lcore_id == lcore
    then record { port_id = p.port_id; queue_id = p.queue_id } ∷ given lcore ps
    else given lcore ps

listed-write :
    (f : ℕ → RxQueue) (r : RxQueue) (len i n : ℕ)
    → i + n ≤ len
    → listed (λ j. if j == len then r else f j) i n ≡ listed f i n
listed-write f r len i zero h = refl
listed-write f r len i (suc n) h =
    rw (==_ne i len (λ e. absurd (omega arith)))
      (ap (◌∷◌ (f i)) (listed-write f r len (i + 1) n (omega arith)))

listed-snoc : (f : ℕ → RxQueue) (i n : ℕ) → listed f i (suc n) ≡ listed f i n ++ f (i + n) ∷ []
listed-snoc f i zero = let z : i + 0 ≡ i = omega arith in rw z
listed-snoc f i (suc n) =
    let e : i + suc n ≡ i + 1 + n = omega arith in rw e (ap (◌∷◌ (f i)) (listed-snoc f (i + 1) n))

listed-add :
    (f : ℕ → RxQueue) (r : RxQueue) (n : ℕ)
    → listed (λ j. if j == n then r else f j) 0 (n + 1) ≡ listed f 0 n ++ r ∷ []
listed-add f r n =
    let g = λ (j : ℕ). if j == n then r else f j in
    let e : n + 1 ≡ suc n = omega arith in
    let z : 0 + n ≡ n = omega arith in
    let last : g (0 + n) ≡ r = rw (z, ==_self n) in
    ap (listed g 0) e
    ∙ listed-snoc g 0 n
    ∙ ap₂ (λ xs (x : RxQueue). xs ++ x ∷ []) (listed-write f r n 0 n (omega arith)) last

queues-add_queue :
    (p : LcoreParams) (conf : Confs) (lcore : ℕ)
    → queues (add_queue p conf) lcore ≡ queues conf lcore ++ given lcore (p ∷ [])
queues-add_queue p conf lcore = elim (Bool-cases (p.lcore_id == lcore)) [
  | inl same ↦ rw same (listed-add (conf lcore).rx_queue_list _ (conf lcore).n_rx_queue)
  | inr other ↦ rw other (sym (append-nil (queues conf lcore)))
]

given-cons :
    (lcore : ℕ) (p : LcoreParams) (ps : List LcoreParams)
    → given lcore (p ∷ ps) ≡ given lcore (p ∷ []) ++ given lcore ps
given-cons lcore p ps = elim (Bool-cases (p.lcore_id == lcore)) [
  | inl same ↦ rw same
  | inr other ↦ rw other
]

-- No core has more queues than there is room for.
pub record IsValid (conf : Confs) : Type 0 where
  pub room : (lcore : ℕ) → (conf lcore).n_rx_queue ≤ max_rx_queue_per_lcore

add_queue-IsValid :
    (p : LcoreParams) (conf : Confs)
    → IsValid conf
    → (conf p.lcore_id).n_rx_queue < 16
    → IsValid (add_queue p conf)
add_queue-IsValid p conf v h = record {
  room = λ lcore. elim (Bool-cases (p.lcore_id == lcore)) [
    | inl same ↦ rw same (
        subst (λ (l : ℕ). (conf l).n_rx_queue + 1 ≤ 16) ((==_iff p.lcore_id lcore).0 same)
          (omega arith))
    | inr other ↦ rw other (v.room lcore)
  ];
}

-- What the result says of the queues: all given ones are added, or one core has too many.
abbrev pub Assigned : List LcoreParams → Confs → ℤ × Confs → Type 0
Assigned ps conf r =
    ((r.0 ≡ pos 0)
      × ((lcore : ℕ) → queues r.1 lcore ≡ queues conf lcore ++ given lcore ps)
      × IsValid r.1)
    ⊎ ((r.0 ≡ negsuc 0) × (lcore : ℕ) × (16 < (conf lcore).n_rx_queue + length (given lcore ps)))

n-add_queue :
    (p : LcoreParams) (conf : Confs) (lcore : ℕ)
    → (add_queue p conf lcore).n_rx_queue ≡ (conf lcore).n_rx_queue + length (given lcore (p ∷ []))
n-add_queue p conf lcore = elim (Bool-cases (p.lcore_id == lcore)) [
  | inl same ↦ rw same
  | inr other ↦ rw other (omega arith)
]

-- From a configuration with room, the result is one of two. It is 0, the queues of each core are
-- those that it had and, behind them, those that the parameters give it, in their order, and no core
-- has more than there is room for; or it is -1, and the parameters give some core too many.
pub init_lcore_rx_queues-Assigned :
    (ps : List LcoreParams) (conf : Confs)
    → IsValid conf
    → Assigned ps conf (init_lcore_rx_queues ps conf)
unfolding init_lcore_rx_queues
init_lcore_rx_queues-Assigned [] conf v =
    inl (refl, λ lcore. sym (append-nil (queues conf lcore)), v)
init_lcore_rx_queues-Assigned (p ∷ ps) conf v =
    elim (Bool-cases (leb 16 (conf p.lcore_id).n_rx_queue)) [
      | inl full ↦ rw full (
          inr (
            refl,
            p.lcore_id,
            rw (==_self p.lcore_id) (omega (arith, leb→le 16 (conf p.lcore_id).n_rx_queue full)),
          ))
      | inr room ↦
          rw room
            (elim (init_lcore_rx_queues-Assigned ps (add_queue p conf)
              (add_queue-IsValid p conf v (ground arith))) [
                | inl (zero_, all, v') ↦ inl (
                  zero_,
                  λ lcore.
                      all lcore
                      ∙ ap (λ xs. xs ++ given lcore ps) (queues-add_queue p conf lcore)
                      ∙ append_assoc (queues conf lcore) (given lcore (p ∷ [])) (given lcore ps)
                      ∙ ap (◌++◌ (queues conf lcore)) (sym (given-cons lcore p ps)),
                  v',
                )
                | inr (failed, lcore, many) ↦ inr (
                  failed,
                  lcore,
                  omega (
                    arith,
                    n-add_queue p conf lcore,
                    ap length (given-cons lcore p ps),
                    length-append (given lcore (p ∷ [])) (given lcore ps),
                  ),
                )
              ])
    ]
