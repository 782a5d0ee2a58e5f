-- ===== src/Ports/Queues.antt =====
-- src/hardware_dep/dpdk/data_plane/dpdk_lib_init_hw.c: the queues of cores and of ports.
use t4p4s_ma.Common.{
  ℕ, ◌+◌, ◌%◌, ◌≡◌, ◌<◌, ◌≤◌, ◌⊎◌, inl, inr, refl, ap, arith, true, false, List, [], ◌∷◌, ◌==◌, ℤ,
  pos, negsuc, if◌then◌else◌, Bool-cases,
}
use t4p4s_ma.Ports.{LcoreParams, above, last_queue, incremented, get_port_n_rx_queues}

-- The ids of the queues that the parameters name for a port.
abbrev pub queues_of : ℕ → List LcoreParams → List ℕ
queues_of port [] = []
queues_of port (p ∷ ps) =
    if p.port_id == port then p.queue_id ∷ queues_of port ps else queues_of port ps

abbrev pub AllBelow : ℕ → List ℕ → Type 0
AllBelow n [] = Unit
AllBelow n (q ∷ qs) = (q < n) × AllBelow n qs

-- The number is 0, or one more than an id among them.
abbrev pub IsLast : ℕ → List ℕ → Type 0
IsLast n [] = n ≡ 0
IsLast n (q ∷ qs) = (n ≡ q + 1) ⊎ IsLast n qs

count : ℤ → ℕ
count (pos n) = n + 1
count (negsuc n) = 0

AllBelow-le : (a b : ℕ) (qs : List ℕ) → a ≤ b → AllBelow a qs → AllBelow b qs
AllBelow-le a b [] h t = tt
AllBelow-le a b (q ∷ qs) h (t, ts) = (omega arith, AllBelow-le a b qs h ts)

above-count : (a : ℕ) (q : ℤ) → above a q ≡ true → count q ≤ a
unfolding count
above-count a (pos n) h = ground arith
above-count a (negsuc n) h = omega arith

not_above-count : (a : ℕ) (q : ℤ) → above a q ≡ false → a < count q
unfolding count
not_above-count a (pos n) h = ground arith
not_above-count a (negsuc n) h = cc

-- What the loop finds, from the value it begins with.
Found : List ℕ → ℤ → ℤ → Type 0
Found qs q r = (count q ≤ count r) × AllBelow (count r) qs × ((r ≡ q) ⊎ IsLast (count r) qs)

Found-larger :
    (a : ℕ) (qs : List ℕ) (q r : ℤ) → above a q ≡ true → Found qs (pos a) r → Found (a ∷ qs) q r
unfolding Found count
Found-larger a qs q r larger (le, below, last) = (
  omega (arith, le, above-count a q larger),
  (omega (arith, le), below),
  inr (elim last [ inl e ↦ inl (ap count e) | inr l ↦ inr l ]),
)

Found-smaller :
    (a : ℕ) (qs : List ℕ) (q r : ℤ) → above a q ≡ false → Found qs q r → Found (a ∷ qs) q r
unfolding Found
Found-smaller a qs q r smaller (le, below, last) = (
  le,
  (omega (arith, le, not_above-count a q smaller), below),
  elim last [ inl e ↦ inl e | inr l ↦ inr (inr l) ],
)

last_queue-Found :
    (port : ℕ) (ps : List LcoreParams) (q : ℤ) → Found (queues_of port ps) q (last_queue port ps q)
unfolding last_queue
last_queue-Found port [] q = unfold Found in (omega arith, tt, inl refl)
last_queue-Found port (p ∷ ps) q = elim (Bool-cases (p.port_id == port)) [
  | inr other ↦ rw other (last_queue-Found port ps q)
  | inl same ↦ elim (Bool-cases (above p.queue_id q)) [
    | inl larger ↦
        rw (same, larger)
          (Found-larger p.queue_id (queues_of port ps) q _ larger
            (last_queue-Found port ps (pos p.queue_id)))
    | inr smaller ↦
        rw (same, smaller)
          (Found-smaller p.queue_id (queues_of port ps) q _ smaller (last_queue-Found port ps q))
  ]
]

IsLast-zero : (qs : List ℕ) → IsLast 0 qs
IsLast-zero [] = refl
IsLast-zero (q ∷ qs) = inr (IsLast-zero qs)

incremented-count : (q : ℤ) → incremented q ≡ count q % 256
unfolding count
incremented-count (pos n) = refl
incremented-count (negsuc n) = refl

IsLast-le : (n b : ℕ) (qs : List ℕ) → AllBelow b qs → IsLast n qs → n ≤ b
IsLast-le n b [] t l = omega arith
IsLast-le n b (q ∷ qs) (t, ts) (inl e) = omega arith
IsLast-le n b (q ∷ qs) (t, ts) (inr l) = IsLast-le n b qs ts l

-- With ids below 255, a port gets as many receiving queues as its largest id needs, and no more: all
-- its ids are below the number, which is 0, if there are none, or one more than one of them.
pub get_port_n_rx_queues_lem :
    (port : ℕ) (ps : List LcoreParams)
    → AllBelow 255 (queues_of port ps)
    → AllBelow (get_port_n_rx_queues port ps) (queues_of port ps)
      × IsLast (get_port_n_rx_queues port ps) (queues_of port ps)
unfolding get_port_n_rx_queues Found count
get_port_n_rx_queues_lem port ps small =
    let r = last_queue port ps (negsuc 0) in
    let (_, below, last) = last_queue-Found port ps (negsuc 0) in
    let is_last : IsLast (count r) (queues_of port ps) = elim last [
      | inl e ↦ rw e (IsLast-zero (queues_of port ps))
      | inr l ↦ l
    ] in
    let fits : count r % 256 ≡ count r = omega (arith, IsLast-le (count r) 255 _ small is_last) in
    rw (incremented-count r, fits) (below, is_last)
