-- ===== src/Controller/Outbox/Sent.antt =====
-- controller.c: a controller's messages on their way through the output queue.
use t4p4s_ma.Common.{
  ℕ, zero, suc, ◌+◌, ◌≡◌, ◌≤◌, ◌⊎◌, refl, sym, ap, ◌∙◌, subst, arith, true, some, List, [], ◌∷◌,
  ◌++◌, map, replicate, append-nil, append_assoc, length, length-append, Bool-cases, inl, inr, ltb,
  le→ltb,
}
use t4p4s_ma.Memory.{Mem, Run, ok, fault}
use t4p4s_ma.Fifo.{queue_size}
use t4p4s_ma.Fifo.Inv
use t4p4s_ma.Fifo.Refine.{contents, enqueue, add_msg_refines}
use t4p4s_ma.Controller.Parts.{buffer_size}
use t4p4s_ma.Controller.Seen.{Order, Sees, Delivers}
use t4p4s_ma.Controller.Session.{World, Outgoing, message_cell, session, Conveys, AllConvey}
use t4p4s_ma.Controller.Outbox.{Outbox, Turn, sends, takes, send_p4_msg, output_round, run}
use t4p4s_ma.Controller.Outbox.Kept.{handled, Queued, AreSent, build_and_send_lem, output_round_lem}

Run-cases {ℓ} : {A : Type ℓ} (r : Run A) → (r ≡ fault) ⊎ ((a : A) × (m : Mem) × (r ≡ ok a m))
Run-cases (ok a m) = inr (a, m, refl)
Run-cases fault = inl refl

module _ (w : World) where
  session_fault : (m : Outgoing) → m.0 w.buffer ≡ fault → session w m.0 m.1 ≡ fault
  unfolding session
  session_fault m e = ground (arith, e)

  session_long :
      (m : Outgoing) (g : Mem)
      → m.0 w.buffer ≡ ok tt g
      → ltb buffer_size m.1 ≡ true
      → session w m.0 m.1 ≡ fault
  unfolding session message_cell
  session_long m g built long = rw (session, built, long) refl

  -- A message that makes the callback see an order was built, and is not too long.
  Conveys-built :
      (m : Outgoing) (order : Order)
      → Conveys w m.0 m.1 order
      → (g : Mem) × (m.0 w.buffer ≡ ok tt g) × (m.1 ≤ buffer_size)
  Conveys-built m order h = elim (Run-cases (m.0 w.buffer)) [
    | inl e ↦ absurd (subst (Delivers (Sees order)) (session_fault m e) h)
    | inr (_, g, built) ↦ elim (Bool-cases (ltb buffer_size m.1)) [
      | inl long ↦ absurd (subst (Delivers (Sees order)) (session_long m g built long) h)
      | inr short ↦ (g, built, ground (arith, short))
    ]
  ]

  pub AllConvey-AreSent :
      (ms : List Outgoing) (orders : List Order) → AllConvey w ms orders → AreSent w ms
  AllConvey-AreSent [] [] h = tt
  AllConvey-AreSent [] (o ∷ os) h = absurd h
  AllConvey-AreSent (m ∷ ms) [] h = absurd h
  AllConvey-AreSent (m ∷ ms) (o ∷ os) h = (Conveys-built m o h.0, AllConvey-AreSent ms os h.1)

  sends_all :
      (ms qs : List Outgoing) (c : Outbox) (turns : List Turn)
      → Queued w c qs
      → AreSent w ms
      → length qs + length ms ≤ queue_size
      → (c' : Outbox) × Queued w c' (qs ++ ms)
        × (run w (replicate (length ms) sends ++ turns) ms c ≡ run w turns [] c')
  unfolding run
  sends_all [] qs c turns q sent room = (c, subst (Queued w c) (sym (append-nil qs)) q, refl)
  sends_all (m ∷ ms) qs c turns q sent room =
      let (c₁, e, q₁) = build_and_send_lem w m qs c q (omega arith) sent.0 in
      let fits = length-append qs (m ∷ []) in
      let (c', q', goes) = sends_all ms (qs ++ m ∷ []) c₁ turns q₁ sent.1 (omega (arith, fits)) in
      (c', subst (Queued w c') (append_assoc qs (m ∷ []) ms) q', rw (run, e) goes)

  takes_all :
      (n : ℕ) (qs : List Outgoing) (c : Outbox)
      → Queued w c qs
      → length qs ≤ n
      → (c' : Outbox) × (run w (replicate n takes) [] c ≡ some (map (handled w) qs, [], c'))
  unfolding run
  takes_all zero [] c q le = (c, refl)
  takes_all zero (m ∷ qs) c q le = absurd (omega arith)
  takes_all (suc n) qs c q le =
      let (qs', q₁, first, less) = output_round_lem w qs c q in
      let (rs, c₁) = output_round w c in
      let (c', goes) = takes_all n qs' c₁ q₁ (omega arith) in
      (c', rw goes (ap (λ r. some (r, [], c')) first))

  -- All messages arrive, in their order, when they are sent first and the output thread then has as many
  -- turns.
  abbrev pub Arrives : List Outgoing → Outbox → Type 0
  Arrives ms c =
      (c' : Outbox) × (run w (replicate (length ms) sends ++ replicate (length ms) takes) ms c
        ≡ some (map (handled w) ms, [], c'))

  pub run-Arrives :
      (ms : List Outgoing) (c : Outbox)
      → Queued w c []
      → AreSent w ms
      → length ms ≤ queue_size
      → Arrives ms c
  run-Arrives ms c q sent room =
      let (c₁, q₁, goes) = sends_all ms [] c (replicate (length ms) takes) q sent (omega arith) in
      let (c', ends) = takes_all (length ms) ms c₁ q₁ (omega arith) in (c', goes ∙ ends)

-- In a full queue a message gets no place, and `send_p4_msg` says nothing of it.
pub send_p4_msg_full :
    (junk buffer : Mem) (n : ℕ) (c : Outbox)
    → Inv.IsValid c.output_queue
    → length (contents c.output_queue) ≡ queue_size
    → contents (send_p4_msg junk buffer n c).output_queue ≡ contents c.output_queue
unfolding send_p4_msg enqueue message_cell
send_p4_msg_full junk buffer n c v full = elim (Bool-cases (ltb buffer_size n)) [
  | inl long ↦ rw (send_p4_msg, long) refl
  | inr short ↦
      rw (send_p4_msg, short)
        (ap (λ r. r.0) (add_msg_refines (c.made + 1) v)
          ∙ rw (le→ltb (length (contents c.output_queue)) queue_size (omega (arith, full))) refl)
]
