-- ===== src/Controller/Outbox/Kept.antt =====
-- controller.c: the messages between `send_p4_msg` and the switch, over the output queue.
use t4p4s_ma.Common.{
  ℕ, suc, ◌+◌, ◌-◌, ◌≡◌, ◌≤◌, ◌<◌, refl, sym, ap, ◌∙◌, subst, arith, false, some, Option, List, [],
  ◌∷◌, ◌++◌, map, ◌==◌, ==_ne, ==_self, append_assoc, length, length-append, if◌then◌else◌, inl,
  inr, le→ltb, ltb,
}
use t4p4s_ma.Memory.{Mem, Run, ok, store_bytes, load_bytes}
use t4p4s_ma.Handlers.{Handled}
use t4p4s_ma.Fifo.{Fifo, Ptr, queue_size, add_msg, remove_msg}
use t4p4s_ma.Fifo.Inv
use t4p4s_ma.Fifo.Inv.{add_msg-IsValid, remove_msg-IsValid}
use t4p4s_ma.Fifo.Refine.{contents}
use t4p4s_ma.Fifo.Ends.{add_msg_room, Removed, remove_msg-Removed}
use t4p4s_ma.Controller.Parts.{buffer_size}
use t4p4s_ma.Controller.Session.{World, Outgoing, message_cell, transfer, session}
use t4p4s_ma.Controller.Outbox.{
  Outbox, Turn, sends, takes, send_p4_msg, build_and_send, output_round, run,
}

map-append {ℓ κ} :
    {A : Type ℓ} {B : Type κ} (f : A → B) (xs ys : List A) → map f (xs ++ ys) ≡ map f xs ++ map f ys
map-append f [] ys = refl
map-append f (x ∷ xs) ys = ap (◌∷◌ (f x)) (map-append f xs ys)

module _ (w : World) where
  abbrev pub handled : Outgoing → Run Handled
  handled m = session w m.0 m.1

  -- The pointers stand for the cells of these messages.
  abbrev pub Stand : Outbox → List Ptr → List Outgoing → Type 0
  Stand c [] [] = Unit
  Stand c [] (m ∷ ms) = ⊥
  Stand c (p ∷ ps) [] = ⊥
  Stand c (p ∷ ps) (m ∷ ms) =
      (0 < p) × (p ≤ c.made) × (transfer w (c.cells p).0 (c.cells p).1 ≡ handled m) × Stand c ps ms

  -- The queue is valid and has just these messages, the oldest first.
  pub record Queued (c : Outbox) (ms : List Outgoing) : Type 0 where
    pub valid : Inv.IsValid c.output_queue
    pub stand : Stand c (contents c.output_queue) ms

  -- The messages can be built, and they are not too long.
  abbrev pub AreSent : List Outgoing → Type 0
  AreSent [] = Unit
  AreSent (m ∷ ms) = ((g : Mem) × (m.0 w.buffer ≡ ok tt g) × (m.1 ≤ buffer_size)) × AreSent ms

  length-Stand :
      (c : Outbox) (ps : List Ptr) (ms : List Outgoing) → Stand c ps ms → length ps ≡ length ms
  length-Stand c [] [] h = refl
  length-Stand c [] (m ∷ ms) h = absurd h
  length-Stand c (p ∷ ps) [] h = absurd h
  length-Stand c (p ∷ ps) (m ∷ ms) (pos, old, same, rest) = ap suc (length-Stand c ps ms rest)

  -- A new cell changes none of those before it, and is the last one.
  Stand-snoc :
      (c c' : Outbox) (ps : List Ptr) (ms : List Outgoing) (m : Outgoing) (copy : Mem) (n : ℕ)
      → c'.made ≡ c.made + 1
      → c'.cells ≡ (λ p. if p == c.made + 1 then (copy, n) else c.cells p)
      → transfer w copy n ≡ handled m
      → Stand c ps ms
      → Stand c' (ps ++ (c.made + 1) ∷ []) (ms ++ m ∷ [])
  Stand-snoc c c' [] [] m copy n made cells same h =
      (omega arith, omega (arith, made), rw (cells, ==_self (c.made + 1)) same, tt)
  Stand-snoc c c' [] (q ∷ ms) m copy n made cells same h = absurd h
  Stand-snoc c c' (p ∷ ps) [] m copy n made cells same h = absurd h
  Stand-snoc c c' (p ∷ ps) (q ∷ ms) m copy n made cells same (pos, old, this, rest) = (
    pos,
    omega (arith, made, old),
    rw (cells, ==_ne p (c.made + 1) (λ e. absurd (omega (arith, e, old)))) this,
    Stand-snoc c c' ps ms m copy n made cells same rest,
  )

  Stand-queue :
      (c : Outbox) (f : Fifo) (ps : List Ptr) (ms : List Outgoing)
      → Stand c ps ms
      → Stand (record c { output_queue = f }) ps ms
  Stand-queue c f [] [] h = tt
  Stand-queue c f [] (m ∷ ms) h = absurd h
  Stand-queue c f (p ∷ ps) [] h = absurd h
  Stand-queue c f (p ∷ ps) (m ∷ ms) (pos, old, same, rest) =
      (pos, old, same, Stand-queue c f ps ms rest)

  session_built :
      (m : Outgoing) (g copy : Mem)
      → m.0 w.buffer ≡ ok tt g
      → message_cell w.junk g m.1 ≡ some copy
      → transfer w copy m.1 ≡ handled m
  unfolding session
  session_built m g copy built made = ground (arith, built, made)

  -- A message that is sent while there is room is behind those in the queue.
  pub build_and_send_lem :
      (m : Outgoing) (qs : List Outgoing) (c : Outbox)
      → Queued c qs
      → length qs < queue_size
      → (g : Mem) × (m.0 w.buffer ≡ ok tt g) × (m.1 ≤ buffer_size)
      → (c' : Outbox) × (build_and_send w m c ≡ some c') × Queued c' (qs ++ m ∷ [])
  unfolding build_and_send send_p4_msg message_cell
  build_and_send_lem m qs c q room (g, built, fits) =
      let short : ltb buffer_size m.1 ≡ false = le→ltb buffer_size m.1 fits in
      let c' = send_p4_msg w.junk g m.1 c in
      let copy = store_bytes w.junk 0 (load_bytes g 0 m.1) in
      let made : message_cell w.junk g m.1 ≡ some copy = rw short refl in
      let c₁ : Outbox = record {
        output_queue = (add_msg c.output_queue (c.made + 1)).0;
        made = c.made + 1;
        cells = λ p. if p == c.made + 1 then (copy, m.1) else c.cells p;
      } in
      let count = length-Stand c (contents c.output_queue) qs q.stand in
      (
        c',
        rw (build_and_send, built) refl,
        rw (send_p4_msg, short)
            (record {
              valid = add_msg-IsValid (c.made + 1) q.valid;
              stand = rw (add_msg_room c.output_queue (c.made + 1) q.valid (omega (arith, count))) (
                  Stand-snoc c c₁ (contents c.output_queue) qs m copy m.1 refl refl
                    (session_built m g copy built made) q.stand);
            }),
      )

  -- What one round of the output thread takes is the oldest of the messages.
  abbrev Took : Outbox → Ptr → List Ptr → List Outgoing → Type 0
  Took c p ps' qs =
      (qs' : List Outgoing) × Stand c ps' qs'
      × ((if p == 0 then [] else transfer w (c.cells p).0 (c.cells p).1 ∷ []) ++ map handled qs'
          ≡ map handled qs)
      × (length qs' ≤ length qs - 1)

  took_first :
      (c : Outbox) (p : Ptr) (ps' : List Ptr) (qs : List Outgoing)
      → Stand c (p ∷ ps') qs
      → Took c p ps' qs
  took_first c p ps' [] h = absurd h
  took_first c p ps' (m ∷ qs) (pos, old, same, rest) = (
    qs,
    rest,
    rw (==_ne p 0 (λ e. absurd (omega (arith, e, pos)))) (ap (λ r. r ∷ map handled qs) same),
    omega arith,
  )

  took :
      (c : Outbox) (p : Ptr) (ps ps' : List Ptr) (qs : List Outgoing)
      → Stand c ps qs
      → Removed ps p ps'
      → Took c p ps' qs
  took c p ps ps' qs h (inl (null, was_empty, empty)) = (
    qs,
    subst (λ r. Stand c r qs) (was_empty ∙ sym empty) h,
    rw null refl,
    omega (arith, length-Stand c ps qs h, ap length was_empty),
  )
  took c p ps ps' qs h (inr e) = took_first c p ps' qs (subst (λ r. Stand c r qs) e h)

  pub output_round_lem :
      (qs : List Outgoing) (c : Outbox)
      → Queued c qs
      → let (rs, c') = output_round w c in
        (qs' : List Outgoing) × Queued c' qs'
        × (rs ++ map handled qs' ≡ map handled qs)
        × (length qs' ≤ length qs - 1)
  unfolding output_round
  output_round_lem qs c q =
      let f = c.output_queue in
      let (qs', stand, same, le) =
        took c (remove_msg f).0 (contents f) (contents (remove_msg f).1) qs q.stand
          (remove_msg-Removed f q.valid) in
      (
        qs',
        record {
          valid = remove_msg-IsValid q.valid;
          stand = Stand-queue c (remove_msg f).1 (contents (remove_msg f).1) qs' stand;
        },
        same,
        le,
      )

  -- What is left behind the turns: the messages that are queued, and those that arrived before them.
  abbrev pub Kept : List Outgoing → Option (List (Run Handled) × List Outgoing × Outbox) → Type 0
  Kept ms r =
      (arrived : List (Run Handled)) × (unsent : List Outgoing) × (c' : Outbox) × (queued : List
        Outgoing)
      × (r ≡ some (arrived, unsent, c'))
      × Queued c' queued
      × (arrived ++ map handled (queued ++ unsent) ≡ map handled ms)

  -- If the output queue is valid and has some messages, and is to be sent others that can be built and are
  -- no longer than a cell, for all of which together it has room: whoever's turn it is, each message
  -- either was handled, with the result that it has alone, or is in the queue, or is not sent yet. None
  -- is lost or doubled, and they keep their order.
  pub run-Kept :
      (turns : List Turn) (qs ms : List Outgoing) (c : Outbox)
      → Queued c qs
      → AreSent ms
      → length qs + length ms ≤ queue_size
      → Kept (qs ++ ms) (run w turns ms c)
  unfolding run
  run-Kept [] qs ms c q sent room = ([], ms, c, qs, refl, q, refl)
  run-Kept (sends ∷ turns) qs [] c q sent room = run-Kept turns qs [] c q sent room
  run-Kept (sends ∷ turns) qs (m ∷ ms) c q sent room =
      let (c₁, e, q₁) = build_and_send_lem m qs c q (omega arith) sent.0 in
      let same : (qs ++ m ∷ []) ++ ms ≡ qs ++ m ∷ ms = append_assoc qs (m ∷ []) ms in
      let fits = length-append qs (m ∷ []) in
      let (arrived, unsent, c', queued, goes, q', all) =
        run-Kept turns (qs ++ m ∷ []) ms c₁ q₁ sent.1 (omega (arith, fits)) in
      (arrived, unsent, c', queued, rw (run, e) goes, q', all ∙ ap (map handled) same)
  run-Kept (takes ∷ turns) qs ms c q sent room =
      let (qs', q₁, first, le) = output_round_lem qs c q in
      let (rs, c₁) = output_round w c in
      let (arrived, unsent, c', queued, goes, q', all) =
        run-Kept turns qs' ms c₁ q₁ sent (omega arith) in
      (
        rs ++ arrived,
        unsent,
        c',
        queued,
        rw goes refl,
        q',
        append_assoc rs arrived _
            ∙ ap (λ r. rs ++ r) (all ∙ map-append handled qs' ms)
            ∙ sym (append_assoc rs (map handled qs') (map handled ms))
            ∙ ap (λ r. r ++ map handled ms) first
            ∙ sym (map-append handled qs ms),
      )
