-- ===== src/Backend/Steps.antt =====
-- ctrl_plane_backend.c: each step of a thread keeps the account of the cells.
use t4p4s_ma.Common.{
  ◌≡◌, ◌≢◌, ◌<◌, ◌≤◌, refl, sym, ap, subst, arith, Bool, true, false, List, [], ◌∷◌, ◌++◌, length,
  length-append, ◌==◌, ==_ne, if◌then◌else◌, Bool-cases, inl, inr, ℤ, pos, negsuc,
}
use t4p4s_ma.Cells.{Cell, null, touch_mem_cell}
use t4p4s_ma.Cells.Lists.{Chain}
use t4p4s_ma.Cells.Steps.{length-middle}
use t4p4s_ma.Fifo.{queue_size}
use t4p4s_ma.Fifo.Inv.{add_msg-IsValid}
use t4p4s_ma.Fifo.Refine.{contents}
use t4p4s_ma.Backend.{
  Thread, waits, holds, ended, Backend, receive_touched, receive_touch, receive_done,
  digest_touched, create_digest, send_digest,
}
use t4p4s_ma.Backend.Counts.{one, count, count-append, count-middle}
use t4p4s_ma.Backend.Places.{held, busy, Placed, touch-Touched}
use t4p4s_ma.Fifo.Ends.{add_msg_room}

pub Chain-ne :
    (next : Cell → Cell) (p : Cell) (xs : List Cell) (c : Cell)
    → Chain next p xs
    → 0 < count c xs
    → c ≢ null
unfolding one
Chain-ne next p [] c ch h = absurd (omega (arith, h))
Chain-ne next p (x ∷ xs) c (_, ne, ch) h = elim (Bool-cases (x == c)) [
  | inl same ↦ λ e. ne (ground (arith, same, e))
  | inr other ↦ let h' = rw other at h in Chain-ne next (next x) xs c ch (omega (arith, h'))
]

module _ (cells : List Cell) (fits : length cells ≤ queue_size) where
  pub receive_touch-Placed :
      (b : Backend) → b.receiver ≡ waits → Placed cells b → Placed cells (receive_touch b)
  unfolding receive_touch
  receive_touch-Placed b h v =
      let p = (touch_mem_cell b.pool).1 in
      elim (touch-Touched b.pool v.unused v.used v.lists) [
        | inl (e, l) ↦
            subst (λ c. Placed cells (receive_touched c p b)) (sym e)
              (record {
                unused = v.unused;
                used = v.used;
                lists = l;
                all = v.all;
                placed = λ x. omega (arith, v.placed x, ap (held x) h);
                number = v.number;
                taken_number = omega (arith, v.taken_number, ap busy h);
                input_valid = v.input_valid;
                output_valid = v.output_valid;
              })
        | inr (ne, rest, e, l) ↦ rw (==_ne (touch_mem_cell b.pool).0 null ne) (record {
          unused = rest;
          used = (touch_mem_cell b.pool).0 ∷ v.used;
          lists = l;
          all = λ x. omega (arith, v.all x, ap (count x) e);
          placed = λ x. omega (arith, v.placed x, ap (held x) h);
          number = omega (arith, v.number, ap length e);
          taken_number = omega (arith, v.taken_number, ap busy h);
          input_valid = v.input_valid;
          output_valid = v.output_valid;
        })
      ]

  pub create_digest-Placed :
      (is_short : Bool) (b : Backend) → Placed cells b → Placed cells (create_digest is_short b)
  unfolding create_digest
  create_digest-Placed is_short b v =
      let p = (touch_mem_cell b.pool).1 in
      elim (touch-Touched b.pool v.unused v.used v.lists) [
        | inl (e, l) ↦
            subst (λ c. Placed cells (digest_touched is_short c p b)) (sym e)
              (elim is_short as (λ s. Placed cells (digest_touched s null p b)) [
                | true ↦ record {
                  unused = v.unused;
                  used = v.used;
                  lists = l;
                  all = v.all;
                  placed = v.placed;
                  number = v.number;
                  taken_number = v.taken_number;
                  input_valid = v.input_valid;
                  output_valid = v.output_valid;
                }
                | false ↦ record {
                  unused = v.unused;
                  used = v.used;
                  lists = l;
                  all = v.all;
                  placed = v.placed;
                  number = v.number;
                  taken_number = v.taken_number;
                  input_valid = v.input_valid;
                  output_valid = v.output_valid;
                }
              ])
        | inr (ne, rest, e, l) ↦
            let c = (touch_mem_cell b.pool).0 in
            rw (==_ne (touch_mem_cell b.pool).0 null ne)
              (elim is_short
                as (λ s. Placed cells (
                  if s
                  then record b { pool = p; digests = c ∷ b.digests }
                  else record b { pool = p; lost = c ∷ b.lost })) [
                    | true ↦ record {
                      unused = rest;
                      used = c ∷ v.used;
                      lists = l;
                      all = λ x. omega (arith, v.all x, ap (count x) e);
                      placed = λ x. omega (arith, v.placed x);
                      number = omega (arith, v.number, ap length e);
                      taken_number = omega (arith, v.taken_number);
                      input_valid = v.input_valid;
                      output_valid = v.output_valid;
                    }
                    | false ↦ record {
                      unused = rest;
                      used = c ∷ v.used;
                      lists = l;
                      all = λ x. omega (arith, v.all x, ap (count x) e);
                      placed = λ x. omega (arith, v.placed x);
                      number = omega (arith, v.number, ap length e);
                      taken_number = omega (arith, v.taken_number);
                      input_valid = v.input_valid;
                      output_valid = v.output_valid;
                    }
                  ])
      ]

  -- The cell of the receiver is lost.
  receive_lost-Placed :
      (c : Cell) (t : Thread) (b : Backend)
      → b.receiver ≡ holds c
      → ((x : Cell) → held x t ≡ 0)
      → busy t ≡ 0
      → Placed cells b
      → Placed cells (record b { receiver = t; lost = c ∷ b.lost })
  receive_lost-Placed c t b h none_ idle v = record {
    unused = v.unused;
    used = v.used;
    lists = v.lists;
    all = v.all;
    placed = λ x. omega (arith, v.placed x, ap (held x) h, none_ x);
    number = v.number;
    taken_number = omega (arith, v.taken_number, ap busy h, idle);
    input_valid = v.input_valid;
    output_valid = v.output_valid;
  }

  pub receive_done-Placed :
      (c : Cell) (rv : ℤ) (b : Backend)
      → b.receiver ≡ holds c
      → Placed cells b
      → Placed cells (receive_done c rv b)
  unfolding receive_done
  receive_done-Placed c (negsuc rv) b h v = receive_lost-Placed c waits b h (λ x. refl) refl v
  receive_done-Placed c (pos rv) b h v = elim (Bool-cases (rv == 0)) [
    | inl e ↦ rw e (receive_lost-Placed c ended b h (λ x. refl) refl v)
    | inr e ↦
        let more =
          add_msg_room b.input_queue c v.input_valid
            (omega (arith, v.taken_number, v.number, ap busy h, fits)) in
        rw e (record {
          unused = v.unused;
          used = v.used;
          lists = v.lists;
          all = v.all;
          placed = λ x. omega (
            arith,
            v.placed x,
            ap (held x) h,
            ap (count x) more,
            count-append x (contents b.input_queue) (c ∷ []),
          );
          number = v.number;
          taken_number = omega (
            arith,
            v.taken_number,
            ap busy h,
            ap length more,
            length-append (contents b.input_queue) (c ∷ []),
          );
          input_valid = add_msg-IsValid c v.input_valid;
          output_valid = v.output_valid;
        })
  ]

  pub send_digest-Placed :
      (front : List Cell) (c : Cell) (back : List Cell) (b : Backend)
      → b.digests ≡ front ++ c ∷ back
      → Placed cells b
      → Placed cells (send_digest front c back b)
  unfolding send_digest
  send_digest-Placed front c back b h v =
      let more =
        add_msg_room b.output_queue c v.output_valid (
          omega (arith, v.taken_number, v.number, ap length h, length-middle front c back, fits)) in
      record {
        unused = v.unused;
        used = v.used;
        lists = v.lists;
        all = v.all;
        placed = λ x. omega (
          arith,
          v.placed x,
          ap (count x) h,
          count-middle x front c back,
          ap (count x) more,
          count-append x (contents b.output_queue) (c ∷ []),
        );
        number = v.number;
        taken_number = omega (
          arith,
          v.taken_number,
          ap length h,
          length-middle front c back,
          ap length more,
          length-append (contents b.output_queue) (c ∷ []),
        );
        input_valid = v.input_valid;
        output_valid = add_msg-IsValid c v.output_valid;
      }
