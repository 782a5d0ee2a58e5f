-- ===== src/Backend/Queues.antt =====
-- ctrl_plane_backend.c: the threads that take cells from a queue and give
-- them back keep the account of the cells.
use t4p4s_ma.Common.{
  ◌≡◌, sym, ap, subst, arith, List, [], ◌∷◌, ◌++◌, length, ==_ne, Bool-cases, inl, inr,
}
use t4p4s_ma.Cells.{Cell, null}
use t4p4s_ma.Cells.Inv.{Lists}
use t4p4s_ma.Cells.Detouch.{detouch_mem_cell_lem}
use t4p4s_ma.Cells.Steps.{length-middle}
use t4p4s_ma.Fifo.{Fifo, remove_msg}
use t4p4s_ma.Fifo.Inv
use t4p4s_ma.Fifo.Inv.{add_msg-IsValid, remove_msg-IsValid}
use t4p4s_ma.Fifo.Refine.{contents}
use t4p4s_ma.Backend.{
  waits, holds, Backend, handle_removed, handle_remove, handle_done, send_removed, send_remove,
  send_done,
}
use t4p4s_ma.Backend.Counts.{count, count-middle, count_split, one_self}
use t4p4s_ma.Backend.Places.{held, busy, Placed}
use t4p4s_ma.Fifo.Ends.{remove_msg-Removed}
use t4p4s_ma.Backend.Steps.{Chain-ne}

module _ (cells : List Cell) where
  -- The handler's removal gave null, from an empty queue.
  handle_remove_none-Placed :
      (q : Fifo) (b : Backend)
      → b.handler ≡ waits
      → Inv.IsValid q
      → contents b.input_queue ≡ []
      → contents q ≡ []
      → Placed cells b
      → Placed cells (handle_removed null q b)
  handle_remove_none-Placed q b h valid before after v = elim (Bool-cases b.shutdown) [
    | inl stop ↦ rw stop (record {
      unused = v.unused;
      used = v.used;
      lists = v.lists;
      all = v.all;
      placed =
          λ x. omega (arith, v.placed x, ap (held x) h, ap (count x) before, ap (count x) after);
      number = v.number;
      taken_number = omega (arith, v.taken_number, ap busy h, ap length before, ap length after);
      input_valid = valid;
      output_valid = v.output_valid;
    })
    | inr on ↦ rw on (record {
      unused = v.unused;
      used = v.used;
      lists = v.lists;
      all = v.all;
      placed =
          λ x. omega (arith, v.placed x, ap (held x) h, ap (count x) before, ap (count x) after);
      number = v.number;
      taken_number = omega (arith, v.taken_number, ap busy h, ap length before, ap length after);
      input_valid = valid;
      output_valid = v.output_valid;
    })
  ]

  handle_remove_some-Placed :
      (c : Cell) (q : Fifo) (b : Backend)
      → b.handler ≡ waits
      → Inv.IsValid q
      → contents b.input_queue ≡ c ∷ contents q
      → Placed cells b
      → Placed cells (handle_removed c q b)
  handle_remove_some-Placed c q b h valid before v =
      let ne = ==_ne c null (
        Chain-ne b.pool.next b.pool.used_head v.used c v.lists.used_chain
          (omega (arith, v.placed c, ap (count c) before, one_self c))) in
      elim (Bool-cases b.shutdown) [
        | inl stop ↦
            rw (ne, stop)
              (record {
                unused = v.unused;
                used = v.used;
                lists = v.lists;
                all = v.all;
                placed = λ x. omega (arith, v.placed x, ap (held x) h, ap (count x) before);
                number = v.number;
                taken_number = omega (arith, v.taken_number, ap busy h, ap length before);
                input_valid = valid;
                output_valid = v.output_valid;
              })
        | inr on ↦
            rw (ne, on)
              (record {
                unused = v.unused;
                used = v.used;
                lists = v.lists;
                all = v.all;
                placed = λ x. omega (arith, v.placed x, ap (held x) h, ap (count x) before);
                number = v.number;
                taken_number = omega (arith, v.taken_number, ap busy h, ap length before);
                input_valid = valid;
                output_valid = v.output_valid;
              })
      ]

  pub handle_remove-Placed :
      (b : Backend) → b.handler ≡ waits → Placed cells b → Placed cells (handle_remove b)
  unfolding handle_remove
  handle_remove-Placed b h v =
      let q = (remove_msg b.input_queue).1 in
      let valid = remove_msg-IsValid v.input_valid in
      elim (remove_msg-Removed b.input_queue v.input_valid) [
        | inl (e, before, after) ↦
            subst (λ c. Placed cells (handle_removed c q b)) (sym e)
              (handle_remove_none-Placed q b h valid before after v)
        | inr e ↦ handle_remove_some-Placed (remove_msg b.input_queue).0 q b h valid e v
      ]

  pub handle_done-Placed :
      (c : Cell) (b : Backend)
      → b.handler ≡ holds c
      → Placed cells b
      → Placed cells (handle_done c b)
  unfolding handle_done
  handle_done-Placed c b h v =
      let (front, back, e) =
        count_split c v.used (omega (arith, v.placed c, ap (held c) h, one_self c)) in
      record {
        unused = c ∷ v.unused;
        used = front ++ back;
        lists =
            detouch_mem_cell_lem b.pool v.unused front c back
              (subst (λ u. Lists b.pool v.unused u) e v.lists);
        all = λ x. omega (arith, v.all x, ap (count x) e, count-middle x front c back);
        placed = λ x.
            omega (arith, v.placed x, ap (count x) e, count-middle x front c back, ap (held x) h);
        number = omega (arith, v.number, ap length e, length-middle front c back);
        taken_number =
            omega (arith, v.taken_number, ap length e, length-middle front c back, ap busy h);
        input_valid = v.input_valid;
        output_valid = v.output_valid;
      }

  -- The sender's removal gave null, from an empty queue.
  send_remove_none-Placed :
      (q : Fifo) (b : Backend)
      → b.sender ≡ waits
      → Inv.IsValid q
      → contents b.output_queue ≡ []
      → contents q ≡ []
      → Placed cells b
      → Placed cells (send_removed null q b)
  send_remove_none-Placed q b h valid before after v = elim (Bool-cases b.shutdown) [
    | inl stop ↦ rw stop (record {
      unused = v.unused;
      used = v.used;
      lists = v.lists;
      all = v.all;
      placed =
          λ x. omega (arith, v.placed x, ap (held x) h, ap (count x) before, ap (count x) after);
      number = v.number;
      taken_number = omega (arith, v.taken_number, ap busy h, ap length before, ap length after);
      output_valid = valid;
      input_valid = v.input_valid;
    })
    | inr on ↦ rw on (record {
      unused = v.unused;
      used = v.used;
      lists = v.lists;
      all = v.all;
      placed =
          λ x. omega (arith, v.placed x, ap (held x) h, ap (count x) before, ap (count x) after);
      number = v.number;
      taken_number = omega (arith, v.taken_number, ap busy h, ap length before, ap length after);
      output_valid = valid;
      input_valid = v.input_valid;
    })
  ]

  send_remove_some-Placed :
      (c : Cell) (q : Fifo) (b : Backend)
      → b.sender ≡ waits
      → Inv.IsValid q
      → contents b.output_queue ≡ c ∷ contents q
      → Placed cells b
      → Placed cells (send_removed c q b)
  send_remove_some-Placed c q b h valid before v =
      let ne = ==_ne c null (
        Chain-ne b.pool.next b.pool.used_head v.used c v.lists.used_chain
          (omega (arith, v.placed c, ap (count c) before, one_self c))) in
      elim (Bool-cases b.shutdown) [
        | inl stop ↦
            rw (ne, stop)
              (record {
                unused = v.unused;
                used = v.used;
                lists = v.lists;
                all = v.all;
                placed = λ x. omega (arith, v.placed x, ap (held x) h, ap (count x) before);
                number = v.number;
                taken_number = omega (arith, v.taken_number, ap busy h, ap length before);
                output_valid = valid;
                input_valid = v.input_valid;
              })
        | inr on ↦
            rw (ne, on)
              (record {
                unused = v.unused;
                used = v.used;
                lists = v.lists;
                all = v.all;
                placed = λ x. omega (arith, v.placed x, ap (held x) h, ap (count x) before);
                number = v.number;
                taken_number = omega (arith, v.taken_number, ap busy h, ap length before);
                output_valid = valid;
                input_valid = v.input_valid;
              })
      ]

  pub send_remove-Placed :
      (b : Backend) → b.sender ≡ waits → Placed cells b → Placed cells (send_remove b)
  unfolding send_remove
  send_remove-Placed b h v =
      let q = (remove_msg b.output_queue).1 in
      let valid = remove_msg-IsValid v.output_valid in
      elim (remove_msg-Removed b.output_queue v.output_valid) [
        | inl (e, before, after) ↦
            subst (λ c. Placed cells (send_removed c q b)) (sym e)
              (send_remove_none-Placed q b h valid before after v)
        | inr e ↦ send_remove_some-Placed (remove_msg b.output_queue).0 q b h valid e v
      ]

  pub send_done-Placed :
      (c : Cell) (b : Backend) → b.sender ≡ holds c → Placed cells b → Placed cells (send_done c b)
  unfolding send_done
  send_done-Placed c b h v =
      let (front, back, e) =
        count_split c v.used (omega (arith, v.placed c, ap (held c) h, one_self c)) in
      record {
        unused = c ∷ v.unused;
        used = front ++ back;
        lists =
            detouch_mem_cell_lem b.pool v.unused front c back
              (subst (λ u. Lists b.pool v.unused u) e v.lists);
        all = λ x. omega (arith, v.all x, ap (count x) e, count-middle x front c back);
        placed = λ x.
            omega (arith, v.placed x, ap (count x) e, count-middle x front c back, ap (held x) h);
        number = omega (arith, v.number, ap length e, length-middle front c back);
        taken_number =
            omega (arith, v.taken_number, ap length e, length-middle front c back, ap busy h);
        input_valid = v.input_valid;
        output_valid = v.output_valid;
      }
