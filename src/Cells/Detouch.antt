-- ===== src/Cells/Detouch.antt =====
-- ctrl_plane_backend.c: a pool that is set up, and what giving a cell back does to its lists.
use t4p4s_ma.Common.{==_self, ==_ne, ◌≡◌, ◌≢◌, refl, sym, ◌∙◌, subst, List, [], ◌∷◌, ◌++◌}
use t4p4s_ma.Cells.{Cell, null, Pool, store, link, create_cells, create, detouch_mem_cell}
use t4p4s_ma.Cells.Lists.{
  Out, Chain, Each-zip, Each-remove, Each-middle, Each-left, Chain-no_null, Each-front, Chain-store,
  Back-link, Back-store, store_self, store_ne,
}
use t4p4s_ma.Cells.Links.{Back-unlink, Chain-unlink, prev-holds, Distinct-remove}
use t4p4s_ma.Cells.Inv.{Lists, not_head}

-- The pool once `c` is given back: `next1` are the pointers when it is out of the list of the used
-- cells, and `u` the first of those.
given : Pool → Cell → (Cell → Cell) → Cell → Pool
given p c next1 u = record {
  unused_head = c;
  used_head = u;
  next = store next1 c p.unused_head;
  prev = store (link (link p.prev (p.next c) (p.prev c)) p.unused_head c) c null;
}

detouch_first :
    (p : Pool) (c : Cell) → p.used_head ≡ c → (detouch_mem_cell p c).0 ≡ given p c p.next (p.next c)
unfolding detouch_mem_cell given
detouch_first p c h = rw (h, ==_self c) refl

detouch_later :
    (p : Pool) (c : Cell)
    → p.used_head ≢ c
    → c ≢ p.prev c
    → (detouch_mem_cell p c).0 ≡ given p c (store p.next (p.prev c) (p.next c)) p.used_head
unfolding detouch_mem_cell given
detouch_later p c h n = rw (==_ne p.used_head c h, store_ne p.next (p.prev c) (p.next c) c n) refl

module _ (p : Pool) (unused front : List Cell) (c : Cell) (back : List Cell)
    (l : Lists p unused (front ++ c ∷ back)) where
  Out-unused : Out c unused
  Out-unused = Each-middle (λ x. Out x unused) front c back l.apart

  Out-used : Out c (front ++ back)
  Out-used = (Distinct-remove front c back l.used_distinct).0

  Lists-given :
      (next1 : Cell → Cell) (u : Cell)
      → Chain next1 u (front ++ back)
      → Chain next1 p.unused_head unused
      → c ≢ null
      → Lists (given p c next1 u) (c ∷ unused) (front ++ back)
  unfolding given
  Lists-given next1 u h k n = record {
    unused_chain = (
      refl,
      n,
      subst (λ q. Chain (store next1 c p.unused_head) q unused)
          (sym (store_self next1 c p.unused_head))
          (Chain-store next1 c p.unused_head p.unused_head unused Out-unused k),
    );
    unused_headed = store_self (link (link p.prev (p.next c) (p.prev c)) p.unused_head c) c null;
    used_chain = Chain-store next1 c p.unused_head u (front ++ back) Out-used h;
    used_back =
        Back-store (link (link p.prev (p.next c) (p.prev c)) p.unused_head c) c null null
          (front ++ back) Out-used
          (Back-link (link p.prev (p.next c) (p.prev c)) p.unused_head c null (front ++ back)
            (Each-remove (λ x. x ≢ p.unused_head) front c back
              (not_head p.next p.unused_head p.used_head unused (front ++ c ∷ back) l.unused_chain
                l.used_chain l.apart))
            (Back-unlink p.next p.prev p.used_head null front c back l.used_chain l.used_back
              l.used_distinct));
    unused_distinct = (Out-unused, l.unused_distinct);
    used_distinct = (Distinct-remove front c back l.used_distinct).1;
    apart =
        Each-zip (λ x. c ≢ x) (λ x. Out x unused) (λ x. Out x (c ∷ unused))
          (λ x n o. ((λ e. n (sym e)), o)) (front ++ back) Out-used
          (Each-remove (λ x. Out x unused) front c back l.apart);
  }

-- If the cell is one of the pool's used ones, `detouch_mem_cell` makes it the first of the unused
-- ones; the order of the others does not change.
pub detouch_mem_cell_lem :
    (p : Pool) (unused front : List Cell) (c : Cell) (back : List Cell)
    → Lists p unused (front ++ c ∷ back)
    → Lists (detouch_mem_cell p c).0 (c ∷ unused) (front ++ back)
detouch_mem_cell_lem p unused [] c back l =
    subst (λ q. Lists q (c ∷ unused) back) (sym (detouch_first p c l.used_chain.0))
      (Lists-given p unused [] c back l p.next (p.next c) l.used_chain.2 l.unused_chain
        l.used_chain.1)
detouch_mem_cell_lem p unused (x ∷ xs) c back l =
    subst (λ q. Lists q (c ∷ unused) (x ∷ xs ++ back))
      (sym (
        detouch_later p c
          (λ e. Each-middle (λ q. x ≢ q) xs c back l.used_distinct.0 (sym l.used_chain.0 ∙ e))
          (prev-holds (λ q. c ≢ q) p.prev x xs c back l.used_back.1
            (λ e. Each-middle (λ q. x ≢ q) xs c back l.used_distinct.0 (sym e))
            (Each-left (λ q. c ≢ q) xs back (Distinct-remove xs c back l.used_distinct.1).0))))
      (Lists-given p unused (x ∷ xs) c back l (store p.next (p.prev c) (p.next c)) p.used_head
        (Chain-unlink p.next p.prev p.used_head null x xs c back l.used_chain l.used_back
          l.used_distinct)
        (Chain-store p.next (p.prev c) (p.next c) p.unused_head unused
          (prev-holds (λ q. Out q unused) p.prev x xs c back l.used_back.1 l.apart.0
            (Each-front (λ q. Out q unused) xs c back l.apart.1))
          l.unused_chain)
        (Each-middle (λ q. q ≢ null) xs c back
          (Chain-no_null p.next (p.next x) (xs ++ c ∷ back) l.used_chain.2)))

-- The cells that are to be allocated: not null, different from each other and from those of the
-- pool.
abbrev pub IsFresh : List Cell → List Cell → Type 0
IsFresh [] unused = Unit
IsFresh (c ∷ cs) unused = (c ≢ null) × Out c unused × IsFresh cs (c ∷ unused)

-- The list of `cells`, the last one first, in front of `unused`.
abbrev pub onto : List Cell → List Cell → List Cell
onto [] unused = unused
onto (c ∷ cs) unused = onto cs (c ∷ unused)

Lists-create_cells :
    (cells unused : List Cell) (p : Pool)
    → IsFresh cells unused
    → Lists p unused []
    → Lists (create_cells cells p) (onto cells unused) []
unfolding create_cells
Lists-create_cells [] unused p f l = l
Lists-create_cells (c ∷ cs) unused p f l = Lists-create_cells cs (c ∷ unused) _ f.2 (record {
  unused_chain = (
    refl,
    f.0,
    subst (λ q. Chain (store p.next c p.unused_head) q unused)
        (sym (store_self p.next c p.unused_head))
        (Chain-store p.next c p.unused_head p.unused_head unused f.1 l.unused_chain),
  );
  unused_headed = store_self p.prev c null;
  used_chain = l.used_chain;
  used_back = tt;
  unused_distinct = (f.1, l.unused_distinct);
  used_distinct = tt;
  apart = tt;
})

-- The pool that `create_backend` sets up from cells that are not null and all different has them
-- all unused, the one allocated last first, and none used.
pub create_lem :
    (cells : List Cell) (next prev : Cell → Cell)
    → IsFresh cells []
    → Lists (create cells next prev) (onto cells []) []
unfolding create
create_lem cells next prev f = Lists-create_cells cells [] _ f (record {
  unused_chain = refl;
  unused_headed = tt;
  used_chain = refl;
  used_back = tt;
  unused_distinct = tt;
  used_distinct = tt;
  apart = tt;
})
