-- ===== src/Cells/Inv.antt =====
-- ctrl_plane_backend.c: the two lists of a pool, and what taking a cell and giving it back do to
-- them.
use t4p4s_ma.Common.{==_ne, ◌≡◌, ◌≢◌, refl, ap, sym, ◌∙◌, subst, List, [], ◌∷◌}
use t4p4s_ma.Cells.{Cell, null, Pool, store, link, touch_mem_cell}
use t4p4s_ma.Cells.Lists.{
  Each, Out, Distinct, Chain, Back, Each-map, Each-zip, Chain-store, Back-link, Chain-head,
  Chain-no_null, store_self, link_self, link_ne,
}
use t4p4s_ma.Cells.Links.{Back-link_head}

-- The first cell, if there is one, leads back to null.
abbrev pub Headed : (Cell → Cell) → List Cell → Type 0
Headed prev [] = Unit
Headed prev (x ∷ xs) = prev x ≡ null

-- The unused and the used cells of a pool, in the order of the lists.
pub record Lists (p : Pool) (unused used : List Cell) : Type 0 where
  pub unused_chain : Chain p.next p.unused_head unused
  pub unused_headed : Headed p.prev unused
  pub used_chain : Chain p.next p.used_head used
  pub used_back : Back p.prev null used
  pub unused_distinct : Distinct unused
  pub used_distinct : Distinct used
  pub apart : Each (λ x. Out x unused) used

-- The pool once its first unused cell, `c`, is taken.
pub taken : Pool → Cell → Pool
taken p c = record {
  unused_head = p.next c;
  used_head = c;
  next = store p.next c p.used_head;
  prev = link (link p.prev (p.next c) null) p.used_head c;
}

touch_null : (p : Pool) → p.unused_head ≡ null → touch_mem_cell p ≡ (null, p, [])
unfolding touch_mem_cell
touch_null p h = rw (h) refl

touch_taken :
    (p : Pool)
    → p.unused_head ≢ null
    → ((touch_mem_cell p).0 ≡ p.unused_head) × ((touch_mem_cell p).1 ≡ taken p p.unused_head)
unfolding touch_mem_cell taken
touch_taken p h = rw (==_ne p.unused_head null h) (refl, refl)

Headed-link :
    (next prev : Cell → Cell) (q u c : Cell) (rest : List Cell)
    → Chain next q rest
    → (q ≢ null → q ≢ u)
    → Headed (link (link prev q null) u c) rest
Headed-link next prev q u c [] h n = tt
Headed-link next prev q u c (x ∷ xs) h n =
    subst (λ y. link (link prev q null) u c y ≡ null) h.0
      (link_ne (link prev q null) u c q (n (λ e. h.1 (sym h.0 ∙ e)))
        ∙ link_self prev q null (λ e. h.1 (sym h.0 ∙ e)))

-- The cells of `used` are not the head of `unused`.
pub not_head :
    (next : Cell → Cell) (q p : Cell) (unused used : List Cell)
    → Chain next q unused
    → Chain next p used
    → Each (λ x. Out x unused) used
    → Each (λ x. x ≢ q) used
not_head next q p unused used h k o =
    Each-zip (λ x. Out x unused) (λ x. x ≢ null) (λ x. x ≢ q)
      (λ x a n. Chain-head next x q unused h a n) used o (Chain-no_null next p used k)

-- The head of `used` is not the head of `unused`, if that is not null.
heads_ne :
    (next : Cell → Cell) (q p : Cell) (unused used : List Cell)
    → Chain next q unused
    → Chain next p used
    → Each (λ x. Out x unused) used
    → q ≢ null
    → q ≢ p
heads_ne next q p unused [] h k o n e = n (e ∙ k)
heads_ne next q p unused (x ∷ xs) h k o n e =
    (not_head next q p unused (x ∷ xs) h k o).0 (sym (e ∙ k.0))

Lists-taken :
    (p : Pool) (c : Cell) (rest used : List Cell)
    → Lists p (c ∷ rest) used
    → Lists (taken p c) rest (c ∷ used)
unfolding taken
Lists-taken p c rest used l = record {
  unused_chain =
      Chain-store p.next c p.used_head (p.next c) rest l.unused_distinct.0 l.unused_chain.2;
  unused_headed = Headed-link p.next p.prev (p.next c) p.used_head c rest l.unused_chain.2 (
      heads_ne p.next (p.next c) p.used_head rest used l.unused_chain.2 l.used_chain
        (Each-map (λ x. Out x (c ∷ rest)) (λ x. Out x rest) (λ x o. o.1) used l.apart));
  used_chain = (
    refl,
    l.unused_chain.1,
    subst (λ q. Chain (store p.next c p.used_head) q used) (sym (store_self p.next c p.used_head))
        (Chain-store p.next c p.used_head p.used_head used out l.used_chain),
  );
  used_back = (
    link_ne (link p.prev (p.next c) null) p.used_head c c
          (Chain-head p.next c p.used_head used l.used_chain out l.unused_chain.1)
        ∙ link_ne p.prev (p.next c) null c (
            Chain-head p.next c (p.next c) rest l.unused_chain.2 l.unused_distinct.0
              l.unused_chain.1)
        ∙ l.unused_headed,
    Back-link_head p.next (link p.prev (p.next c) null) p.used_head c null used l.used_chain
        l.used_distinct
        (Back-link p.prev (p.next c) null null used
          (not_head p.next (p.next c) p.used_head rest used l.unused_chain.2 l.used_chain
            (Each-map (λ x. Out x (c ∷ rest)) (λ x. Out x rest) (λ x o. o.1) used l.apart))
          l.used_back),
  );
  unused_distinct = l.unused_distinct.1;
  used_distinct = (out, l.used_distinct);
  apart = (
    l.unused_distinct.0,
    Each-map (λ x. Out x (c ∷ rest)) (λ x. Out x rest) (λ x o. o.1) used l.apart,
  );
}
  where
    out : Out c used
    out = Each-map (λ x. Out x (c ∷ rest)) (λ x. c ≢ x) (λ x o e. o.0 (sym e)) used l.apart

-- If a pool has an unused cell, `touch_mem_cell` takes the first unused one, and it becomes the first
-- of the used ones; the order of the others does not change.
pub touch_mem_cell_lem :
    (p : Pool) (c : Cell) (rest used : List Cell)
    → Lists p (c ∷ rest) used
    → ((touch_mem_cell p).0 ≡ c) × Lists (touch_mem_cell p).1 rest (c ∷ used)
touch_mem_cell_lem p c rest used l = (
  t.0 ∙ l.unused_chain.0,
  subst (λ q. Lists q rest (c ∷ used)) (sym (t.1 ∙ ap (taken p) l.unused_chain.0))
      (Lists-taken p c rest used l),
)
  where
    t : ((touch_mem_cell p).0 ≡ p.unused_head) × ((touch_mem_cell p).1 ≡ taken p p.unused_head)
    t = touch_taken p (λ e. l.unused_chain.1 (sym l.unused_chain.0 ∙ e))

-- If a pool has no unused cell, `touch_mem_cell` returns null and changes nothing.
pub touch_mem_cell-null :
    (p : Pool) (used : List Cell) → Lists p [] used → touch_mem_cell p ≡ (null, p, [])
touch_mem_cell-null p used l = touch_null p l.unused_chain
