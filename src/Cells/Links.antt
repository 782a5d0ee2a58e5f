-- ===== src/Cells/Links.antt =====
-- Taking a cell out of a linked list, and putting one in front of it.
use t4p4s_ma.Common.{◌≡◌, ◌≢◌, sym, ◌∙◌, subst, List, [], ◌∷◌, ◌++◌}
use t4p4s_ma.Cells.{Cell, store, link}
use t4p4s_ma.Cells.Lists.{
  Each, Out, Distinct, Chain, Back, Each-map, Each-remove, Each-middle, Each-front, Each-back,
  Chain-store, Back-link, Chain-head, store_self, link_self, link_ne, store_ne,
}

-- The list is led back to another cell.
pub Back-link_head :
    (next prev : Cell → Cell) (p v b : Cell) (xs : List Cell)
    → Chain next p xs
    → Distinct xs
    → Back prev b xs
    → Back (link prev p v) v xs
Back-link_head next prev p v b [] h d k = tt
Back-link_head next prev p v b (x ∷ xs) h d k = (
  subst (λ q. link prev q v x ≡ v) (sym h.0) (link_self prev x v h.1),
  Back-link prev p v x xs (Each-map (λ y. x ≢ y) (λ y. y ≢ p) (λ y n e. n (sym (e ∙ h.0))) xs d.0)
      k.1,
)

-- What holds of the cells in front of `c`, and of what the first of them leads back to, holds of
-- what `c` leads back to.
pub prev-holds :
    (P : Cell → Type 0) (prev : Cell → Cell) (b : Cell) (front : List Cell) (c : Cell)
    (back : List Cell)
    → Back prev b (front ++ c ∷ back)
    → P b
    → Each P front
    → P (prev c)
prev-holds P prev b [] c back h k a = subst P (sym h.0) k
prev-holds P prev b (x ∷ xs) c back h k a = prev-holds P prev x xs c back h.1 a.0 a.1

-- `prev->next = c->next` takes `c` out, if it is not the first.
pub Chain-unlink :
    (next prev : Cell → Cell) (p b x : Cell) (front : List Cell) (c : Cell) (back : List Cell)
    → Chain next p (x ∷ front ++ c ∷ back)
    → Back prev b (x ∷ front ++ c ∷ back)
    → Distinct (x ∷ front ++ c ∷ back)
    → Chain (store next (prev c) (next c)) p (x ∷ front ++ back)
Chain-unlink next prev p b x [] c back h k d = (
  h.0,
  h.1,
  subst (λ q. Chain (store next q (next c)) (store next q (next c) x) back) (sym k.1.0)
      (subst (λ q. Chain (store next x (next c)) q back) (sym (store_self next x (next c)))
        (Chain-store next x (next c) (next c) back d.0.1 h.2.2)),
)
Chain-unlink next prev p b x (y ∷ ys) c back h k d = (
  h.0,
  h.1,
  subst (λ q. Chain (store next (prev c) (next c)) q (y ∷ ys ++ back))
      (sym (
        store_ne next (prev c) (next c) x (
          prev-holds (λ q. x ≢ q) prev y ys c back k.1.1 d.0.0
            (Each-front (λ q. x ≢ q) ys c back d.0.1))))
      (Chain-unlink next prev (next x) x y ys c back h.2 k.1 d.1),
)

pub Chain-after :
    (next : Cell → Cell) (p : Cell) (front : List Cell) (c : Cell) (back : List Cell)
    → Chain next p (front ++ c ∷ back)
    → Chain next (next c) back
Chain-after next p [] c back h = h.2
Chain-after next p (x ∷ xs) c back h = Chain-after next (next x) xs c back h.2

-- `c->next->prev = c->prev` takes `c` out.
pub Back-unlink :
    (next prev : Cell → Cell) (p b : Cell) (front : List Cell) (c : Cell) (back : List Cell)
    → Chain next p (front ++ c ∷ back)
    → Back prev b (front ++ c ∷ back)
    → Distinct (front ++ c ∷ back)
    → Back (link prev (next c) (prev c)) b (front ++ back)
Back-unlink next prev p b [] c back h k d =
    subst (λ q. Back (link prev (next c) (prev c)) q back) k.0
      (Back-link_head next prev (next c) (prev c) c back h.2 d.1 k.1)
Back-unlink next prev p b (x ∷ xs) c back h k d = (
  link_ne prev (next c) (prev c) x (
        Chain-head next x (next c) back (Chain-after next (next x) xs c back h.2)
          (Each-back (λ q. x ≢ q) xs c back d.0) h.1)
      ∙ k.0,
  Back-unlink next prev (next x) x xs c back h.2 k.1 d.1,
)

pub Distinct-remove :
    (front : List Cell) (c : Cell) (back : List Cell)
    → Distinct (front ++ c ∷ back)
    → Out c (front ++ back) × Distinct (front ++ back)
Distinct-remove [] c back d = d
Distinct-remove (x ∷ xs) c back d = (
  ((λ e. Each-middle (λ q. x ≢ q) xs c back d.0 (sym e)), (Distinct-remove xs c back d.1).0),
  (Each-remove (λ q. x ≢ q) xs c back d.0, (Distinct-remove xs c back d.1).1),
)
