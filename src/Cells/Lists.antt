-- ===== src/Cells/Lists.antt =====
-- Linked lists of cells, and writes that leave them alone.
use t4p4s_ma.Common.{◌≡◌, ◌≢◌, sym, ◌∙◌, arith, List, [], ◌∷◌, ◌++◌}
use t4p4s_ma.Cells.{Cell, null, store, link}

pub store_self : (f : Cell → Cell) (c v : Cell) → store f c v c ≡ v
unfolding store
store_self f c v = ground arith

pub store_ne : (f : Cell → Cell) (c v d : Cell) → d ≢ c → store f c v d ≡ f d
unfolding store
store_ne f c v d h = ground arith

pub link_ne : (f : Cell → Cell) (c v d : Cell) → d ≢ c → link f c v d ≡ f d
unfolding store link
link_ne f c v d h = ground arith

pub link_self : (f : Cell → Cell) (c v : Cell) → c ≢ null → link f c v c ≡ v
unfolding store link
link_self f c v h = ground arith

-- The property of each cell of the list.
abbrev pub Each : (Cell → Type 0) → List Cell → Type 0
Each P [] = Unit
Each P (x ∷ xs) = P x × Each P xs

-- The cell is none of the list's.
abbrev pub Out : Cell → List Cell → Type 0
Out c xs = Each (λ x. c ≢ x) xs

abbrev pub Distinct : List Cell → Type 0
Distinct [] = Unit
Distinct (x ∷ xs) = Out x xs × Distinct xs

-- From `p` the `next` pointers lead through the cells to null.
abbrev pub Chain : (Cell → Cell) → Cell → List Cell → Type 0
Chain next p [] = p ≡ null
Chain next p (x ∷ xs) = (p ≡ x) × (x ≢ null) × Chain next (next x) xs

-- The `prev` pointers lead back, to `b` from the first cell.
abbrev pub Back : (Cell → Cell) → Cell → List Cell → Type 0
Back prev b [] = Unit
Back prev b (x ∷ xs) = (prev x ≡ b) × Back prev x xs

pub Each-map :
    (P Q : Cell → Type 0) → ((x : Cell) → P x → Q x) → (xs : List Cell) → Each P xs → Each Q xs
Each-map P Q f [] h = tt
Each-map P Q f (x ∷ xs) h = (f x h.0, Each-map P Q f xs h.1)

pub Each-zip :
    (P Q R : Cell → Type 0)
    → ((x : Cell) → P x → Q x → R x)
    → (xs : List Cell) → Each P xs
    → Each Q xs
    → Each R xs
Each-zip P Q R f [] h k = tt
Each-zip P Q R f (x ∷ xs) h k = (f x h.0 k.0, Each-zip P Q R f xs h.1 k.1)

-- What holds of each cell of a list holds of those but one.
pub Each-remove :
    (P : Cell → Type 0) (front : List Cell) (c : Cell) (back : List Cell)
    → Each P (front ++ c ∷ back)
    → Each P (front ++ back)
Each-remove P [] c back h = h.1
Each-remove P (x ∷ xs) c back h = (h.0, Each-remove P xs c back h.1)

pub Each-middle :
    (P : Cell → Type 0) (front : List Cell) (c : Cell) (back : List Cell)
    → Each P (front ++ c ∷ back)
    → P c
Each-middle P [] c back h = h.0
Each-middle P (x ∷ xs) c back h = Each-middle P xs c back h.1

pub Each-front :
    (P : Cell → Type 0) (front : List Cell) (c : Cell) (back : List Cell)
    → Each P (front ++ c ∷ back)
    → Each P front
Each-front P [] c back h = tt
Each-front P (x ∷ xs) c back h = (h.0, Each-front P xs c back h.1)

pub Each-left : (P : Cell → Type 0) (xs ys : List Cell) → Each P (xs ++ ys) → Each P xs
Each-left P [] ys h = tt
Each-left P (x ∷ xs) ys h = (h.0, Each-left P xs ys h.1)

pub Each-back :
    (P : Cell → Type 0) (front : List Cell) (c : Cell) (back : List Cell)
    → Each P (front ++ c ∷ back)
    → Each P back
Each-back P [] c back h = h.1
Each-back P (x ∷ xs) c back h = Each-back P xs c back h.1

pub Chain-store :
    (next : Cell → Cell) (c v p : Cell) (xs : List Cell)
    → Out c xs
    → Chain next p xs
    → Chain (store next c v) p xs
Chain-store next c v p [] o h = h
Chain-store next c v p (x ∷ xs) o h = (
  h.0,
  h.1,
  rw (store_ne next c v x (λ e. o.0 (sym e))) (Chain-store next c v (next x) xs o.1 h.2),
)

pub Back-store :
    (prev : Cell → Cell) (c v b : Cell) (xs : List Cell)
    → Out c xs
    → Back prev b xs
    → Back (store prev c v) b xs
Back-store prev c v b [] o h = tt
Back-store prev c v b (x ∷ xs) o h =
    (store_ne prev c v x (λ e. o.0 (sym e)) ∙ h.0, Back-store prev c v x xs o.1 h.1)

pub Back-link :
    (prev : Cell → Cell) (c v b : Cell) (xs : List Cell)
    → Each (λ x. x ≢ c) xs
    → Back prev b xs
    → Back (link prev c v) b xs
Back-link prev c v b [] o h = tt
Back-link prev c v b (x ∷ xs) o h = (link_ne prev c v x o.0 ∙ h.0, Back-link prev c v x xs o.1 h.1)

-- The cells of a linked list are not null.
pub Chain-no_null :
    (next : Cell → Cell) (p : Cell) (xs : List Cell) → Chain next p xs → Each (λ x. x ≢ null) xs
Chain-no_null next p [] h = tt
Chain-no_null next p (x ∷ xs) h = (h.1, Chain-no_null next (next x) xs h.2)

-- The head of a linked list is null or one of its cells.
pub Chain-head :
    (next : Cell → Cell) (q p : Cell) (xs : List Cell)
    → Chain next p xs
    → Out q xs
    → q ≢ null
    → q ≢ p
Chain-head next q p [] h o n e = n (e ∙ h)
Chain-head next q p (x ∷ xs) h o n e = o.0 (e ∙ h.0)
