-- ===== src/ThreadPool/Queue.antt =====
-- threadpool.c: the work items form a list, first in first out.
use t4p4s_ma.Common.{
  ℕ, ◌-◌, ◌≡◌, ◌≢◌, refl, sym, ap, ◌∙◌, subst, arith, true, false, List, [], ◌∷◌, ◌++◌,
  if◌then◌else◌, length, length-append, ==_ne, Bool-cases, inl, inr,
}
use t4p4s_ma.Cells.{Cell, null, store}
use t4p4s_ma.Cells.Lists.{Each, Out, Distinct, Chain, Chain-store, store_self, store_ne}
use t4p4s_ma.ThreadPool.{Pool, exits, waits, works, dispatch, round}

abbrev last : Cell → List Cell → Cell
last x [] = x
last x (y ∷ ys) = last y ys

-- The tail is the last item, and null if there is none.
abbrev IsTail : Cell → List Cell → Type 0
IsTail t [] = t ≡ null
IsTail t (x ∷ xs) = last x xs ≡ t

-- The items of the queue, in their order.
pub record Items (p : Pool) (items : List Cell) : Type 0 where
  pub chain : Chain p.next p.qhead items
  pub tail : IsTail p.qtail items
  pub size : p.qsize ≡ length items
  pub distinct : Distinct items

last-holds : (P : Cell → Type 0) (x : Cell) (xs : List Cell) → P x → Each P xs → P (last x xs)
last-holds P x [] h k = h
last-holds P x (y ∷ ys) h k = last-holds P y ys k.0 k.1

last-append : (x c : Cell) (xs : List Cell) → last x (xs ++ c ∷ []) ≡ c
last-append x c [] = refl
last-append x c (y ∷ ys) = last-append y c ys

Distinct-append : (xs : List Cell) (c : Cell) → Distinct xs → Out c xs → Distinct (xs ++ c ∷ [])
Distinct-append [] c d o = (tt, tt)
Distinct-append (x ∷ xs) c d o = (apart xs d.0 (λ e. o.0 (sym e)), Distinct-append xs c d.1 o.1)
  where
    apart : (ys : List Cell) → Out x ys → x ≢ c → Out x (ys ++ c ∷ [])
    apart [] h n = (n, tt)
    apart (y ∷ ys) h n = (h.0, apart ys h.1 n)

-- `pool->qtail->next = cur` appends the item.
Chain-append :
    (next : Cell → Cell) (p t x c : Cell) (xs : List Cell)
    → Chain next p (x ∷ xs)
    → Distinct (x ∷ xs)
    → Out c (x ∷ xs)
    → last x xs ≡ t
    → c ≢ null
    → next c ≡ null
    → Chain (store next t c) p (x ∷ xs ++ c ∷ [])
Chain-append next p t x c [] h d o e n z = (
  h.0,
  h.1,
  (
    subst (λ q. store next q c x ≡ c) e (store_self next x c),
    n,
    store_ne next t c c (λ q. o.0 (q ∙ sym e)) ∙ z,
  ),
)
Chain-append next p t x c (y ∷ ys) h d o e n z = (
  h.0,
  h.1,
  subst (λ q. Chain (store next t c) q (y ∷ ys ++ c ∷ []))
      (sym (store_ne next t c x (λ q. last-holds (λ i. x ≢ i) y ys d.0.0 d.0.1 (q ∙ sym e))))
      (Chain-append next (next x) t y c ys h.2 d.1 o.1 e n z),
)

-- If the pool accepts work and `malloc` returned an item that is not in the queue, `dispatch` puts
-- the item with its routine and argument at the end of the queue and gives the lock back.
pub dispatch_lem :
    (p : Pool) (items : List Cell) (cur routine arg : ℕ)
    → Items p items
    → cur ≢ null
    → Out cur items
    → p.dont_accept ≡ false
    → Items (dispatch cur routine arg p).0 (items ++ cur ∷ [])
      × ((dispatch cur routine arg p).0.routine cur ≡ routine)
      × ((dispatch cur routine arg p).0.arg cur ≡ arg)
      × ((dispatch cur routine arg p).0.locked ≡ false)
unfolding dispatch
dispatch_lem p [] cur routine arg l n o open' =
    rw (==_ne cur null n, open', l.size)
      (
        record {
          chain = (refl, n, store_self p.next cur null);
          tail = refl;
          size = omega arith;
          distinct = (tt, tt);
        },
        store_self p.routine cur routine,
        store_self p.arg cur arg,
        refl,
      )
dispatch_lem p (x ∷ xs) cur routine arg l n o open' =
    rw (==_ne cur null n, open', ==_ne p.qsize 0 (λ e. omega (arith, e, l.size)))
      (
        record {
          chain =
              Chain-append (store p.next cur null) p.qhead p.qtail x cur xs
                (Chain-store p.next cur null p.qhead (x ∷ xs) o l.chain) l.distinct o l.tail n
                (store_self p.next cur null);
          tail = last-append x cur xs;
          size = omega (arith, l.size, length-append xs (cur ∷ []));
          distinct = Distinct-append (x ∷ xs) cur l.distinct o;
        },
        store_self p.routine cur routine,
        store_self p.arg cur arg,
        refl,
      )

-- If the pool has stopped accepting work, and `malloc` returned an item that is not in the queue,
-- `dispatch` leaves the queue as it is, and returns without
-- giving the lock back.
pub dispatch-closed :
    (p : Pool) (items : List Cell) (cur routine arg : ℕ)
    → Items p items
    → cur ≢ null
    → Out cur items
    → p.dont_accept ≡ true
    → Items (dispatch cur routine arg p).0 items × ((dispatch cur routine arg p).0.locked ≡ true)
unfolding dispatch
dispatch-closed p items cur routine arg l n o closed =
    rw (==_ne cur null n, closed)
      (
        record {
          chain = Chain-store p.next cur null p.qhead items o l.chain;
          tail = l.tail;
          size = l.size;
          distinct = l.distinct;
        },
        refl,
      )

-- A worker that looks at a queue with items takes the first one, gives the lock back, and leaves the
-- others in their order.
pub round_lem :
    (p : Pool) (c : Cell) (cs : List Cell)
    → Items p (c ∷ cs)
    → ((round p).0 ≡ works c) × Items (round p).1 cs × ((round p).1.locked ≡ false)
unfolding round
round_lem p c [] l =
    rw (==_ne p.qsize 0 (λ e. omega (arith, e, l.size)), l.size)
      (
        ap works l.chain.0,
        record { chain = refl; tail = refl; size = omega arith; distinct = tt },
        refl,
      )
round_lem p c (d ∷ ds) l =
    rw
      (
        ==_ne p.qsize 0 (λ e. omega (arith, e, l.size)),
        ==_ne (p.qsize - 1) 0 (λ e. omega (arith, e, l.size)),
      )
      (
        ap works l.chain.0,
        record {
          chain = subst (λ q. Chain p.next (p.next q) (d ∷ ds)) (sym l.chain.0) l.chain.2;
          tail = l.tail;
          size = omega (arith, l.size);
          distinct = l.distinct.1;
        },
        refl,
      )

-- A worker that finds no item waits, or leaves if the pool shuts down; the queue stays empty.
pub round-empty :
    (p : Pool)
    → Items p []
    → ((round p).0 ≡ (if p.shutdown then exits else waits)) × Items (round p).1 []
unfolding round
round-empty p l = elim (Bool-cases p.shutdown) [
  | inl e ↦
      rw (l.size, e) (refl, record { chain = l.chain; tail = l.tail; size = refl; distinct = tt })
  | inr e ↦
      rw (l.size, e) (refl, record { chain = l.chain; tail = l.tail; size = refl; distinct = tt })
]
