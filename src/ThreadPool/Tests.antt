-- ===== src/ThreadPool/Tests.antt =====
-- threadpool.c: two items dispatched, and one of them taken.
use t4p4s_ma.Common.{◌≡◌, refl, arith, true, false, [], ◌∷◌}
use t4p4s_ma.ThreadPool.{Pool, works, create, dispatch, round, q_empty}
use t4p4s_ma.ThreadPool.Queue.{Items, dispatch_lem, round_lem}

abbrev fresh : Pool
fresh = create (λ c. 9) (λ c. 0) (λ c. 0)

fresh-Items : Items fresh []
unfolding create
fresh-Items = record { chain = refl; tail = refl; size = refl; distinct = tt }

abbrev two_items : Pool
two_items = (dispatch 6 11 22 (dispatch 5 1 2 fresh).0).0

taken_in_order :
    ((round two_items).0 ≡ works 5)
    × ((round (round two_items).1).0 ≡ works 6)
    × ((round (round two_items).1).2 ≡ q_empty ∷ [])
unfolding round dispatch create
taken_in_order = (refl, refl, refl)

one_item :
    Items (dispatch 5 1 2 fresh).0 (5 ∷ [])
    × ((dispatch 5 1 2 fresh).0.routine 5 ≡ 1)
    × ((dispatch 5 1 2 fresh).0.arg 5 ≡ 2)
    × ((dispatch 5 1 2 fresh).0.locked ≡ false)
unfolding create
one_item = dispatch_lem fresh [] 5 1 2 fresh-Items (λ e. omega (arith, e)) tt refl

open_pool : (dispatch 5 1 2 fresh).0.dont_accept ≡ false
unfolding dispatch create
open_pool = refl

round_lem_example :
    ((round (dispatch 5 1 2 fresh).0).0 ≡ works 5)
    × Items (round (dispatch 5 1 2 fresh).0).1 []
    × ((round (dispatch 5 1 2 fresh).0).1.locked ≡ false)
round_lem_example = round_lem (dispatch 5 1 2 fresh).0 5 [] one_item.0

abbrev closed : Pool
closed = record fresh { dont_accept = true }

closed-Items : Items closed []
unfolding create
closed-Items = record { chain = refl; tail = refl; size = refl; distinct = tt }
