-- ===== src/OrderMap/Tests.antt =====
-- Runs of the router's order map (sor/src/order_map.c).
use trading_sor_mock.Base.{◌-◌, ◌^◌, ◌≡◌, refl, true, none, some, List, [], ◌∷◌, arith}
use trading_sor_mock.Base.Int.{pos, negsuc, ◌+ℤ◌, wrap}
use trading_sor_mock.Types.{buy, limit, krx, nxt, ok, Order}
use trading_sor_mock.Plan.{ExecPlan}
use trading_sor_mock.OrderMap.{
  phys_id_make, phys_id_market, phys_id_logical, PhysLeg, OrderMap, no_order,
}
use trading_sor_mock.OrderMap.Legs.{fill_leg}
use trading_sor_mock.OrderMap.Balance.{MapBalanced}
use trading_sor_mock.OrderMap.Events.{
  MapCall, register, on_accept, on_fill, on_cancel, map_calls, map_calls-MapBalanced,
}

abbrev bid : Order
bid = record {
  id = 5;
  client_order_id = 5;
  ts = pos 0;
  price = 10_000;
  qty = 10;
  filled_qty = 0;
  side = buy;
  type = limit;
  market = krx;
}

-- Six shares to KRX and four to NXT.
abbrev split : ExecPlan
split = record {
  legs =
      record { market = krx; qty = 6; limit_price = 10_000; type = limit }
      ∷ record { market = nxt; qty = 4; limit_price = 10_000; type = limit }
      ∷ [];
  planned_qty = 10;
  reason = ok;
}

-- A map of an array for four orders.
abbrev empty_map : OrderMap
empty_map = record { orders = λ _. no_order; slot = λ _. none; mask = 7; capacity = 4; count = 0 }

-- The leg on KRX is filled for 6; the one on NXT for 1, then for 9, which is refused, and then the
-- remaining 3 are canceled.
abbrev calls : List MapCall
calls =
    register bid split
    ∷ on_accept 81
    ∷ on_fill 81 6 10_000
    ∷ on_fill 82 1 9_990
    ∷ on_fill 82 9 9_990
    ∷ on_cancel 82 3
    ∷ []

empty_map-MapBalanced : MapBalanced empty_map
empty_map-MapBalanced k = record { legs_ok = tt; all_sent = refl }

map_calls-MapBalanced_example : MapBalanced (map_calls empty_map calls)
map_calls-MapBalanced_example =
    map_calls-MapBalanced empty_map calls
      (omega arith, (omega arith, (omega arith, (omega arith, (omega arith, (omega arith, tt))))))
      empty_map-MapBalanced

-- A leg of 10 shares with one filled, and the report of a fill of 2,147,483,647: the sum in the test
-- wraps around, so the report is taken, and the filled quantity is negative.
abbrev one_filled : PhysLeg
one_filled = record {
  phys_id = 81;
  market = krx;
  sent_qty = 10;
  filled_qty = pos 1;
  notional = pos 10_000;
  canceled_qty = pos 0;
  live = true;
  accepted = true;
}

overfill_run :
    ((fill_leg (2 ^ 31 - 1) 1 one_filled).0 ≡ ok)
    × ((fill_leg (2 ^ 31 - 1) 1 one_filled).1.filled_qty ≡ negsuc (2 ^ 31 - 1))
unfolding wrap ◌+ℤ◌
overfill_run = (refl, refl)

id_run : (phys_id_make 5 nxt ≡ 82) × (phys_id_market 82 ≡ some nxt) × (phys_id_logical 82 ≡ 5)
unfolding phys_id_make phys_id_market phys_id_logical
id_run = (refl, refl, refl)
