-- ===== src/Engine/Examples.antt =====
-- An engine with two asks on KRX, and a bid, for the tests.
use trading_sor_mock.Base.{ℕ, ◌+◌, ◌*◌, ◌||◌, Option, none, some, [], ◌∷◌, ltb, leb, if◌then◌else◌}
use trading_sor_mock.Base.Int.{ℤ, pos}
use trading_sor_mock.Types.{Side, buy, sell, limit, krx, ErrorCode, Order, is_buy}
use trading_sor_mock.Tick.{krx_table}
use trading_sor_mock.Level.{Slots, empty_level}
use trading_sor_mock.Book.Prices.{OrderBook}
use trading_sor_mock.Rules.{tod_ns, krx_rules}
use trading_sor_mock.Index.{empty_place}
use trading_sor_mock.Pool.{slot_nil, slot_in_use, slot_at}
use trading_sor_mock.Engine.State.{MatchEngine}
use trading_sor_mock.Engine.Orders.{match_limit}

abbrev pub order_of : (id price qty : ℕ) → Side → (ts : ℤ) → Order
order_of id price qty side ts = record {
  id = id;
  client_order_id = id;
  ts = ts;
  price = price;
  qty = qty;
  filled_qty = 0;
  side = side;
  type = limit;
  market = krx;
}

abbrev pub after : Option MatchEngine → Order → Option MatchEngine
after eng req = elim eng [ none ↦ none | some e ↦ some (match_limit e req).1 ]

abbrev pub day_start : ℤ
day_start = pos (tod_ns 10 0 0)

-- The book of an engine with two asks, built by hand.
abbrev pub asks_book : OrderBook
asks_book = record {
  tick_table = krx_table;
  base_price = 10_000;
  low = 10_000;
  high = 10_020;
  seg = record { low = 10_000; tick = 10; base_idx = 0; count = 3 } ∷ [];
  level_count = 3;
  levels = λ s i.
      if is_buy s || leb 2 i
      then empty_level
      else record { queue = i ∷ []; total_qty = 5; order_count = 1 };
  best = λ s. if is_buy s then 0 else 10_000;
}

abbrev pub asks : Slots
asks p = order_of (p + 1) (10_000 + p * 10) 5 sell day_start

abbrev pub two_asks : MatchEngine
two_asks = record {
  capacity = 8;
  book = asks_book;
  pool = record {
    slots = asks;
    next =
        λ i. if ltb i 2 then slot_in_use else if ltb (i + 1) 8 then slot_at (i + 1) else slot_nil;
    free_head = slot_at 2;
    capacity = 8;
  };
  index = record { slots = λ _. empty_place; mask = 15; capacity = 8; count = 0 };
  rules = some krx_rules;
  sink = some [];
}

-- A bid for 7 takes 5 at 10,000 and 2 at 10,010.
abbrev pub bid_seven : Order
bid_seven = order_of 9 10_010 7 buy day_start

abbrev pub bid_seven_answer : ErrorCode × ℕ × ℕ × ℕ
bid_seven_answer =
    let (rc, _, out) = match_limit two_asks bid_seven in
    (rc, out.filled_qty, out.notional, out.remaining_qty)
