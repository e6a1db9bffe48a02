-- ===== src/Rules/Tests.antt =====
-- Runs of the markets' rules, and the theorems at concrete times and books.
use trading_sor_mock.Base.{ℕ, ◌+◌, ◌≤◌, ◌<◌, ◌≡◌, refl, true, false, [], arith, if◌then◌else◌}
use trading_sor_mock.Base.Int.{pos, negsuc, ◌+ℤ◌}
use trading_sor_mock.Types.{buy, limit, midpoint, nxt, Order, is_buy}
use trading_sor_mock.Tick.{krx_table, tick_size_in, is_valid_tick_in, round_to_tick_in}
use trading_sor_mock.Level.{empty_level}
use trading_sor_mock.Book.Prices.{OrderBook}
use trading_sor_mock.Rules.{
  session_pre, session_regular, ns_per_day, tod_ns, ts_time_of_day, session_eq, krx_is_open,
  krx_type_allowed, krx_can_submit, krx_can_cancel, nxt_type_allowed, nxt_can_submit,
  nxt_can_cancel, nxt_resolve_price, nxt_allows_reprice,
}
use trading_sor_mock.Rules.Laws.{ts_time_of_day_lem, rules_lem, nxt_resolve_price_lem}

-- A second before midnight, one second before the epoch.
before_epoch : ts_time_of_day (negsuc 999_999_999) ≡ tod_ns 23 59 59
unfolding ts_time_of_day
before_epoch = refl

ts_time_of_day_lem_example :
    (ts_time_of_day (negsuc 5) < ns_per_day)
    × ((n : ℕ) → n < ns_per_day → negsuc 5 ≡ pos n → ts_time_of_day (negsuc 5) ≡ n)
    × (ts_time_of_day (negsuc 5 +ℤ pos ns_per_day) ≡ ts_time_of_day (negsuc 5))
ts_time_of_day_lem_example = ts_time_of_day_lem (negsuc 5)

rules_lem_example :
    (krx_type_allowed session_pre limit ≡ true → krx_can_submit session_pre ≡ true)
    × (krx_can_submit session_pre ≡ true → krx_can_cancel session_pre ≡ true)
    × (nxt_type_allowed session_pre limit ≡ true → nxt_can_submit session_pre ≡ true)
    × (nxt_can_submit session_pre ≡ true → nxt_can_cancel session_pre ≡ true)
    × ((krx_is_open (pos 0)).0 ≡ krx_can_submit (krx_is_open (pos 0)).1)
    × (krx_type_allowed session_pre midpoint ≡ false)
    × (nxt_type_allowed session_pre midpoint ≡ session_eq session_pre session_regular)
    × (nxt_allows_reprice midpoint ≡ false)
rules_lem_example = rules_lem session_pre limit (pos 0)

-- A book with a bid at 10,000 and an ask at 10,030, where 10,010 is the greatest price not above
-- the middle.
abbrev quoted_book : OrderBook
quoted_book = record {
  tick_table = krx_table;
  base_price = 10_000;
  low = 7_000;
  high = 13_000;
  seg = [];
  level_count = 0;
  levels = λ _ _. empty_level;
  best = λ s. if is_buy s then 10_000 else 10_030;
}

abbrev mid_order : Order
mid_order = record {
  id = 1;
  client_order_id = 1;
  ts = pos 0;
  price = 0;
  qty = 5;
  filled_qty = 0;
  side = buy;
  type = midpoint;
  market = nxt;
}

mid_price : nxt_resolve_price quoted_book mid_order ≡ 10_010
unfolding nxt_resolve_price round_to_tick_in tick_size_in
mid_price = refl

bid_valid : is_valid_tick_in krx_table 10_000 ≡ true
unfolding is_valid_tick_in tick_size_in
bid_valid = refl

nxt_resolve_price_lem_example :
    let p = nxt_resolve_price quoted_book mid_order in
    (is_valid_tick_in krx_table p ≡ true)
    × (10_000 ≤ p)
    × (p < 10_030)
    × (p + p ≤ 10_000 + 10_030)
    × ((q : ℕ) → is_valid_tick_in krx_table q ≡ true → q + q ≤ 10_000 + 10_030 → q ≤ p)
nxt_resolve_price_lem_example =
    nxt_resolve_price_lem quoted_book mid_order refl bid_valid (omega arith) (omega arith)
