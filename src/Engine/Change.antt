-- ===== src/Engine/Change.antt =====
-- Cancel and modify: exchange/src/match/match_cancel_modify.c.
use trading_sor_mock.Base.{
  ℕ, Bool, true, false, ◌&&◌, ◌||◌, not, none, some, ltb, leb, ◌==◌, if◌then◌else◌,
}
use trading_sor_mock.Base.Int.{ℤ}
use trading_sor_mock.Types.{
  Side, buy, sell, limit, new, partial, canceled, rejected, ErrorCode, ok, invalid_price,
  invalid_qty, invalid_tick, price_limit, not_supported, not_found, qty_max, Order,
  order_remaining_qty, is_ok, opposite,
}
use trading_sor_mock.Tick.{is_valid_tick_in}
use trading_sor_mock.Level.{store}
use trading_sor_mock.Book.Prices.{OrderBook, book_price_none}
use trading_sor_mock.Book.{book_insert, book_remove, book_amend_qty}
use trading_sor_mock.Index.{order_id_invalid, index_get, index_remove}
use trading_sor_mock.Pool.{order_pool_release}
use trading_sor_mock.Engine.State.{
  EventType, event_canceled, event_rejected, event_modified, OrderEvent, ExecResult, MatchEngine,
  match_emit, match_result_init, match_reject, match_gate_submit, match_gate_cancel,
  match_allows_reprice,
}
use trading_sor_mock.Engine.Orders.{Answer}

-- An event of a cancel or modify, about the order in slot `p`.
abbrev pub change_event :
    MatchEngine → EventType → (ts : ℤ) → (id p price qty remaining : ℕ) → OrderEvent
change_event eng type ts id p price qty remaining = record {
  type = type;
  ts = ts;
  order_id = id;
  market = (eng.pool.slots p).market;
  price = price;
  qty = qty;
  remaining_qty = remaining;
  counterparty_id = order_id_invalid;
  reason = ok;
}

-- `match_cancel` of the order in slot `p`.
unfoldable pub cancel_slot : MatchEngine → (id p : ℕ) → (ts : ℤ) → ExecResult → Answer
cancel_slot eng id p ts out =
    let canceled_qty = order_remaining_qty (eng.pool.slots p) in
    let (rc, book) = book_remove eng.pool.slots eng.book p in
    let eng' = record eng {
      book = book;
      index = (index_remove eng.index id).1;
      pool = order_pool_release eng.pool p;
    } in
    let event = change_event eng event_canceled ts id p (eng.pool.slots p).price canceled_qty 0 in
    if not (is_ok rc) then (rc, record eng { book = book }, out) else (
      ok,
      match_emit eng' event,
      record out { remaining_qty = canceled_qty; resting = false; status = canceled },
    )

unfoldable pub match_cancel : MatchEngine → (id : ℕ) → (ts : ℤ) → Answer
match_cancel eng id ts =
    let out = match_result_init 0 in
    let gate = match_gate_cancel eng ts in
    if not (is_ok gate)
    then (gate, eng, record out { status = rejected })
    else elim (index_get eng.index id) [
      | none ↦ (not_found, eng, record out { status = rejected })
      | some p ↦ cancel_slot eng id p ts out
    ]

-- The answer of a modify that leaves the order in slot `p` in the book.
unfoldable pub modified :
    MatchEngine → (id p new_price new_qty : ℕ) → (ts : ℤ) → ExecResult → Answer
modified eng id p new_price new_qty ts out =
    let remaining = order_remaining_qty (eng.pool.slots p) in
    (
      ok,
      match_emit eng (change_event eng event_modified ts id p new_price new_qty remaining),
      record out {
        remaining_qty = remaining;
        resting = true;
        status = if ltb 0 (eng.pool.slots p).filled_qty then partial else new;
      },
    )

-- The checks of `match_modify` on the order.
unfoldable pub check_modify : MatchEngine → Order → (new_price new_qty : ℕ) → ErrorCode
check_modify eng order new_price new_qty =
    if not (new_price == order.price) && not (match_allows_reprice eng order.type)
    then not_supported
    else if ltb new_price eng.book.low || ltb eng.book.high new_price
    then price_limit
    else if not (is_valid_tick_in eng.book.tick_table new_price)
    then invalid_tick
    else if leb new_qty order.filled_qty || ltb qty_max new_qty
    then invalid_qty
    else ok

-- Whether a price of a side crosses the best price of the other.
unfoldable pub modify_crosses : OrderBook → Side → ℕ → Bool
modify_crosses book side new_price =
    let other = book.best (opposite side) in
    if other == book_price_none
    then false
    else elim side [ buy ↦ leb other new_price | sell ↦ leb new_price other ]

-- The end of `match_modify`: the order goes to the back of the queue at its new price.
unfoldable pub requeue : MatchEngine → (id p new_price new_qty : ℕ) → (ts : ℤ) → ExecResult → Answer
requeue eng id p new_price new_qty ts out =
    let order = eng.pool.slots p in
    let (rc, book) = book_remove eng.pool.slots eng.book p in
    let slots = store eng.pool.slots p (record order { price = new_price; qty = new_qty }) in
    let pool = record eng.pool { slots = slots } in
    let (rc', book') = book_insert slots book p in
    let dropped = record eng {
      book = book';
      index = (index_remove eng.index id).1;
      pool = order_pool_release pool p;
    } in
    let event = change_event eng event_rejected ts id p new_price new_qty 0 in
    if not (is_ok rc)
    then match_reject (record eng { book = book }) ts id order.market order.price new_qty rc out
    else if not (is_ok rc')
    then (rc', match_emit dropped (record event { reason = rc' }), record out { status = rejected })
    else modified (record eng { book = book'; pool = pool }) id p new_price new_qty ts out

-- `match_modify` of the order in slot `p`.
unfoldable pub modify_slot :
    MatchEngine → (id p new_price new_qty : ℕ) → (ts : ℤ) → ExecResult → Answer
modify_slot eng id p new_price new_qty ts out =
    let order = eng.pool.slots p in
    let same_price = new_price == order.price in
    let refuse =
      λ (rc : ErrorCode). match_reject eng ts id order.market order.price new_qty rc out in
    let check = check_modify eng order new_price new_qty in
    let amended = book_amend_qty eng.pool.slots eng.book p new_qty in
    let eng' = record eng { pool = record eng.pool { slots = amended.1 }; book = amended.2 } in
    if not (is_ok check)
    then refuse check
    else if same_price && ltb new_qty order.qty
    then (if is_ok amended.0 then modified eng' id p new_price new_qty ts out else refuse amended.0)
    else if same_price && new_qty == order.qty
    then modified eng id p new_price new_qty ts out
    else if modify_crosses eng.book order.side new_price
    then refuse invalid_price
    else requeue eng id p new_price new_qty ts out

unfoldable pub match_modify : MatchEngine → (id new_price new_qty : ℕ) → (ts : ℤ) → Answer
match_modify eng id new_price new_qty ts =
    let out = match_result_init new_qty in
    let gate = match_gate_submit eng ts limit in
    if not (is_ok gate)
    then (gate, eng, record out { status = rejected })
    else elim (index_get eng.index id) [
      | none ↦ (not_found, eng, record out { status = rejected })
      | some p ↦ modify_slot eng id p new_price new_qty ts out
    ]
