-- ===== src/Engine/Orders.antt =====
-- The kinds of orders: exchange/src/match/match_limit.c, match_market.c and match_ioc_fok.c.
use trading_sor_mock.Base.{ℕ, false, ◌||◌, not, ltb, ◌==◌, if◌then◌else◌}
use trading_sor_mock.Base.Int.{pos, ltb_ℤ}
use trading_sor_mock.Types.{
  OrderStatus, new, partial, filled, rejected, ErrorCode, ok, invalid_price, invalid_tick,
  price_limit, no_liquidity, Order, is_ok, opposite,
}
use trading_sor_mock.Tick.{is_valid_tick_in}
use trading_sor_mock.Book.Prices.{book_price_none}
use trading_sor_mock.Book.{book_qty_up_to}
use trading_sor_mock.Index.{order_id_invalid}
use trading_sor_mock.Engine.State.{
  EventType, event_accepted, event_canceled, event_rejected, OrderEvent, ExecResult, MatchEngine,
  match_emit, match_result_init, match_reject, match_gate_submit, match_resolve_price,
}
use trading_sor_mock.Engine.{match_validate, match_sweep, match_rest}

-- What an operation of the engine returns.
abbrev pub Answer : Type 0
Answer = ErrorCode × MatchEngine × ExecResult

-- `REJECT` of a new order
unfoldable pub reject : MatchEngine → Order → ErrorCode → ExecResult → Answer
reject eng req rc out = match_reject eng req.ts req.id req.market req.price req.qty rc out

-- The price checks of `match_limit` and of `check_price`.
unfoldable pub check_price : MatchEngine → Order → ErrorCode
check_price eng req =
    if ltb req.price eng.book.low || ltb eng.book.high req.price
    then price_limit
    else if not (is_valid_tick_in eng.book.tick_table req.price)
    then invalid_tick
    else ok

-- An event about an order of its own.
abbrev pub own_event : EventType → Order → (qty remaining : ℕ) → ErrorCode → OrderEvent
own_event type req qty remaining reason = record {
  type = type;
  ts = req.ts;
  order_id = req.id;
  market = req.market;
  price = req.price;
  qty = qty;
  remaining_qty = remaining;
  counterparty_id = order_id_invalid;
  reason = reason;
}

abbrev pub partial_or : ExecResult → OrderStatus → OrderStatus
partial_or out status = if ltb 0 out.filled_qty then partial else status

-- The end of `match_limit`, after the sweep.
unfoldable pub limit_rest : Order → (remaining : ℕ) → MatchEngine → ExecResult → Answer
limit_rest req remaining eng out =
    if ltb 0 remaining
    then (let (rc, eng', out') = match_rest eng req remaining out in
        (if is_ok rc
          then (
            ok,
            match_emit eng' (own_event event_accepted req req.qty remaining ok),
            record out' { status = partial_or out' new },
          )
          else (
            rc,
            match_emit eng' (own_event event_rejected req remaining remaining rc),
            record out' { status = partial_or out' rejected },
          )))
    else (ok, eng, record out { status = filled })

-- `match_limit` with the price that the rules gave.
unfoldable pub limit_at : MatchEngine → Order → ExecResult → Answer
limit_at eng req out =
    if req.price == book_price_none
    then reject eng req invalid_price out
    else if not (is_ok (check_price eng req))
    then reject eng req (check_price eng req) out
    else if not (is_ok (match_validate eng req))
    then reject eng req (match_validate eng req) out
    else (let (remaining, eng', out') = match_sweep eng req req.price out in
        (limit_rest req remaining eng' (record out' { remaining_qty = remaining })))

unfoldable pub match_limit : MatchEngine → Order → Answer
match_limit eng req =
    let out = match_result_init req.qty in
    let gate = match_gate_submit eng req.ts req.type in
    if not (is_ok gate)
    then reject eng req gate out
    else limit_at eng (record req { price = match_resolve_price eng req }) out

-- The end of `match_market` and `match_ioc`: what remains is canceled.
unfoldable pub cancel_rest : Order → (remaining : ℕ) → MatchEngine → ExecResult → Answer
cancel_rest req remaining eng out = (
  ok,
  if ltb 0 remaining then match_emit eng (own_event event_canceled req remaining 0 ok) else eng,
  record out {
    remaining_qty = remaining;
    resting = false;
    status = if remaining == 0 then filled else partial;
  },
)

unfoldable pub match_market : MatchEngine → Order → Answer
match_market eng req =
    let out = match_result_init req.qty in
    let gate = match_gate_submit eng req.ts req.type in
    if not (is_ok gate)
    then reject eng req gate out
    else if not (is_ok (match_validate eng req))
    then reject eng req (match_validate eng req) out
    else if eng.book.best (opposite req.side) == book_price_none
    then reject eng req no_liquidity out
    else (let (remaining, eng', out') = match_sweep eng req book_price_none out in
        (cancel_rest req remaining eng' out'))

unfoldable pub match_ioc : MatchEngine → Order → Answer
match_ioc eng req =
    let out = match_result_init req.qty in
    let gate = match_gate_submit eng req.ts req.type in
    if not (is_ok gate)
    then reject eng req gate out
    else if not (is_ok (check_price eng req))
    then reject eng req (check_price eng req) out
    else if not (is_ok (match_validate eng req))
    then reject eng req (match_validate eng req) out
    else (let (remaining, eng', out') = match_sweep eng req req.price out in
        (if out'.filled_qty == 0
          then reject eng' req no_liquidity
              (record out' { remaining_qty = remaining; resting = false })
          else cancel_rest req remaining eng' out'))

unfoldable pub match_fok : MatchEngine → Order → Answer
match_fok eng req =
    let out = match_result_init req.qty in
    let gate = match_gate_submit eng req.ts req.type in
    if not (is_ok gate)
    then reject eng req gate out
    else if not (is_ok (check_price eng req))
    then reject eng req (check_price eng req) out
    else if not (is_ok (match_validate eng req))
    then reject eng req (match_validate eng req) out
    else if ltb_ℤ (book_qty_up_to eng.book (opposite req.side) req.price req.qty) (pos req.qty)
    then reject eng req no_liquidity out
    else (let (remaining, eng', out') = match_sweep eng req req.price out in
        ((ok, eng', record out' { remaining_qty = remaining; resting = false; status = filled })))
