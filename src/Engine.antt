-- ===== src/Engine.antt =====
-- exchange/src/match/: the matching engine of one symbol on one market. `Engine/State` has its state
-- and its gates, this file the sweep and the resting of the rest, `Engine/Orders` the kinds of
-- orders, and `Engine/Change` cancel and modify. A pointer argument is not NULL.
pub mod State
pub mod Orders
pub mod Change
pub mod Sweep
pub mod Taking
pub mod Finish
pub mod Complete
pub mod Invariant
pub mod Rest
pub mod Submit
pub mod Reached
pub mod Refusals
pub mod Limit
pub mod Examples
pub mod Checks
pub mod Tests
use trading_sor_mock.Base.{
  ℕ, zero, suc, ◌+◌, ◌-◌, ◌*◌, min, Bool, true, ◌||◌, not, Option, none, some, [], ◌∷◌, ◌++◌, ltb,
  leb, ◌==◌, if◌then◌else◌, length,
}
use trading_sor_mock.Types.{
  Side, buy, sell, market, filled, ErrorCode, ok, invalid_arg, invalid_qty, duplicate,
  pool_exhausted, qty_min, qty_max, Order, order_remaining_qty, is_ok, opposite,
}
use trading_sor_mock.Level.{store}
use trading_sor_mock.Book.Prices.{book_price_none}
use trading_sor_mock.Book.{book_insert, book_remove, book_front, book_reduce_qty}
use trading_sor_mock.Index.{order_id_invalid, index_put, index_get, index_remove}
use trading_sor_mock.Pool.{order_pool_acquire, order_pool_release}
use trading_sor_mock.Engine.State.{
  EventType, event_executed, event_partially_executed, Fill, exec_fills_max, ExecResult,
  MatchEngine, match_emit,
}

unfoldable pub match_validate : MatchEngine → Order → ErrorCode
match_validate eng req =
    if req.id == order_id_invalid
    then invalid_arg
    else if ltb req.qty qty_min || ltb qty_max req.qty || not (req.filled_qty == 0)
    then invalid_qty
    else elim (index_get eng.index req.id) [ none ↦ ok | some _ ↦ duplicate ]

unfoldable pub crosses : Side → (bound book_price : ℕ) → Bool
crosses side bound book_price =
    if bound == book_price_none
    then true
    else elim side [ buy ↦ leb book_price bound | sell ↦ leb bound book_price ]

unfoldable pub record_fill : ExecResult → Fill → ExecResult
record_fill out fill =
    let out' = record out {
      filled_qty = out.filled_qty + fill.qty;
      notional = out.notional + fill.price * fill.qty;
    } in
    if ltb (length out.fills) exec_fills_max
    then record out' { fills = out.fills ++ (fill ∷ []) }
    else record out' { truncated = true }

-- The best price and the order that a round of `match_sweep` takes from, if the loop goes on.
unfoldable pub next_maker : MatchEngine → Order → (bound remaining : ℕ) → Option (ℕ × ℕ)
next_maker eng taker bound remaining =
    let maker_side = opposite taker.side in
    let best = eng.book.best maker_side in
    if remaining == 0 || best == book_price_none || not (crosses taker.side bound best)
    then none
    else elim (book_front eng.book maker_side best) [ none ↦ none | some p ↦ some (best, p) ]

-- What a round of `match_sweep` does to the order in slot `p`, of which it takes `fill_qty`.
unfoldable pub take_maker : MatchEngine → (p fill_qty : ℕ) → MatchEngine
take_maker eng p fill_qty =
    let maker = eng.pool.slots p in
    let filled = record eng.pool {
      slots = store eng.pool.slots p (record maker { filled_qty = maker.filled_qty + fill_qty });
    } in
    let reduced = book_reduce_qty eng.pool.slots eng.book p fill_qty in
    if fill_qty == order_remaining_qty maker
    then record eng {
      book = (book_remove eng.pool.slots eng.book p).1;
      index = (index_remove eng.index maker.id).1;
      pool = order_pool_release filled p;
    }
    else record eng { book = reduced.2; pool = record eng.pool { slots = reduced.1 } }

abbrev pub executed_event : ℕ → EventType
executed_event remaining = if remaining == 0 then event_executed else event_partially_executed

-- The fill of a round of `match_sweep`.
unfoldable pub fill_of : MatchEngine → Order → (best p remaining : ℕ) → Fill
fill_of eng taker best p remaining = record {
  price = best;
  qty = min remaining (order_remaining_qty (eng.pool.slots p));
  maker_id = (eng.pool.slots p).id;
  taker_id = taker.id;
  ts = taker.ts;
}

-- The two events of a round of `match_sweep`: the maker's, then the taker's.
unfoldable pub emit_fill :
    MatchEngine → Order → (maker : Order) → Fill → (remaining : ℕ) → MatchEngine
emit_fill eng taker maker fill remaining =
    let maker_rem = order_remaining_qty maker - fill.qty in
    let eng' = match_emit eng (record {
      type = executed_event maker_rem;
      ts = taker.ts;
      order_id = maker.id;
      market = maker.market;
      price = fill.price;
      qty = fill.qty;
      remaining_qty = maker_rem;
      counterparty_id = taker.id;
      reason = ok;
    }) in
    match_emit eng' (record {
      type = executed_event remaining;
      ts = taker.ts;
      order_id = taker.id;
      market = taker.market;
      price = fill.price;
      qty = fill.qty;
      remaining_qty = remaining;
      counterparty_id = maker.id;
      reason = ok;
    })

-- The loop of `match_sweep`: what remains, the engine and the result.
unfoldable pub sweep_from :
    (fuel : ℕ)
    → MatchEngine
    → Order
    → (bound remaining : ℕ) → ExecResult
    → ℕ × MatchEngine × ExecResult
sweep_from zero eng taker bound remaining out = (remaining, eng, out)
sweep_from (suc fuel) eng taker bound remaining out = elim (next_maker eng taker bound remaining) [
  | none ↦ (remaining, eng, out)
  | some (best, p) ↦
      let fill = fill_of eng taker best p remaining in
      let rest = remaining - fill.qty in
      let eng' = emit_fill (take_maker eng p fill.qty) taker (eng.pool.slots p) fill rest in
      sweep_from fuel eng' taker bound rest (record_fill out fill)
]

-- `match_sweep`; each round fills at least one, so that the quantity is enough fuel.
unfoldable pub match_sweep :
    MatchEngine → Order → (bound : ℕ) → ExecResult → ℕ × MatchEngine × ExecResult
match_sweep eng taker bound out = sweep_from taker.qty eng taker bound taker.qty out

unfoldable pub match_rest :
    MatchEngine → Order → (remaining : ℕ) → ExecResult → ErrorCode × MatchEngine × ExecResult
match_rest eng req remaining out =
    let (acquired, pool) = order_pool_acquire eng.pool in
    elim acquired [
      | none ↦ (pool_exhausted, eng, out)
      | some p ↦
          let slots = store pool.slots p (record req { filled_qty = req.qty - remaining }) in
          let pool' = record pool { slots = slots } in
          let (rc, book) = book_insert slots eng.book p in
          let (rc', index) = index_put eng.index req.id p in
          if not (is_ok rc)
          then (rc, record eng { book = book; pool = order_pool_release pool' p }, out)
          else if not (is_ok rc')
          then (
            rc',
            record eng {
              book = (book_remove slots book p).1;
              index = index;
              pool = order_pool_release pool' p;
            },
            out,
          )
          else (
            ok,
            record eng { book = book; pool = pool'; index = index },
            record out { resting = true },
          )
    ]
