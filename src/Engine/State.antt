-- ===== src/Engine/State.antt =====
-- exchange/src/match/match_engine.c, match_internal.h and the types of exchange/include/match.h and
-- event.h: the state of an engine, its events, and the gates that the market's rules put before an
-- order. The events that the sink was given are a list.
use trading_sor_mock.Base.{
  ℕ, Bool, true, false, ◌||◌, not, Option, none, some, List, [], ◌∷◌, ◌++◌, ◌==◌, if◌then◌else◌,
}
use trading_sor_mock.Base.Int.{ℤ}
use trading_sor_mock.Types.{
  OrderType, OrderStatus, new, rejected, Market, ErrorCode, ok, market_closed, not_supported, Order,
}
use trading_sor_mock.Tick.{TickTable}
use trading_sor_mock.Book.Prices.{OrderBook, book_create_in}
use trading_sor_mock.Rules.{MarketRules}
use trading_sor_mock.Index.{OrderIndex, order_id_invalid, index_create}
use trading_sor_mock.Pool.{OrderPool, order_pool_create}

-- `event_type_t`
pub data EventType : Type 0 where
  event_accepted event_executed event_partially_executed : EventType
  event_canceled event_rejected event_modified : EventType

-- `order_event_t`
pub record OrderEvent : Type 0 where
  pub type : EventType
  pub ts : ℤ
  pub order_id : ℕ
  pub market : Market
  pub price : ℕ
  pub qty : ℕ
  pub remaining_qty : ℕ
  pub counterparty_id : ℕ
  pub reason : ErrorCode

-- `fill_t`
pub record Fill : Type 0 where
  pub price : ℕ
  pub qty : ℕ
  pub maker_id : ℕ
  pub taker_id : ℕ
  pub ts : ℤ

abbrev pub exec_fills_max : ℕ
exec_fills_max = 64

-- `exec_result_t`; `fill_count` is the length of `fills`.
pub record ExecResult : Type 0 where
  pub fills : List Fill
  pub truncated : Bool
  pub filled_qty : ℕ
  pub notional : ℕ
  pub remaining_qty : ℕ
  pub resting : Bool
  pub status : OrderStatus

-- `match_engine_t`; the events are those that the sink was given, or `none` without a sink.
pub record MatchEngine : Type 0 where
  pub capacity : ℕ
  pub book : OrderBook
  pub pool : OrderPool
  pub index : OrderIndex
  pub rules : Option MarketRules
  pub sink : Option (List OrderEvent)

-- `match_engine_create_in`; memory is taken to suffice.
unfoldable pub match_engine_create_in : TickTable → (base_price capacity : ℕ) → Option MatchEngine
match_engine_create_in table base_price capacity =
    if capacity == 0 then none else elim (book_create_in table base_price) [
      | none ↦ none
      | some book ↦ elim (order_pool_create capacity) [
        | none ↦ none
        | some pool ↦ elim (index_create capacity) [
          | none ↦ none
          | some index ↦ some (record {
            capacity = capacity;
            book = book;
            pool = pool;
            index = index;
            rules = none;
            sink = none;
          })
        ]
      ]
    ]

-- `match_set_sink`; a sink starts without events.
unfoldable pub match_set_sink : MatchEngine → Bool → MatchEngine
match_set_sink eng has_sink = record eng { sink = if has_sink then some [] else none }

unfoldable pub match_set_rules : MatchEngine → Option MarketRules → MatchEngine
match_set_rules eng rules = record eng { rules = rules }

-- `match_emit`
unfoldable pub match_emit : MatchEngine → OrderEvent → MatchEngine
match_emit eng ev = elim eng.sink [
  | none ↦ eng
  | some events ↦ record eng { sink = some (events ++ (ev ∷ [])) }
]

-- `match_result_init`
unfoldable pub match_result_init : ℕ → ExecResult
match_result_init order_qty = record {
  fills = [];
  truncated = false;
  filled_qty = 0;
  notional = 0;
  remaining_qty = order_qty;
  resting = false;
  status = new;
}

-- `match_reject`
unfoldable pub match_reject :
    MatchEngine
    → (ts : ℤ) → (id : ℕ) → Market
    → (price qty : ℕ) → ErrorCode
    → ExecResult
    → ErrorCode × MatchEngine × ExecResult
match_reject eng ts id market price qty rc out = (
  rc,
  match_emit eng (record {
    type = event_rejected;
    ts = ts;
    order_id = id;
    market = market;
    price = price;
    qty = qty;
    remaining_qty = qty;
    counterparty_id = order_id_invalid;
    reason = rc;
  }),
  record out { status = rejected },
)

unfoldable pub match_gate_submit : MatchEngine → ℤ → OrderType → ErrorCode
match_gate_submit eng ts type = elim eng.rules [
  | none ↦ ok
  | some rules ↦
      let (is_open, session) = rules.is_open ts in
      if not is_open || not (rules.can_submit session)
      then market_closed
      else if not (rules.is_order_type_allowed session type)
      then not_supported
      else ok
]

unfoldable pub match_gate_cancel : MatchEngine → ℤ → ErrorCode
match_gate_cancel eng ts = elim eng.rules [
  | none ↦ ok
  | some rules ↦ if rules.can_cancel (rules.is_open ts).1 then ok else market_closed
]

unfoldable pub match_resolve_price : MatchEngine → Order → ℕ
match_resolve_price eng req = elim eng.rules [
  | none ↦ req.price
  | some rules ↦ elim rules.resolve_price [ none ↦ req.price | some f ↦ f eng.book req ]
]

unfoldable pub match_allows_reprice : MatchEngine → OrderType → Bool
match_allows_reprice eng type = elim eng.rules [
  | none ↦ true
  | some rules ↦ elim rules.allows_reprice [ none ↦ true | some f ↦ f type ]
]
