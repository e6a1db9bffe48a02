-- ===== src/Rules.antt =====
-- exchange/include/market_rules.h and exchange/src/rules/: the sessions of the two markets and what
-- they accept. A table of rules is a record of functions; an optional entry is an `Option`.
pub mod Laws
pub mod Tests
use trading_sor_mock.Base.{
  ℕ, suc, ◌+◌, ◌-◌, ◌*◌, ◌/◌, ◌%◌, Bool, true, false, ◌&&◌, ◌||◌, not, Option, some, List, [], ◌∷◌,
  ltb, leb, ◌==◌, if◌then◌else◌,
}
use trading_sor_mock.Base.Int.{ℤ, pos, negsuc}
use trading_sor_mock.Types.{buy, sell, OrderType, limit, market, ioc, fok, midpoint, Order}
use trading_sor_mock.Tick.{round_to_tick_in}
use trading_sor_mock.Book.Prices.{OrderBook, book_price_none}

-- `market_session_t`
pub data MarketSession : Type 0 where
  session_closed session_pre session_pre_break : MarketSession
  session_regular session_post_break session_after : MarketSession

-- `market_rules_t`, without the name; `is_open` returns its flag and the session.
pub record MarketRules : Type 0 where
  pub is_open : ℤ → Bool × MarketSession
  pub is_order_type_allowed : MarketSession → OrderType → Bool
  pub can_submit : MarketSession → Bool
  pub can_cancel : MarketSession → Bool
  pub resolve_price : Option (OrderBook → Order → ℕ)
  pub allows_reprice : Option (OrderType → Bool)

-- `NS_PER_SEC` and `NS_PER_DAY`
abbrev pub ns_per_sec : ℕ
ns_per_sec = 1_000_000_000

abbrev pub ns_per_day : ℕ
ns_per_day = 86_400 * ns_per_sec

-- `TOD_NS`
abbrev pub tod_ns : (h m s : ℕ) → ℕ
tod_ns h m s = (h * 3600 + m * 60 + s) * ns_per_sec

-- `ts_time_of_day`; C's `%` of a negative number is not positive.
unfoldable pub ts_time_of_day : ℤ → ℕ
ts_time_of_day (pos n) = (n % ns_per_day + ns_per_day) % ns_per_day
ts_time_of_day (negsuc n) = (ns_per_day - suc n % ns_per_day) % ns_per_day

abbrev pub session_eq : MarketSession → MarketSession → Bool
session_eq session_closed session_closed = true
session_eq session_pre session_pre = true
session_eq session_pre_break session_pre_break = true
session_eq session_regular session_regular = true
session_eq session_post_break session_post_break = true
session_eq session_after session_after = true
session_eq _ _ = false

abbrev pub order_type_eq : OrderType → OrderType → Bool
order_type_eq limit limit = true
order_type_eq market market = true
order_type_eq ioc ioc = true
order_type_eq fok fok = true
order_type_eq midpoint midpoint = true
order_type_eq _ _ = false

unfoldable pub krx_is_open : ℤ → Bool × MarketSession
krx_is_open ts =
    let tod = ts_time_of_day ts in
    if leb (tod_ns 9 0 0) tod && ltb tod (tod_ns 15 30 0)
    then (true, session_regular)
    else (false, session_closed)

unfoldable pub krx_type_allowed : MarketSession → OrderType → Bool
krx_type_allowed session type =
    if not (session_eq session session_regular) then false else not (order_type_eq type midpoint)

unfoldable pub krx_can_submit : MarketSession → Bool
krx_can_submit session = session_eq session session_regular

unfoldable pub krx_can_cancel : MarketSession → Bool
krx_can_cancel session = session_eq session session_regular

unfoldable pub krx_allows_reprice : OrderType → Bool
krx_allows_reprice type = true

unfoldable pub krx_resolve_price : OrderBook → Order → ℕ
krx_resolve_price book req = req.price

-- `KRX_RULES`
abbrev pub krx_rules : MarketRules
krx_rules = record {
  is_open = krx_is_open;
  is_order_type_allowed = krx_type_allowed;
  can_submit = krx_can_submit;
  can_cancel = krx_can_cancel;
  resolve_price = some krx_resolve_price;
  allows_reprice = some krx_allows_reprice;
}

-- A row of `NXT_SESSIONS`
pub record SessionRow : Type 0 where
  pub from : ℕ
  pub to : ℕ
  pub session : MarketSession
  pub opens : Bool

abbrev pub nxt_sessions : List SessionRow
nxt_sessions =
    record { from = tod_ns 8 0 0; to = tod_ns 8 50 0; session = session_pre; opens = true }
    ∷ record {
      from = tod_ns 8 50 0;
      to = tod_ns 9 0 30;
      session = session_pre_break;
      opens = false;
    }
    ∷ record { from = tod_ns 9 0 30; to = tod_ns 15 20 0; session = session_regular; opens = true }
    ∷ record {
      from = tod_ns 15 20 0;
      to = tod_ns 15 30 0;
      session = session_post_break;
      opens = false;
    }
    ∷ record { from = tod_ns 15 30 0; to = tod_ns 20 0 0; session = session_after; opens = true }
    ∷ []

-- The loop of `nxt_is_open`.
unfoldable pub find_session : List SessionRow → ℕ → Bool × MarketSession
find_session [] tod = (false, session_closed)
find_session (row ∷ rows) tod =
    if leb row.from tod && ltb tod row.to then (row.opens, row.session) else find_session rows tod

unfoldable pub nxt_is_open : ℤ → Bool × MarketSession
nxt_is_open ts = find_session nxt_sessions (ts_time_of_day ts)

unfoldable pub nxt_type_allowed : MarketSession → OrderType → Bool
nxt_type_allowed session_regular type = true
nxt_type_allowed session_pre type = order_type_eq type limit
nxt_type_allowed session_after type = order_type_eq type limit
nxt_type_allowed session_closed type = false
nxt_type_allowed session_pre_break type = false
nxt_type_allowed session_post_break type = false

unfoldable pub nxt_can_submit : MarketSession → Bool
nxt_can_submit session =
    session_eq session session_pre
    || session_eq session session_regular
    || session_eq session session_after

unfoldable pub nxt_can_cancel : MarketSession → Bool
nxt_can_cancel session = not (session_eq session session_closed)

unfoldable pub nxt_resolve_price : OrderBook → Order → ℕ
nxt_resolve_price book req =
    if not (order_type_eq req.type midpoint)
    then req.price
    else if book.best buy == book_price_none || book.best sell == book_price_none
    then book_price_none
    else round_to_tick_in book.tick_table ((book.best buy + book.best sell) / 2) false

unfoldable pub nxt_allows_reprice : OrderType → Bool
nxt_allows_reprice type = not (order_type_eq type midpoint)

-- `NXT_RULES`
abbrev pub nxt_rules : MarketRules
nxt_rules = record {
  is_open = nxt_is_open;
  is_order_type_allowed = nxt_type_allowed;
  can_submit = nxt_can_submit;
  can_cancel = nxt_can_cancel;
  resolve_price = some nxt_resolve_price;
  allows_reprice = some nxt_allows_reprice;
}
