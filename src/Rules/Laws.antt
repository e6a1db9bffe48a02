-- ===== src/Rules/Laws.antt =====
-- The sessions of a day and the midpoint price (exchange/include/market_rules.h and
-- exchange/src/rules/).
use trading_sor_mock.Base.{
  ℕ, suc, ◌+◌, ◌-◌, ◌/◌, ◌%◌, ◌≤◌, ◌<◌, ◌≡◌, refl, ◌∙◌, inl, inr, true, false, arith, ltb,
  if◌then◌else◌, le→leb, lt→leb_false, ==_false, compare_cases,
}
use trading_sor_mock.Base.Int.{ℤ, pos, negsuc, sub_ℕ, ◌+ℤ◌}
use trading_sor_mock.Types.{buy, sell, OrderType, midpoint, price_max, Order}
use trading_sor_mock.Tick.{is_valid_tick_in}
use trading_sor_mock.Tick.Laws.{round_down, round_down_greatest}
use trading_sor_mock.Book.Prices.{OrderBook}
use trading_sor_mock.Book.Segments.{valid_price}
use trading_sor_mock.Rules.{
  MarketSession, session_closed, session_pre, session_pre_break, session_regular,
  session_post_break, session_after, ns_per_day, tod_ns, ts_time_of_day, session_eq, krx_is_open,
  krx_type_allowed, krx_can_submit, krx_can_cancel, nxt_type_allowed, nxt_can_submit,
  nxt_can_cancel, nxt_resolve_price, nxt_allows_reprice,
}

pub ts_time_of_day-lt : (ts : ℤ) → ts_time_of_day ts < ns_per_day
unfolding ts_time_of_day
ts_time_of_day-lt (pos n) = omega arith
ts_time_of_day-lt (negsuc n) = omega arith

-- The clock at a difference of two numbers.
clock_of_difference :
    (a b : ℕ)
    → ts_time_of_day (sub_ℕ a b) ≡ (a % ns_per_day + ns_per_day - b % ns_per_day) % ns_per_day
unfolding ts_time_of_day
clock_of_difference a b = elim (compare_cases a b) [
  | inl h ↦ rw (lt→leb_false b a h) (omega arith)
  | inr h ↦ rw (le→leb b a h) (omega arith)
]

-- The clock of a day: it is below a day's length, it is the time of a time within the first day,
-- and a whole day later it shows the same, for negative times too.
pub ts_time_of_day_lem :
    (ts : ℤ)
    → (ts_time_of_day ts < ns_per_day)
      × ((n : ℕ) → n < ns_per_day → ts ≡ pos n → ts_time_of_day ts ≡ n)
      × (ts_time_of_day (ts +ℤ pos ns_per_day) ≡ ts_time_of_day ts)
unfolding ts_time_of_day ◌+ℤ◌
ts_time_of_day_lem (pos n) = (
  ts_time_of_day-lt (pos n),
  λ m h e. ground (arith, h, e),
  clock_of_difference (n + ns_per_day) 0 ∙ omega arith,
)
ts_time_of_day_lem (negsuc n) = (
  ts_time_of_day-lt (negsuc n),
  λ m h e. ground (arith, h, e),
  clock_of_difference ns_per_day (suc n + 0) ∙ omega arith,
)

-- The session of a time of day, by the end of the sessions only.
abbrev pub nxt_session_at : ℕ → MarketSession
nxt_session_at tod =
    if ltb tod (tod_ns 8 0 0)
    then session_closed
    else if ltb tod (tod_ns 8 50 0)
    then session_pre
    else if ltb tod (tod_ns 9 0 30)
    then session_pre_break
    else if ltb tod (tod_ns 15 20 0)
    then session_regular
    else if ltb tod (tod_ns 15 30 0)
    then session_post_break
    else if ltb tod (tod_ns 20 0 0)
    then session_after
    else session_closed

-- On both markets, an order type is accepted only in a session that takes orders, and a session
-- that takes orders takes cancels; KRX is open just in the session in which it takes orders; and
-- the midpoint order is accepted by NXT in the regular session only, and can not be repriced.
pub rules_lem :
    (s : MarketSession) (type : OrderType) (ts : ℤ)
    → (krx_type_allowed s type ≡ true → krx_can_submit s ≡ true)
      × (krx_can_submit s ≡ true → krx_can_cancel s ≡ true)
      × (nxt_type_allowed s type ≡ true → nxt_can_submit s ≡ true)
      × (nxt_can_submit s ≡ true → nxt_can_cancel s ≡ true)
      × ((krx_is_open ts).0 ≡ krx_can_submit (krx_is_open ts).1)
      × (krx_type_allowed s midpoint ≡ false)
      × (nxt_type_allowed s midpoint ≡ session_eq s session_regular)
      × (nxt_allows_reprice midpoint ≡ false)
unfolding krx_type_allowed krx_can_submit krx_can_cancel nxt_type_allowed nxt_can_submit
    nxt_can_cancel krx_is_open nxt_allows_reprice
rules_lem s type ts = (
  krx_type s type,
  λ h. h,
  nxt_type s type,
  nxt_cancels s,
  ground arith,
  krx_mid s,
  nxt_mid s,
  refl,
)
  where
    krx_type :
        (s : MarketSession) (type : OrderType)
        → krx_type_allowed s type ≡ true
        → krx_can_submit s ≡ true
    krx_type s type h = ground arith

    nxt_type :
        (s : MarketSession) (type : OrderType)
        → nxt_type_allowed s type ≡ true
        → nxt_can_submit s ≡ true
    nxt_type session_closed type h = cc
    nxt_type session_pre type h = refl
    nxt_type session_pre_break type h = cc
    nxt_type session_regular type h = refl
    nxt_type session_post_break type h = cc
    nxt_type session_after type h = refl

    nxt_cancels : (s : MarketSession) → nxt_can_submit s ≡ true → nxt_can_cancel s ≡ true
    nxt_cancels s h = ground arith

    krx_mid : (s : MarketSession) → krx_type_allowed s midpoint ≡ false
    krx_mid s = ground arith

    nxt_mid : (s : MarketSession) → nxt_type_allowed s midpoint ≡ session_eq s session_regular
    nxt_mid session_closed = refl
    nxt_mid session_pre = refl
    nxt_mid session_pre_break = refl
    nxt_mid session_regular = refl
    nxt_mid session_post_break = refl
    nxt_mid session_after = refl

-- The midpoint price of a book whose best bid is a valid price below the best ask, with an ask of
-- at most PRICE_MAX: the greatest valid price that is not above the middle. It is not below the
-- bid and is below the ask.
pub nxt_resolve_price_lem :
    (book : OrderBook) (req : Order)
    → req.type ≡ midpoint
    → is_valid_tick_in book.tick_table (book.best buy) ≡ true
    → book.best buy < book.best sell
    → book.best sell ≤ price_max
    → let p = nxt_resolve_price book req in
      (is_valid_tick_in book.tick_table p ≡ true)
      × (book.best buy ≤ p)
      × (p < book.best sell)
      × (p + p ≤ book.best buy + book.best sell)
      × ((q : ℕ)
          → is_valid_tick_in book.tick_table q ≡ true
          → q + q ≤ book.best buy + book.best sell
          → q ≤ p)
unfolding nxt_resolve_price
nxt_resolve_price_lem book req e v lt hi =
    let t = book.tick_table in
    let mid = (book.best buy + book.best sell) / 2 in
    let low = (valid_price t (book.best buy) v).0 in
    let (below, valid) = round_down t mid (omega arith) (omega arith) in
    let bid_le = round_down_greatest t mid (book.best buy) (omega arith) v (omega arith) in
    rw
      (
        e,
        ==_false (book.best buy) 0 (λ z. omega (arith, low, z)),
        ==_false (book.best sell) 0 (λ z. omega (arith, lt, z)),
      )
      (
        valid,
        bid_le,
        omega (arith, below, lt),
        omega (arith, below),
        λ q qv h. round_down_greatest t mid q (omega arith) qv (omega (arith, h)),
      )
