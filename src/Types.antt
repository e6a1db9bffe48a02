-- ===== src/Types.antt =====
-- core/include/types.h, core/include/order.h and core/include/errors.h: the shared enumerations,
-- limits and structs. `price_t` and `qty_t` (int32) and `order_id_t` (uint64) are natural
-- numbers, `ts_t` (int64) is an integer.
use trading_sor_mock.Base.{arith, ℕ, ◌-◌, Bool, true, false, ◌≡◌, refl, ◌⊎◌, inl, inr}
use trading_sor_mock.Base.Int.{ℤ}

-- `side_t`
pub data Side : Type 0 where
  buy sell : Side

-- `order_type_t`
pub data OrderType : Type 0 where
  limit market ioc fok midpoint : OrderType

-- `order_status_t`
pub data OrderStatus : Type 0 where
  new partial filled canceled rejected : OrderStatus

-- `market_t`
pub data Market : Type 0 where
  krx nxt : Market

-- `error_code_t`
pub data ErrorCode : Type 0 where
  ok invalid_arg null_ptr invalid_price invalid_qty invalid_tick price_limit : ErrorCode
  market_closed not_supported not_found duplicate pool_exhausted book_full : ErrorCode
  no_liquidity no_margin limit_exceeded io_error not_logged_in : ErrorCode

abbrev pub price_min : ℕ
price_min = 1

abbrev pub price_max : ℕ
price_max = 10_000_000

abbrev pub qty_min : ℕ
qty_min = 1

abbrev pub qty_max : ℕ
qty_max = 1_000_000

abbrev pub price_limit_pct : ℕ
price_limit_pct = 30

abbrev pub int32_max : ℕ
int32_max = 2_147_483_647

-- `order_t` without its list links, which the queue of a price level stands for. `ts` is the
-- logical time.
pub record Order : Type 0 where
  pub id : ℕ
  pub client_order_id : ℕ
  pub ts : ℤ
  pub price : ℕ
  pub qty : ℕ
  pub filled_qty : ℕ
  pub side : Side
  pub type : OrderType
  pub market : Market

-- `order_remaining_qty`
abbrev pub order_remaining_qty : Order → ℕ
order_remaining_qty o = o.qty - o.filled_qty

abbrev pub is_ok : ErrorCode → Bool
is_ok ok = true
is_ok _ = false

abbrev pub is_buy : Side → Bool
is_buy buy = true
is_buy sell = false

-- `(side == SIDE_BUY) ? SIDE_SELL : SIDE_BUY`
abbrev pub opposite : Side → Side
opposite buy = sell
opposite sell = buy

abbrev pub side_eq : Side → Side → Bool
side_eq buy buy = true
side_eq sell sell = true
side_eq _ _ = false

-- The results that the code returns as a value or a negative error code.
pub data Result {ℓ} (A : Type ℓ) : Type ℓ where
  done : A → Result A
  fail : ErrorCode → Result A

pub Result-cases {ℓ} :
    {A : Type ℓ} (r : Result A) → ((a : A) × (r ≡ done a)) ⊎ ((e : ErrorCode) × (r ≡ fail e))
Result-cases (done a) = inl (a, refl)
Result-cases (fail e) = inr (e, refl)

pub is_ok→ok : (e : ErrorCode) → is_ok e ≡ true → e ≡ ok
is_ok→ok e h = ground arith
