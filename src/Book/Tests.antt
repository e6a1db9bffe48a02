-- ===== src/Book/Tests.antt =====
-- The book's theorems at the book of a share with a base price of 10,000 won.
use trading_sor_mock.Base.{ℕ, ◌+◌, min, ◌≡◌, refl, some, [], arith, ltb, ◌==◌, if◌then◌else◌}
use trading_sor_mock.Base.Int.{pos, negsuc, ◌+ℤ◌, ◌≤ℤ◌, wrap}
use trading_sor_mock.Types.{Side, buy, sell, limit, krx}
use trading_sor_mock.Tick.{krx_table, tick_size_in, round_to_tick_in}
use trading_sor_mock.Level.{Slots, PriceLevel, empty_level}
use trading_sor_mock.Book.Prices.{
  OrderBook, book_price_none, price_to_index, index_to_price, compute_band, book_create_in,
}
use trading_sor_mock.Book.Grid.{Grid, Priced}
use trading_sor_mock.Book.Create.{Band, Near, book_create_in_lem}
use trading_sor_mock.Book.{scan_index, book_insert, book_remove, within, qty_from, book_qty_up_to}
use trading_sor_mock.Book.Best.{Cached}
use trading_sor_mock.Book.Cache.{empty-Cached}
use trading_sor_mock.Book.Insert.{book_insert-Cached, book_insert-Grid}
use trading_sor_mock.Book.Remove.{book_remove-Cached}
use trading_sor_mock.Book.Depth.{total_within, book_qty_up_to_lem, book_qty_up_to-le}

abbrev created_book : OrderBook
created_book = (book_create_in_lem krx_table 10_000 (omega arith) (omega arith)).0

book_create_in_lem_example :
    (book : OrderBook) × (book_create_in krx_table 10_000 ≡ some book)
    × (book.tick_table ≡ krx_table)
    × Band krx_table 10_000 book.low book.high
    × Near 10_000 book.low book.high
    × Priced book
    × ((s : Side) (i : ℕ) → book.levels s i ≡ empty_level)
    × ((s : Side) → book.best s ≡ book_price_none)
book_create_in_lem_example = book_create_in_lem krx_table 10_000 (omega arith) (omega arith)

-- Bids, the highest in slot 0.
abbrev bids : Slots
bids p = record {
  id = p + 1;
  client_order_id = 0;
  ts = pos p;
  price = if p == 0 then 9_990 else 9_900;
  qty = 10;
  filled_qty = 0;
  side = buy;
  type = limit;
  market = krx;
}

created-Grid : Grid created_book
created-Grid = (book_create_in_lem krx_table 10_000 (omega arith) (omega arith)).5.grid

created-Cached : Cached created_book
created-Cached =
    let (_, _, _, _, _, _, levels, best) =
      book_create_in_lem krx_table 10_000 (omega arith) (omega arith) in
    empty-Cached created_book levels best

book_insert-Cached_example : Cached (book_insert bids created_book 0).1
book_insert-Cached_example = book_insert-Cached bids created_book 0 created-Grid created-Cached

one_bid-Cached : Cached (book_insert bids created_book 0).1
one_bid-Cached = book_insert-Cached bids created_book 0 created-Grid created-Cached

book_remove-Cached_example : Cached (book_remove bids (book_insert bids created_book 0).1 0).1
book_remove-Cached_example =
    book_remove-Cached bids (book_insert bids created_book 0).1 0
      (book_insert-Grid bids created_book 0 created-Grid) one_bid-Cached

-- The book with two levels of offers: 40 shares at the lowest price and 60 at the next.
abbrev offers_at : (lowest next : ℕ) → Side → ℕ → PriceLevel
offers_at lowest next side i = record {
  queue = [];
  total_qty = if i == 0 then lowest else if i == 1 then next else 0;
  order_count = if ltb i 2 then 1 else 0;
}

abbrev with_offers : (lowest next : ℕ) → OrderBook
with_offers lowest next = record created_book { levels = offers_at lowest next }

with_offers-Grid : (lowest next : ℕ) → Grid (with_offers lowest next)
unfolding price_to_index index_to_price
with_offers-Grid lowest next = record {
  index_ok = created-Grid.index_ok;
  price_ok = created-Grid.price_ok;
  mono = created-Grid.mono;
  positive = created-Grid.positive;
}

book_qty_up_to_lem_example :
    book_qty_up_to (with_offers 40 60) sell 7_010 75
    ≡ pos (min 75 (total_within (with_offers 40 60) sell 7_010 created_book.level_count))
book_qty_up_to_lem_example =
    book_qty_up_to_lem (with_offers 40 60) sell 7_010 75 (with_offers-Grid 40 60)
      (λ i. ground arith)

book_qty_up_to-le_example :
    book_qty_up_to (with_offers 40 60) sell 7_010 75
    ≤ℤ pos (min 75 (total_within (with_offers 40 60) sell 7_010 created_book.level_count))
book_qty_up_to-le_example = book_qty_up_to-le (with_offers 40 60) sell 7_010 75

-- Two levels that an order book can hold, of 2,147,999,999 shares together: the count passes an
-- int32 in its second round, and is far below zero.
abbrev two_levels : OrderBook
two_levels = record created_book { levels = offers_at 999_999 2_147_000_000; level_count = 2 }

overflow_run : book_qty_up_to two_levels sell book_price_none 1_000_000 ≡ negsuc 2_146_967_296
unfolding book_qty_up_to qty_from within scan_index wrap ◌+ℤ◌
overflow_run = refl

-- A base price of 1,001: the lowest price of the day is 700, although 70% of it are 700.7.
low_run : compute_band krx_table 1_001 ≡ some (700, 1_301)
unfolding compute_band round_to_tick_in tick_size_in
low_run = refl
