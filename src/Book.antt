-- ===== src/Book.antt =====
-- exchange/src/book/order_book.c: the operations of the book of one symbol on one market, and its
-- cached best prices. The struct and the prices of its levels are in Book/Prices.
pub mod Prices
pub mod Segments
pub mod Layout
pub mod Chain
pub mod Grid
pub mod Create
pub mod Cache
pub mod Insert
pub mod Remove
pub mod Placed
pub mod Taking
pub mod Totals
pub mod Available
pub mod Inserting
pub mod Depth
pub mod Tests
pub mod Best
use trading_sor_mock.Base.{
  ℕ, zero, suc, ◌-◌, Bool, true, ◌&&◌, ◌||◌, Option, none, some, List, [], ◌∷◌, ltb, leb, ◌==◌,
  if◌then◌else◌,
}
use trading_sor_mock.Base.Int.{ℤ, pos, ◌+ℤ◌, leb_ℤ, int32}
use trading_sor_mock.Types.{
  Side, buy, sell, ErrorCode, ok, invalid_arg, invalid_tick, price_limit, not_found, is_ok, side_eq,
  Result, done, fail,
}
use trading_sor_mock.Level.{
  Slots, PriceLevel, head?, level_push_back, level_remove, level_reduce_qty, level_amend_qty,
}
use trading_sor_mock.Book.Prices.{OrderBook, book_price_none, price_to_index, index_to_price}

-- `book->levels[side][idx] = level`
unfoldable pub set_level : OrderBook → Side → ℕ → PriceLevel → OrderBook
set_level book side idx level = record book {
  levels = λ s i. if side_eq s side && i == idx then level else book.levels s i;
}

-- `book->best[side] = price`
unfoldable pub set_best : OrderBook → Side → ℕ → OrderBook
set_best book side price = record book { best = λ s. if side_eq s side then price else book.best s }

-- The index that the scans visit with `r` rounds left: from the top for bids, from the bottom for
-- asks.
unfoldable pub scan_index : Side → (level_count r : ℕ) → ℕ
scan_index buy level_count r = r
scan_index sell level_count r = level_count - suc r

-- The scans of `recompute_best`.
unfoldable pub best_from : OrderBook → Side → ℕ → ℕ
unfolding scan_index
best_from book side zero = book_price_none
best_from book side (suc r) =
    let i = scan_index side book.level_count r in
    let rest = best_from book side r in
    if (book.levels side i).order_count == 0 then rest else index_to_price book i

unfoldable pub recompute_best : OrderBook → Side → OrderBook
unfolding best_from set_best
recompute_best book side = set_best book side (best_from book side book.level_count)

-- Whether a new order's price beats the cached one.
unfoldable pub improves : Side → (price best : ℕ) → Bool
improves buy price best = ltb best price
improves sell price best = ltb price best

unfoldable pub book_insert : Slots → OrderBook → ℕ → ErrorCode × OrderBook
book_insert slots book p =
    let o = slots p in
    if ltb o.price book.low || ltb book.high o.price
    then (price_limit, book)
    else elim (price_to_index book o.price) [
      | none ↦ (invalid_tick, book)
      | some idx ↦
          let (rc, level) = level_push_back slots (book.levels o.side idx) p in
          let book' = set_level book o.side idx level in
          if is_ok rc
          then (
            ok,
            if book.best o.side == book_price_none || improves o.side o.price (book.best o.side)
                then set_best book' o.side o.price
                else book',
          )
          else (rc, book)
    ]

unfoldable pub book_remove : Slots → OrderBook → ℕ → ErrorCode × OrderBook
book_remove slots book p =
    let o = slots p in
    elim (price_to_index book o.price) [
      | none ↦ (not_found, book)
      | some idx ↦
          let level = level_remove slots (book.levels o.side idx) p in
          let book' = set_level book o.side idx level in
          (
            ok,
            if level.order_count == 0 && o.price == book.best o.side
                then recompute_best book' o.side
                else book',
          )
    ]

unfoldable pub book_qty_at : OrderBook → Side → ℕ → ℕ
book_qty_at book side price = elim (price_to_index book price) [
  | none ↦ 0
  | some idx ↦ (book.levels side idx).total_qty
]

unfoldable pub book_front : OrderBook → Side → ℕ → Option ℕ
book_front book side price = elim (price_to_index book price) [
  | none ↦ none
  | some idx ↦ head? (book.levels side idx).queue
]

unfoldable pub book_reduce_qty : Slots → OrderBook → ℕ → ℕ → ErrorCode × Slots × OrderBook
book_reduce_qty slots book p qty =
    let o = slots p in
    elim (price_to_index book o.price) [
      | none ↦ (not_found, slots, book)
      | some idx ↦
          let (rc, slots', level) = level_reduce_qty slots (book.levels o.side idx) p qty in
          (rc, slots', set_level book o.side idx level)
    ]

unfoldable pub book_amend_qty : Slots → OrderBook → ℕ → ℕ → ErrorCode × Slots × OrderBook
book_amend_qty slots book p new_qty =
    let o = slots p in
    elim (price_to_index book o.price) [
      | none ↦ (not_found, slots, book)
      | some idx ↦
          let (rc, slots', level) = level_amend_qty slots (book.levels o.side idx) p new_qty in
          (rc, slots', set_level book o.side idx level)
    ]

-- Whether a price of side `side` is within the bound; no bound is BOOK_PRICE_NONE.
unfoldable pub within : Side → (bound price : ℕ) → Bool
within side bound price =
    if bound == book_price_none
    then true
    else elim side [ sell ↦ leb price bound | buy ↦ leb bound price ]

-- The loop of `book_qty_up_to` with `r` rounds left. The sum is an int32: past its range it wraps
-- around in two's complement, as the usual compilers have it.
unfoldable pub qty_from : OrderBook → Side → (bound want r : ℕ) → (sum : ℤ) → ℤ
qty_from book side bound want zero sum = sum
qty_from book side bound want (suc r) sum =
    let level = book.levels side (scan_index side book.level_count r) in
    let price = index_to_price book (scan_index side book.level_count r) in
    let skip = qty_from book side bound want r sum in
    let added = int32 (sum +ℤ pos level.total_qty) in
    let more = qty_from book side bound want r added in
    if level.order_count == 0
    then skip
    else if within side bound price
    then if leb_ℤ (pos want) added then pos want else more
    else sum

unfoldable pub book_qty_up_to : OrderBook → Side → (bound want : ℕ) → ℤ
book_qty_up_to book side bound want =
    if want == 0 then pos 0 else qty_from book side bound want book.level_count (pos 0)

-- `level_view_t`
pub record LevelView : Type 0 where
  pub price : ℕ
  pub total_qty : ℕ
  pub order_count : ℕ

-- The loop of `book_snapshot` with `r` rounds and `depth` lines left.
unfoldable pub snapshot_from : OrderBook → Side → (r depth : ℕ) → List LevelView
unfolding scan_index
snapshot_from book side zero depth = []
snapshot_from book side (suc r) zero = []
snapshot_from book side (suc r) (suc depth) =
    let i = scan_index side book.level_count r in
    let level = book.levels side i in
    let skip = snapshot_from book side r (suc depth) in
    let more = snapshot_from book side r depth in
    if level.order_count == 0
    then skip
    else record {
      price = index_to_price book i;
      total_qty = level.total_qty;
      order_count = level.order_count;
    }
      ∷ more

unfoldable pub book_snapshot : OrderBook → Side → ℕ → Result (List LevelView)
unfolding snapshot_from
book_snapshot book side depth =
    if depth == 0 then fail invalid_arg else done (snapshot_from book side book.level_count depth)
