-- ===== src/Book/Prices.antt =====
-- exchange/src/book/order_book.c: the book's struct, the valid prices of the day that its levels
-- stand for, and its creation.
--
-- An array is a function of its index; it is read and written below `level_count`.
use trading_sor_mock.Base.{
  ℕ, zero, suc, ◌+◌, ◌-◌, ◌*◌, ◌/◌, ◌%◌, true, false, ◌&&◌, ◌||◌, Option, none, some, List, [], ◌∷◌,
  ltb, leb, ◌==◌, if◌then◌else◌,
}
use trading_sor_mock.Types.{Side, price_min, price_max, price_limit_pct}
use trading_sor_mock.Tick.{TickTable, tick_size_in, round_to_tick_in, tick_segment_end_in}
use trading_sor_mock.Level.{PriceLevel, empty_level}

-- `book_segment_t`
pub record Segment : Type 0 where
  pub low : ℕ
  pub tick : ℕ
  pub base_idx : ℕ
  pub count : ℕ

-- `order_book_t`; 0 is BOOK_PRICE_NONE.
pub record OrderBook : Type 0 where
  pub tick_table : TickTable
  pub base_price : ℕ
  pub low : ℕ
  pub high : ℕ
  pub seg : List Segment
  pub level_count : ℕ
  pub levels : Side → ℕ → PriceLevel
  pub best : Side → ℕ

abbrev pub book_price_none : ℕ
book_price_none = 0

abbrev pub book_segments_max : ℕ
book_segments_max = 8

-- The body of the loop of `price_to_index` on the segment that holds the price. The offset is
-- negative below the segment, where C's `%` and `/` round towards zero.
unfoldable pub index_in : Segment → ℕ → Option ℕ
index_in s price =
    if leb s.low price
    then if (price - s.low) % s.tick == 0
      then some (s.base_idx + (price - s.low) / s.tick)
      else none
    else if (s.low - price) % s.tick == 0 && leb ((s.low - price) / s.tick) s.base_idx
    then some (s.base_idx - (s.low - price) / s.tick)
    else none

-- The loop of `price_to_index`.
unfoldable pub find_price : List Segment → ℕ → Option ℕ
unfolding index_in
find_price [] price = none
find_price (s ∷ segs) price =
    if ltb price (s.low + s.count * s.tick) then index_in s price else find_price segs price

-- `price_to_index`; `none` is -1
unfoldable pub price_to_index : OrderBook → ℕ → Option ℕ
unfolding find_price
price_to_index book price =
    if ltb price book.low || ltb book.high price then none else find_price book.seg price

-- The loop of `index_to_price`; past the last segment the code asserts.
unfoldable pub find_index : List Segment → ℕ → ℕ
find_index [] idx = book_price_none
find_index (s ∷ segs) idx =
    if ltb idx (s.base_idx + s.count)
    then s.low + (idx - s.base_idx) * s.tick
    else find_index segs idx

unfoldable pub index_to_price : OrderBook → ℕ → ℕ
unfolding find_index
index_to_price book idx = find_index book.seg idx

-- `compute_band`
unfoldable pub compute_band : TickTable → ℕ → Option (ℕ × ℕ)
compute_band table base =
    let raw_low = base * (100 - price_limit_pct) / 100 in
    let raw_high = base * (100 + price_limit_pct) / 100 in
    let low = round_to_tick_in table (if ltb raw_low price_min then price_min else raw_low) true in
    let high =
      round_to_tick_in table (if ltb price_max raw_high then price_max else raw_high) false in
    if low == 0 || high == 0 || ltb high low then none else some (low, high)

-- The segment that the loop of `build_segments` makes at price `p`.
unfoldable pub segment_at : TickTable → ℕ → ℕ → ℕ → Segment
segment_at table high idx p =
    let tick = tick_size_in table p in
    let end = tick_segment_end_in table p in
    let last = if ltb (end - 1) high then end - 1 else high in
    record { low = p; tick = tick; base_idx = idx; count = (last - last % tick - p) / tick + 1 }

-- The loop of `build_segments` from price `p` and index `idx`, with room for `room` more segments:
-- the segments and the number of levels, or `none` where the room is used up.
unfoldable pub segments_from : TickTable → (high room idx p : ℕ) → Option (List Segment × ℕ)
unfolding segment_at
segments_from table high zero idx p = if leb p high then none else some ([], idx)
segments_from table high (suc room) idx p =
    let s = segment_at table high idx p in
    let rest = segments_from table high room (idx + s.count) (tick_segment_end_in table p) in
    if leb p high
    then elim rest [ none ↦ none | some (segs, count) ↦ some (s ∷ segs, count) ]
    else some ([], idx)

-- `book_create_in`; `none` is NULL. Memory is taken to suffice.
unfoldable pub book_create_in : TickTable → ℕ → Option OrderBook
book_create_in table base =
    if ltb base price_min || ltb price_max base then none else elim (compute_band table base) [
      | none ↦ none
      | some (low, high) ↦ elim (segments_from table high book_segments_max 0 low) [
        | none ↦ none
        | some (segs, count) ↦
            if count == 0
            then none
            else some (record {
              tick_table = table;
              base_price = base;
              low = low;
              high = high;
              seg = segs;
              level_count = count;
              levels = λ _ _. empty_level;
              best = λ _. book_price_none;
            })
      ]
    ]
