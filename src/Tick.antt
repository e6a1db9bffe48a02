-- ===== src/Tick.antt =====
-- core/src/tick_size.c: tick sizes by price band, and rounding to a tick.
pub mod Laws
pub mod Tests
use trading_sor_mock.Base.{
  ℕ, ◌+◌, ◌-◌, ◌%◌, Bool, false, ◌&&◌, List, [], ◌∷◌, ltb, leb, ◌==◌, if◌then◌else◌,
}
use trading_sor_mock.Types.{price_min, price_max}

-- `tick_table_t`
pub data TickTable : Type 0 where
  krx_table us_table : TickTable

-- `tick_row_t`; `below` is the exclusive end of the band
pub record TickRow : Type 0 where
  pub below : ℕ
  pub tick : ℕ

abbrev pub tick_row : ℕ → ℕ → TickRow
tick_row b t = record { below = b; tick = t }

-- `KRX_ROWS`
abbrev pub krx_rows : List TickRow
krx_rows =
    tick_row 2000 1
    ∷ tick_row 5000 5
    ∷ tick_row 20000 10
    ∷ tick_row 50000 50
    ∷ tick_row 200000 100
    ∷ tick_row 500000 500
    ∷ tick_row (price_max + 1) 1000
    ∷ []

-- `US_ROWS`
abbrev pub us_rows : List TickRow
us_rows = tick_row (price_max + 1) 1 ∷ []

abbrev pub rows_of : TickTable → List TickRow
rows_of us_table = us_rows
rows_of krx_table = krx_rows

unfoldable pub in_range : ℕ → Bool
in_range price = leb price_min price && leb price price_max

-- The loop of `tick_size_in`; past the last row the code asserts and returns 0.
unfoldable pub row_tick : List TickRow → ℕ → ℕ
row_tick [] price = 0
row_tick (r ∷ rows) price = if ltb price r.below then r.tick else row_tick rows price

unfoldable pub tick_size_in : TickTable → ℕ → ℕ
unfolding in_range row_tick
tick_size_in table price = if in_range price then row_tick (rows_of table) price else 0

unfoldable pub is_valid_tick_in : TickTable → ℕ → Bool
is_valid_tick_in table price =
    let tick = tick_size_in table price in if tick == 0 then false else price % tick == 0

unfoldable pub round_to_tick_in : TickTable → ℕ → Bool → ℕ
round_to_tick_in table price up =
    let tick = tick_size_in table price in
    let rem = price % tick in
    let result = price - rem + tick in
    if tick == 0
    then 0
    else if rem == 0
    then price
    else if up
    then if ltb price_max result then 0 else result
    else price - rem

-- The loop of `tick_segment_end_in`.
unfoldable pub row_end : List TickRow → ℕ → ℕ
row_end [] price = 0
row_end (r ∷ rows) price = if ltb price r.below then r.below else row_end rows price

unfoldable pub tick_segment_end_in : TickTable → ℕ → ℕ
unfolding in_range row_end
tick_segment_end_in table price = if in_range price then row_end (rows_of table) price else 0
