-- ===== src/Book/Create.antt =====
-- `book_create_in` (exchange/src/book/order_book.c) succeeds at every base price, and lays out the
-- levels of the day's price range.
use native.Mathlib.Nat.{le_trans, le_refl}
use trading_sor_mock.Base.{
  ℕ, ◌+◌, ◌*◌, ◌/◌, ◌≤◌, ◌<◌, ◌≡◌, refl, ◌≢◌, true, false, some, List, [], ◌∷◌, arith, ltb,
  if◌then◌else◌, le→ltb_false, ==_false, length,
}
use trading_sor_mock.Types.{Side, price_min, price_max}
use trading_sor_mock.Tick.{
  TickTable, krx_table, us_table, TickRow, krx_rows, us_rows, rows_of, tick_size_in,
  is_valid_tick_in, round_to_tick_in,
}
use trading_sor_mock.Tick.Laws.{round_down, round_down_greatest, round_up, round_up_least}
use trading_sor_mock.Level.{empty_level}
use trading_sor_mock.Book.Prices.{
  OrderBook, book_price_none, book_segments_max, compute_band, book_create_in,
}
use trading_sor_mock.Book.Segments.{valid_price}
use trading_sor_mock.Book.Layout.{rows_above, segments_from-Laid}
use trading_sor_mock.Book.Chain.{find_price-Chain}
use trading_sor_mock.Book.Grid.{Priced, Chain-Priced}

-- The limits of the day before they are aligned.
abbrev pub raw_low : ℕ → ℕ
raw_low base = if ltb (base * 70 / 100) price_min then price_min else base * 70 / 100

abbrev pub raw_high : ℕ → ℕ
raw_high base = if ltb price_max (base * 130 / 100) then price_max else base * 130 / 100

-- The base price rounded down is a valid price inside the limits.
base_inside :
    (t : TickTable) (base : ℕ)
    → price_min ≤ base
    → base ≤ price_max
    → (raw_low base ≤ round_to_tick_in t base false) × (base ≤ raw_high base)
unfolding round_to_tick_in tick_size_in
base_inside krx_table base lo hi = (ground arith, ground arith)
base_inside us_table base lo hi = (ground arith, ground arith)

-- `compute_band` gives the lowest and the highest valid price within the limits.
pub record Band (t : TickTable) (base low high : ℕ) : Type 0 where
  pub low_valid : is_valid_tick_in t low ≡ true
  pub high_valid : is_valid_tick_in t high ≡ true
  pub ordered : low ≤ high
  pub low_inside : raw_low base ≤ low
  pub high_inside : high ≤ raw_high base
  pub lowest : (q : ℕ) → is_valid_tick_in t q ≡ true → raw_low base ≤ q → low ≤ q
  pub highest : (q : ℕ) → is_valid_tick_in t q ≡ true → q ≤ raw_high base → q ≤ high

raw_low_range :
    (base : ℕ) → base ≤ price_max → (price_min ≤ raw_low base) × (raw_low base ≤ price_max)
raw_low_range base hi = (ground arith, ground arith)

raw_high_range :
    (base : ℕ) → price_min ≤ base → (price_min ≤ raw_high base) × (raw_high base ≤ price_max)
raw_high_range base lo = (ground arith, ground arith)

valid_pos : (t : TickTable) (q : ℕ) → is_valid_tick_in t q ≡ true → q ≢ 0
valid_pos t q v e = let (lo, _, _, _) = valid_price t q v in absurd (omega (arith, lo, e))

limits-Band :
    (t : TickTable) (base : ℕ)
    → price_min ≤ base
    → base ≤ price_max
    → Band t base
        (round_to_tick_in t (raw_low base) true)
        (round_to_tick_in t (raw_high base) false)
limits-Band t base lo hi =
    let (l0, l1) = raw_low_range base hi in
    let (h0, h1) = raw_high_range base lo in
    let (up_ge, up_valid) = round_up t (raw_low base) l0 l1 in
    let (down_le, down_valid) = round_down t (raw_high base) h0 h1 in
    let (base_le, base_valid) = round_down t base lo hi in
    let (in_low, in_high) = base_inside t base lo hi in
    let middle = round_to_tick_in t base false in
    record {
      low_valid = up_valid;
      high_valid = down_valid;
      ordered =
          le_trans (round_up_least t (raw_low base) middle l0 base_valid in_low)
            (round_down_greatest t (raw_high base) middle h1 base_valid (le_trans base_le in_high));
      low_inside = up_ge;
      high_inside = down_le;
      lowest = λ q v h. round_up_least t (raw_low base) q l0 v h;
      highest = λ q v h. round_down_greatest t (raw_high base) q h1 v h;
    }

compute_band-Band :
    (t : TickTable) (base : ℕ)
    → price_min ≤ base
    → base ≤ price_max
    → (low high : ℕ) × (compute_band t base ≡ some (low, high)) × Band t base low high
unfolding compute_band
compute_band-Band t base lo hi =
    let low = round_to_tick_in t (raw_low base) true in
    let high = round_to_tick_in t (raw_high base) false in
    let b = limits-Band t base lo hi in
    (
      low,
      high,
      rw (
        ==_false low 0 (valid_pos t low b.low_valid),
        ==_false high 0 (valid_pos t high b.high_valid),
        le→ltb_false high low b.ordered,
      ),
      b,
    )

rows_above-le-length : (rows : List TickRow) (p : ℕ) → rows_above rows p ≤ length rows
unfolding rows_above
rows_above-le-length [] p = omega arith
rows_above-le-length (r ∷ rows) p = ground (arith, rows_above-le-length rows p)

rows_of_room : (t : TickTable) (p : ℕ) → rows_above (rows_of t) p ≤ book_segments_max
rows_of_room krx_table p = omega (arith, rows_above-le-length krx_rows p)
rows_of_room us_table p = omega (arith, rows_above-le-length us_rows p)

-- Against 30% of the base price exactly: the upper limit is inside, and the lower one may be outside
-- by less than one won.
pub record Near (base low high : ℕ) : Type 0 where
  pub near_low : base * 70 < low * 100 + 100
  pub near_high : high * 100 ≤ base * 130

Band-Near : (t : TickTable) (base low high : ℕ) → Band t base low high → Near base low high
Band-Near t base low high b = record {
  near_low = ground (arith, b.low_inside);
  near_high = ground (arith, b.high_inside);
}

-- A book is created at every base price from PRICE_MIN to PRICE_MAX, in either tick table. Its range
-- is from the lowest valid price that is not below 70% of the base price, rounded down to a won, to
-- the highest that is not above 130% of it (cut to PRICE_MIN and PRICE_MAX). So its highest price is
-- at most 30% above the base price, and its lowest may be more than 30% below it, by less than one
-- won. The levels are numbered in the order of their prices, each valid price of the range has
-- exactly one and no other price has one; and no level holds an order.
pub book_create_in_lem :
    (t : TickTable) (base : ℕ)
    → price_min ≤ base
    → base ≤ price_max
    → (book : OrderBook) × (book_create_in t base ≡ some book)
      × (book.tick_table ≡ t)
      × Band t base book.low book.high
      × Near base book.low book.high
      × Priced book
      × ((s : Side) (i : ℕ) → book.levels s i ≡ empty_level)
      × ((s : Side) → book.best s ≡ book_price_none)
unfolding book_create_in
book_create_in_lem t base lo hi =
    let (low, high, made, band) = compute_band-Band t base lo hi in
    let (segs, count, laid, chain) =
      segments_from-Laid t high book_segments_max 0 low band.high_valid band.low_valid band.ordered
        (rows_of_room t low) in
    let (i, _, _, small, _) =
      find_price-Chain t high 0 low segs count low chain band.low_valid (le_refl low)
        band.ordered in
    let (low_pos, _, _, _) = valid_price t low band.low_valid in
    let book : OrderBook = record {
      tick_table = t;
      base_price = base;
      low = low;
      high = high;
      seg = segs;
      level_count = count;
      levels = λ _ _. empty_level;
      best = λ _. book_price_none;
    } in
    (
      book,
      rw (
        le→ltb_false base price_min lo,
        le→ltb_false price_max base hi,
        made,
        laid,
        ==_false count 0 (λ e. absurd (omega (arith, small, e))),
      ),
      refl,
      band,
      Band-Near t base low high band,
      Chain-Priced book chain low_pos,
      λ s i. refl,
      λ s. refl,
    )
