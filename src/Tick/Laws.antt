-- ===== src/Tick/Laws.antt =====
-- Tick sizes and rounding (core/src/tick_size.c).
use trading_sor_mock.Base.{ℕ, ◌+◌, ◌%◌, ◌≤◌, ◌<◌, ◌≡◌, true, false, arith}
use trading_sor_mock.Types.{price_min, price_max}
use trading_sor_mock.Tick.{
  TickTable, krx_table, us_table, tick_size_in, is_valid_tick_in, round_to_tick_in,
  tick_segment_end_in,
}

-- Every price in range has a tick; the code's assertion past the last row is never reached.
pub tick_size_in-pos :
    (t : TickTable) (p : ℕ) → price_min ≤ p → p ≤ price_max → 0 < tick_size_in t p
unfolding tick_size_in
tick_size_in-pos krx_table p lo hi = ground arith
tick_size_in-pos us_table p lo hi = ground arith

-- Rounding down: a valid price not above the given one.
pub round_down :
    (t : TickTable) (p : ℕ)
    → price_min ≤ p
    → p ≤ price_max
    → (round_to_tick_in t p false ≤ p) × (is_valid_tick_in t (round_to_tick_in t p false) ≡ true)
unfolding round_to_tick_in is_valid_tick_in tick_size_in
round_down krx_table p lo hi = ground arith
round_down us_table p lo hi = ground arith

pub round_down_greatest :
    (t : TickTable) (p q : ℕ)
    → p ≤ price_max
    → is_valid_tick_in t q ≡ true
    → q ≤ p
    → q ≤ round_to_tick_in t p false
unfolding round_to_tick_in is_valid_tick_in tick_size_in
round_down_greatest krx_table p q hi v le = ground arith
round_down_greatest us_table p q hi v le = ground arith

pub round_up :
    (t : TickTable) (p : ℕ)
    → price_min ≤ p
    → p ≤ price_max
    → (p ≤ round_to_tick_in t p true) × (is_valid_tick_in t (round_to_tick_in t p true) ≡ true)
unfolding round_to_tick_in is_valid_tick_in tick_size_in
round_up krx_table p lo hi = ground arith
round_up us_table p lo hi = ground arith

pub round_up_least :
    (t : TickTable) (p q : ℕ)
    → price_min ≤ p
    → is_valid_tick_in t q ≡ true
    → p ≤ q
    → round_to_tick_in t p true ≤ q
unfolding round_to_tick_in is_valid_tick_in tick_size_in
round_up_least krx_table p q lo v le = ground arith
round_up_least us_table p q lo v le = ground arith

-- Up to the segment's exclusive end the tick stays the same, and the end is a multiple of it.
pub segment_end_lem :
    (t : TickTable) (p : ℕ)
    → price_min ≤ p
    → p ≤ price_max
    → (p < tick_segment_end_in t p)
      × (tick_segment_end_in t p ≤ price_max + 1)
      × ((p % tick_size_in t p ≡ 0)
          → tick_segment_end_in t p ≤ price_max
          → is_valid_tick_in t (tick_segment_end_in t p) ≡ true)
unfolding tick_segment_end_in tick_size_in is_valid_tick_in
segment_end_lem krx_table p lo hi = ground arith
segment_end_lem us_table p lo hi = ground arith

pub segment_tick :
    (t : TickTable) (p q : ℕ)
    → price_min ≤ p
    → p ≤ price_max
    → p ≤ q
    → q < tick_segment_end_in t p
    → tick_size_in t q ≡ tick_size_in t p
unfolding tick_segment_end_in tick_size_in
segment_tick krx_table p q lo hi le lt = ground arith
segment_tick us_table p q lo hi le lt = ground arith

-- Rounding a price from PRICE_MIN to PRICE_MAX to the tick, in either table: downwards it gives the
-- greatest valid price that is not above, and upwards the least valid price that is not below.
pub round_to_tick_in_lem :
    (t : TickTable) (p : ℕ)
    → price_min ≤ p
    → p ≤ price_max
    → let down = round_to_tick_in t p false in
      let up = round_to_tick_in t p true in
      (is_valid_tick_in t down ≡ true)
      × (down ≤ p)
      × ((q : ℕ) → is_valid_tick_in t q ≡ true → q ≤ p → q ≤ down)
      × (is_valid_tick_in t up ≡ true)
      × (p ≤ up)
      × ((q : ℕ) → is_valid_tick_in t q ≡ true → p ≤ q → up ≤ q)
round_to_tick_in_lem t p lo hi =
    let (down_le, down_valid) = round_down t p lo hi in
    let (up_ge, up_valid) = round_up t p lo hi in
    (
      down_valid,
      down_le,
      λ q v h. round_down_greatest t p q hi v h,
      up_valid,
      up_ge,
      λ q v h. round_up_least t p q lo v h,
    )

-- The segment of a price from PRICE_MIN to PRICE_MAX ends above it, at most one above PRICE_MAX; up
-- to its end every price has the same tick; and if the price is a multiple of its tick and the end
-- is a price, the end is valid in its own band.
pub tick_segment_end_in_lem :
    (t : TickTable) (p : ℕ)
    → price_min ≤ p
    → p ≤ price_max
    → let end = tick_segment_end_in t p in
      (p < end)
      × (end ≤ price_max + 1)
      × ((q : ℕ) → p ≤ q → q < end → tick_size_in t q ≡ tick_size_in t p)
      × (p % tick_size_in t p ≡ 0 → end ≤ price_max → is_valid_tick_in t end ≡ true)
tick_segment_end_in_lem t p lo hi =
    let (above, small, valid) = segment_end_lem t p lo hi in
    (above, small, λ q h k. segment_tick t p q lo hi h k, valid)
