-- ===== src/Tick/Tests.antt =====
-- The theorems on ticks (core/src/tick_size.c) at concrete prices.
use trading_sor_mock.Base.{ℕ, ◌+◌, ◌%◌, ◌≤◌, ◌<◌, ◌≡◌, refl, true, false, arith}
use trading_sor_mock.Types.{price_max}
use trading_sor_mock.Tick.{
  krx_table, tick_size_in, is_valid_tick_in, round_to_tick_in, tick_segment_end_in,
}
use trading_sor_mock.Tick.Laws.{round_to_tick_in_lem, tick_segment_end_in_lem}

rounded : round_to_tick_in krx_table 12_345 true ≡ 12_350
unfolding round_to_tick_in tick_size_in
rounded = refl

round_to_tick_in_lem_example :
    let down = round_to_tick_in krx_table 12_345 false in
    let up = round_to_tick_in krx_table 12_345 true in
    (is_valid_tick_in krx_table down ≡ true)
    × (down ≤ 12_345)
    × ((q : ℕ) → is_valid_tick_in krx_table q ≡ true → q ≤ 12_345 → q ≤ down)
    × (is_valid_tick_in krx_table up ≡ true)
    × (12_345 ≤ up)
    × ((q : ℕ) → is_valid_tick_in krx_table q ≡ true → 12_345 ≤ q → up ≤ q)
round_to_tick_in_lem_example = round_to_tick_in_lem krx_table 12_345 (omega arith) (omega arith)

tick_segment_end_in_lem_example :
    let end = tick_segment_end_in krx_table 4_990 in
    (4_990 < end)
    × (end ≤ price_max + 1)
    × ((q : ℕ) → 4_990 ≤ q → q < end → tick_size_in krx_table q ≡ tick_size_in krx_table 4_990)
    × (4_990 % tick_size_in krx_table 4_990 ≡ 0
        → end ≤ price_max
        → is_valid_tick_in krx_table end ≡ true)
tick_segment_end_in_lem_example =
    tick_segment_end_in_lem krx_table 4_990 (omega arith) (omega arith)
