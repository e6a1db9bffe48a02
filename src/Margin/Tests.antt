-- ===== src/Margin/Tests.antt =====
-- The margin of an order (ledger/src/order_validate.c) at concrete amounts.
use trading_sor_mock.Base.{◌+◌, ◌*◌, ◌≤◌, ◌<◌, ◌≡◌, refl, arith}
use trading_sor_mock.Base.Int.{pos}
use trading_sor_mock.Margin.{margin_bp_full, margin_for}
use trading_sor_mock.Margin.Bounds.{margin_for_lem}

-- 40% of 1,000,001 won is rounded up.
rounded_up : margin_for (pos 1_000_001) (pos 4_000) ≡ 400_001
unfolding margin_for
rounded_up = refl

margin_for_lem_example :
    let m = margin_for (pos 1_000_001) (pos 4_000) in
    (1_000_001 * 4_000 ≤ m * margin_bp_full)
    × (m * margin_bp_full < 1_000_001 * 4_000 + margin_bp_full)
    × (0 < m)
    × (m ≤ 1_000_001)
    × (1_000_001 ≤ 5 → m ≤ margin_for (pos 5) (pos 4_000))
    × (margin_for (pos (1_000_001 + 5)) (pos 4_000) ≤ m + margin_for (pos 5) (pos 4_000))
margin_for_lem_example =
    margin_for_lem 1_000_001 5 4_000 (omega arith) (omega arith) (omega arith) (omega arith)
