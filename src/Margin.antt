-- ===== src/Margin.antt =====
-- ledger/src/order_validate.c: the margin that an order reserves (`margin_for`).
--
-- The product of the amount and the rate is exact here; in the code it is in int64.
pub mod Bounds
pub mod Tests
use trading_sor_mock.Base.{ℕ, ◌+◌, ◌-◌, ◌*◌, ◌/◌, ◌||◌, ltb, ◌==◌, if◌then◌else◌}
use trading_sor_mock.Base.Int.{ℤ, pos, negsuc}

abbrev pub margin_bp_full : ℕ
margin_bp_full = 10_000

-- `margin_for`
unfoldable pub margin_for : (notional margin_bp : ℤ) → ℕ
margin_for (negsuc _) _ = 0
margin_for (pos _) (negsuc _) = 0
margin_for (pos notional) (pos margin_bp) =
    if notional == 0 || margin_bp == 0 || ltb margin_bp_full margin_bp
    then 0
    else (notional * margin_bp + (margin_bp_full - 1)) / margin_bp_full
