-- ===== src/Margin/Bounds.antt =====
-- The margin is the rate of the amount, rounded up (`margin_for` of ledger/src/order_validate.c).
use trading_sor_mock.Base.{ℕ, ◌+◌, ◌-◌, ◌*◌, ◌/◌, ◌≤◌, ◌<◌, ◌≡◌, arith}
use trading_sor_mock.Base.Int.{pos}
use trading_sor_mock.Margin.{margin_bp_full, margin_for}

margin_for-exact :
    (notional bp : ℕ)
    → 0 < notional
    → 0 < bp
    → bp ≤ margin_bp_full
    → margin_for (pos notional) (pos bp) ≡ (notional * bp + (margin_bp_full - 1)) / margin_bp_full
unfolding margin_for
margin_for-exact notional bp hn hb hi = ground arith

scale_le : (n bp : ℕ) → bp ≤ margin_bp_full → n * bp ≤ n * margin_bp_full
scale_le n bp h = grind arith

scale_pos : (n bp : ℕ) → 0 < n → 0 < bp → 0 < n * bp
scale_pos n bp hn hb = grind arith

scale_mono : (n m bp : ℕ) → n ≤ m → n * bp ≤ m * bp
scale_mono n m bp h = grind arith

-- For a positive amount and a rate of more than nothing and at most the whole: the margin times the
-- whole is not below the amount times the rate, and less than one unit above it; the margin is
-- positive and at most the amount; a larger amount has no smaller margin; and an amount that is
-- split in two orders reserves no less than the whole.
pub margin_for_lem :
    (notional other bp : ℕ)
    → 0 < notional
    → 0 < other
    → 0 < bp
    → bp ≤ margin_bp_full
    → let m = margin_for (pos notional) (pos bp) in
      (notional * bp ≤ m * margin_bp_full)
      × (m * margin_bp_full < notional * bp + margin_bp_full)
      × (0 < m)
      × (m ≤ notional)
      × (notional ≤ other → m ≤ margin_for (pos other) (pos bp))
      × (margin_for (pos (notional + other)) (pos bp) ≤ m + margin_for (pos other) (pos bp))
margin_for_lem notional other bp hn ho hb hi =
    let a = scale_pos notional bp hn hb in
    let b = scale_le notional bp hi in
    rw
      (
        margin_for-exact notional bp hn hb hi,
        margin_for-exact other bp ho hb hi,
        margin_for-exact (notional + other) bp (omega (arith, hn)) hb hi,
      )
      (
        omega arith,
        omega arith,
        omega (arith, a),
        omega (arith, b),
        λ h. omega (arith, scale_mono notional other bp h),
        omega arith,
      )
