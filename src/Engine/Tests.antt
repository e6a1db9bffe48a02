-- ===== src/Engine/Tests.antt =====
-- The engine's theorems at an engine with two asks, on KRX.
use trading_sor_mock.Engine.State.{match_result_init, match_resolve_price}
use trading_sor_mock.Engine.{match_sweep}
use trading_sor_mock.Engine.Orders.{match_limit, match_market, match_fok}
use trading_sor_mock.Engine.Sweep.{Accounted, match_sweep-Accounted}
use trading_sor_mock.Engine.Refusals.{AllOrNothing, fok_market-AllOrNothing}
use trading_sor_mock.Engine.Limit.{LimitOutcome, match_limit-LimitOutcome}
use trading_sor_mock.Engine.Examples.{two_asks, bid_seven}

match_sweep-Accounted_example :
    let (rest, _, out) = match_sweep two_asks bid_seven 10_010 (match_result_init 7) in
    Accounted bid_seven 10_010 rest out
match_sweep-Accounted_example = match_sweep-Accounted two_asks bid_seven 10_010

match_limit-LimitOutcome_example :
    let (rc, _, out) = match_limit two_asks bid_seven in
    LimitOutcome bid_seven (match_resolve_price two_asks bid_seven) rc out
match_limit-LimitOutcome_example = match_limit-LimitOutcome two_asks bid_seven

fok_market-AllOrNothing_example :
    AllOrNothing two_asks (match_fok two_asks bid_seven)
    × AllOrNothing two_asks (match_market two_asks bid_seven)
fok_market-AllOrNothing_example = fok_market-AllOrNothing two_asks bid_seven
