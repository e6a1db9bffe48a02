-- ===== src/Plan/Tests.antt =====
-- The split of an order (sor/src/strategy_split.c) at concrete quantities.
use trading_sor_mock.Base.{ℕ, ◌+◌, ◌*◌, ◌/◌, ◌≤◌, ◌≡◌, refl, ◌++◌, arith}
use trading_sor_mock.Base.Int.{pos}
use trading_sor_mock.Types.{buy, limit, krx, nxt, ok, Order}
use trading_sor_mock.Plan.{ExecPlan, plan_add_leg, check_legs, plan_validate}
use trading_sor_mock.Plan.Split.{prefers, share_of, hand_out, add_legs, split_both}
use trading_sor_mock.Plan.Shares.{leg_of, split_both_lem}

abbrev three_shares : Order
three_shares = record {
  id = 1;
  client_order_id = 1;
  ts = pos 0;
  price = 10_000;
  qty = 3;
  filled_qty = 0;
  side = buy;
  type = limit;
  market = krx;
}

-- Three shares over 47 and 53: one and two.
split_run : split_both three_shares 47 53 ≡ (
  ok,
  record {
    legs = leg_of three_shares krx 1 ++ leg_of three_shares nxt 2;
    planned_qty = 3;
    reason = ok;
  },
)
unfolding split_both hand_out share_of prefers add_legs plan_add_leg plan_validate check_legs
split_run = refl

split_both_lem_example :
    (x : ℕ) × (y : ℕ) × (plan : ExecPlan) × (split_both three_shares 47 53 ≡ (ok, plan))
    × (plan.legs ≡ leg_of three_shares krx x ++ leg_of three_shares nxt y)
    × (plan.planned_qty ≡ 3)
    × (x + y ≡ 3)
    × (3 * 47 / (47 + 53) ≤ x)
    × (x ≤ 3 * 47 / (47 + 53) + 1)
    × (3 * 53 / (47 + 53) ≤ y)
    × (y ≤ 3 * 53 / (47 + 53) + 1)
split_both_lem_example = split_both_lem three_shares 47 53 (omega arith) (omega arith)
