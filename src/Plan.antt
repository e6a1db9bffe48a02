-- ===== src/Plan.antt =====
-- sor/src/strategy.c and sor/src/strategy_split.c: the plan of an order, and the strategy that splits
-- it over the two markets in proportion to what each can fill at once. `Plan/Split` has the
-- strategy.
--
-- Markets are the two of `market_t`; pointers are not NULL. The weights and the configuration of a
-- context are not used here.
pub mod Split
pub mod Shares
mod Tests
use trading_sor_mock.Base.{
  ℕ, ◌+◌, Bool, true, false, ◌||◌, not, Option, none, some, List, [], ◌∷◌, ◌++◌, ltb, leb, ◌==◌,
  if◌then◌else◌, length,
}
use trading_sor_mock.Base.Int.{ℤ}
use trading_sor_mock.Types.{
  OrderType, Market, krx, nxt, ErrorCode, ok, invalid_arg, invalid_qty, duplicate, book_full, Order,
  Result, done, fail,
}
use trading_sor_mock.Book.Prices.{OrderBook}
use trading_sor_mock.Rules.{MarketRules}

-- `cons_book_t` (sor/include/consolidated.h)
pub record ConsBook : Type 0 where
  pub book : Market → Option OrderBook
  pub rules : Market → Option MarketRules

-- `cons_is_open` (sor/src/consolidated.c)
unfoldable pub cons_is_open : ConsBook → Market → ℤ → Bool
cons_is_open cons m ts = elim (cons.book m) [
  | none ↦ false
  | some _ ↦ elim (cons.rules m) [ none ↦ true | some rules ↦ (rules.is_open ts).0 ]
]

-- `plan_leg_t`
pub record PlanLeg : Type 0 where
  pub market : Market
  pub qty : ℕ
  pub limit_price : ℕ
  pub type : OrderType

-- `exec_plan_t`
pub record ExecPlan : Type 0 where
  pub legs : List PlanLeg
  pub planned_qty : ℕ
  pub reason : ErrorCode

abbrev pub plan_legs_max : ℕ
plan_legs_max = 8

-- `plan_init`, with a reason
abbrev pub empty_plan : ErrorCode → ExecPlan
empty_plan reason = record { legs = []; planned_qty = 0; reason = reason }

unfoldable pub plan_add_leg : ExecPlan → Market → (qty price : ℕ) → OrderType → ErrorCode × ExecPlan
plan_add_leg plan m qty price type =
    if qty == 0
    then (ok, plan)
    else if leb plan_legs_max (length plan.legs)
    then (book_full, plan)
    else (
      ok,
      record plan {
        legs =
            plan.legs ++ (record { market = m; qty = qty; limit_price = price; type = type } ∷ []);
        planned_qty = plan.planned_qty + qty;
      },
    )

abbrev pub market_eq : Market → Market → Bool
market_eq krx krx = true
market_eq nxt nxt = true
market_eq _ _ = false

-- The loop of `plan_validate`: the sum of the legs.
unfoldable pub check_legs : List PlanLeg → (seen : Market → Bool) → (sum : ℕ) → Result ℕ
check_legs [] seen sum = done sum
check_legs (leg ∷ legs) seen sum =
    let rest = check_legs legs (λ m. market_eq m leg.market || seen m) (sum + leg.qty) in
    if leg.qty == 0 then fail invalid_qty else if seen leg.market then fail duplicate else rest

unfoldable pub plan_validate : ExecPlan → Order → ErrorCode
plan_validate plan req =
    if length plan.legs == 0
    then (if plan.planned_qty == 0 then ok else invalid_qty)
    else if ltb plan_legs_max (length plan.legs)
    then invalid_arg
    else elim (check_legs plan.legs (λ _. false) 0) [
      | fail rc ↦ rc
      | done sum ↦
          if not (sum == plan.planned_qty)
          then invalid_qty
          else if not (sum == req.qty)
          then invalid_qty
          else ok
    ]
