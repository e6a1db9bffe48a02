-- ===== src/Plan/Split.antt =====
-- sor/src/strategy_split.c. The loops over the two markets are written out, KRX first.
use trading_sor_mock.Base.{
  ℕ, zero, suc, ◌+◌, ◌-◌, ◌*◌, ◌/◌, ◌%◌, Bool, true, false, ◌&&◌, ◌||◌, not, Option, none, some,
  ltb, ◌==◌, if◌then◌else◌,
}
use trading_sor_mock.Base.Int.{ℤ, pos, pos_part, ltb_ℤ}
use trading_sor_mock.Types.{
  Side, buy, sell, Market, krx, nxt, ErrorCode, ok, invalid_qty, market_closed, qty_min, qty_max,
  Order, is_ok, opposite,
}
use trading_sor_mock.Book.Prices.{book_price_none}
use trading_sor_mock.Book.{book_qty_up_to}
use trading_sor_mock.Plan.{
  ConsBook, cons_is_open, ExecPlan, empty_plan, plan_add_leg, plan_validate,
}

-- `split_share_t` of an open market
pub record SplitShare : Type 0 where
  pub fillable : ℕ
  pub base : ℕ
  pub remainder : ℕ
  pub got_extra : Bool

-- `prefers`, of NXT's share `a` over KRX's share `b`; on a tie the first market in the order of the
-- enumeration, which is KRX, stays.
unfoldable pub prefers : SplitShare → SplitShare → Bool
prefers a b =
    if not (a.remainder == b.remainder)
    then ltb b.remainder a.remainder
    else if not (a.fillable == b.fillable)
    then ltb b.fillable a.fillable
    else false

-- The share of a market: its proportional part, rounded down.
unfoldable pub share_of : (qty fillable total : ℕ) → SplitShare
share_of qty fillable total = record {
  fillable = fillable;
  base = qty * fillable / total;
  remainder = qty * fillable % total;
  got_extra = false;
}

-- One more share.
abbrev pub extra : SplitShare → SplitShare
extra s = record s { base = s.base + 1; got_extra = true }

-- The loop that hands out what rounding down has left.
unfoldable pub hand_out : (leftover : ℕ) → (k n : SplitShare) → SplitShare × SplitShare
hand_out zero k n = (k, n)
hand_out (suc leftover) k n =
    let to_krx = hand_out leftover (extra k) n in
    let to_nxt = hand_out leftover k (extra n) in
    if k.got_extra
    then if n.got_extra then (k, n) else to_nxt
    else if not n.got_extra && prefers n k
    then to_nxt
    else to_krx

-- The end of `split_plan`: the legs of the two shares.
unfoldable pub add_legs : Order → (to_krx to_nxt : ℕ) → ErrorCode × ExecPlan
add_legs req to_krx to_nxt =
    let (rc, plan) = plan_add_leg (empty_plan ok) krx to_krx req.price req.type in
    let (rc', plan') = plan_add_leg plan nxt to_nxt req.price req.type in
    if not (is_ok rc)
    then (rc, empty_plan rc)
    else if not (is_ok rc')
    then (rc', empty_plan rc')
    else if not (is_ok (plan_validate plan' req))
    then (plan_validate plan' req, empty_plan (plan_validate plan' req))
    else (ok, plan')

-- `split_plan` from where both markets are open and there is something to fill.
unfoldable pub split_both : Order → (fill_krx fill_nxt : ℕ) → ErrorCode × ExecPlan
split_both req fill_krx fill_nxt =
    let total = fill_krx + fill_nxt in
    let k = share_of req.qty fill_krx total in
    let n = share_of req.qty fill_nxt total in
    let (k', n') = hand_out (req.qty - (k.base + n.base)) k n in add_legs req k'.base n'.base

-- A market's best price of a side.
abbrev best_quote : ConsBook → Market → Side → ℕ
best_quote cons m side = elim (cons.book m) [ none ↦ book_price_none | some book ↦ book.best side ]

-- Whether `plan_resting_market` prefers NXT, with both markets open.
unfoldable pub rests_on_nxt : Side → (quote_krx quote_nxt : ℕ) → Bool
rests_on_nxt side quote_krx quote_nxt =
    if quote_krx == book_price_none && not (quote_nxt == book_price_none)
    then true
    else if quote_nxt == book_price_none
    then false
    else elim side [ buy ↦ ltb quote_nxt quote_krx | sell ↦ ltb quote_krx quote_nxt ]

-- `plan_resting_market` (sor/src/strategy.c); `none` is ERR_MARKET_CLOSED.
unfoldable pub plan_resting_market : ConsBook → Order → ℤ → Option Market
plan_resting_market cons req ts =
    let maker_side = opposite req.side in
    let quote = λ (m : Market). best_quote cons m maker_side in
    if cons_is_open cons krx ts
    then if cons_is_open cons nxt ts && rests_on_nxt req.side (quote krx) (quote nxt)
      then some nxt
      else some krx
    else if cons_is_open cons nxt ts
    then some nxt
    else none

-- A plan that sends the whole order to one market.
unfoldable pub send_whole : Order → Market → ErrorCode × ExecPlan
send_whole req m =
    let (rc, plan) = plan_add_leg (empty_plan ok) m req.qty req.price req.type in
    if is_ok rc then (ok, plan) else (rc, empty_plan rc)

-- What a market can fill at once within the order's price; negative where the count has passed an
-- int32.
unfoldable pub fillable_on : ConsBook → Order → Market → ℤ
fillable_on cons req m = elim (cons.book m) [
  | none ↦ pos 0
  | some book ↦ book_qty_up_to book (opposite req.side) req.price qty_max
]

-- `split_plan`; `none` where a count is negative with both markets open, of which nothing is said.
unfoldable pub split_plan : ConsBook → Order → ℤ → Option (ErrorCode × ExecPlan)
split_plan cons req ts =
    let refuse : ErrorCode → Option (ErrorCode × ExecPlan) = λ rc. some (rc, empty_plan rc) in
    let on_krx = fillable_on cons req krx in
    let on_nxt = fillable_on cons req nxt in
    if ltb req.qty qty_min || ltb qty_max req.qty
    then refuse invalid_qty
    else if not (cons_is_open cons krx ts) && not (cons_is_open cons nxt ts)
    then refuse market_closed
    else if not (cons_is_open cons nxt ts)
    then some (send_whole req krx)
    else if not (cons_is_open cons krx ts)
    then some (send_whole req nxt)
    else if ltb_ℤ on_krx (pos 0) || ltb_ℤ on_nxt (pos 0)
    then none
    else if pos_part on_krx + pos_part on_nxt == 0
    then elim (plan_resting_market cons req ts) [
      | none ↦ refuse market_closed
      | some m ↦ some (send_whole req m)
    ]
    else some (split_both req (pos_part on_krx) (pos_part on_nxt))
