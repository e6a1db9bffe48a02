-- ===== src/Account/Tests.antt =====
-- Runs of the account operations, and the theorems at concrete accounts.
use trading_sor_mock.Base.{
  ℕ, ◌+◌, ◌*◌, ◌≤◌, ◌<◌, ◌≡◌, refl, ◌≢◌, ◌⊎◌, true, false, some, [], ◌∷◌, arith, set, All,
}
use trading_sor_mock.Base.Int.{pos, ◌+ℤ◌, ◌-ℤ◌, ◌*ℤ◌, ◌≤ℤ◌, wrap}
use trading_sor_mock.Types.{ok, invalid_qty}
use trading_sor_mock.Account.Defs.{Account, acquired, owner_dead, acct_lock, run_writes}
use trading_sor_mock.Account.{
  Store, acct_withdraw, acct_reserve, pos_sell, position_of, new_position, acct_sell_fill,
}
use trading_sor_mock.Account.Invariant.{IsValid}
use trading_sor_mock.Account.Ledger.{
  Op, run_op, run_ops, run_op-refused, run_ops-IsValid, acct_reserve_lem,
}
use trading_sor_mock.Account.Crash.{balances, Commit, commit_writes, crash_after, acct_lock-crash}
use trading_sor_mock.Account.Holdings.{InRange, acct_sell_fill_lem}

abbrev rich : Account
rich = record {
  account_no = b'1' ∷ [];
  in_use = true;
  cash = pos 1000;
  reserved = pos 200;
  version = 0;
  pos_qty = pos 3;
  pos_cost = pos 100;
  pos_reserved = pos 2;
  realized = pos 0;
  mutating = false;
  pre_cash = pos 0;
  pre_reserved = pos 0;
  pre_pos_qty = pos 0;
  pre_pos_cost = pos 0;
  pre_pos_reserved = pos 0;
  pre_realized = pos 0;
}

abbrev store : Store
store = rich ∷ []

rich-IsValid : IsValid rich
rich-IsValid = ground arith

store-IsValid : All IsValid store
store-IsValid = (rich-IsValid, tt)

-- Selling two of three shares bought at 100 takes 66 of the cost.
sell_two :
    new_position pos_sell (pos 2) (pos 50) (pos 0) rich
    ≡ some (record { qty = pos 1; cost = pos 34; reserved = pos 0; realized = pos 34 })
unfolding new_position wrap ◌+ℤ◌ ◌-ℤ◌ ◌*ℤ◌
sell_two = refl

-- A million shares bought at 10,000,000, of which 950,000 are sold: the product of the cost and the
-- shares passes an int64, so what leaves the cost is negative, and the cost left is above the old one.
abbrev many_shares : Account
many_shares = record rich {
  pos_qty = pos 1_000_000;
  pos_cost = pos 10_000_000_000_000;
  pos_reserved = pos 950_000;
}

sell_wraps :
    new_position pos_sell (pos 950_000) (pos 1) (pos 0) many_shares
    ≡ some (record {
      qty = pos 50_000;
      cost = pos 18_946_744_073_709;
      reserved = pos 0;
      realized = pos 8_946_745_023_709;
    })
unfolding new_position wrap ◌+ℤ◌ ◌-ℤ◌ ◌*ℤ◌
sell_wraps = refl

withdraw_reserved : (acct_withdraw acquired 0 (pos 801) store).0 ≡ invalid_qty
unfolding acct_withdraw acct_lock ◌+ℤ◌
withdraw_reserved = refl

overdraft-ne-ok : (run_op acquired 0 (Op.withdraw (pos 801)) store).0 ≢ ok
unfolding run_op
overdraft-ne-ok e = cc (withdraw_reserved, e)

run_op-refused_example : (run_op acquired 0 (Op.withdraw (pos 801)) store).1 ≡ store
run_op-refused_example =
    run_op-refused acquired 0 (Op.withdraw (pos 801)) store store-IsValid overdraft-ne-ok

run_ops-IsValid_example : All IsValid (
    run_ops
      ((acquired, 0, Op.deposit (pos 5)) ∷ (owner_dead true, 0, Op.settle (pos 7)) ∷ [])
      store)
run_ops-IsValid_example =
    run_ops-IsValid
      ((acquired, 0, Op.deposit (pos 5)) ∷ (owner_dead true, 0, Op.settle (pos 7)) ∷ []) store
      store-IsValid

acct_reserve_lem_example :
    ((pos 1 ≤ℤ pos 800)
      → pos 800 ≤ℤ pos 1000 -ℤ pos 200
      → (b : Account) × (acct_reserve acquired 0 (pos 800) store ≡ (ok, set store 0 b))
        × (b.cash ≡ pos 1000)
        × (b.reserved ≡ pos 200 +ℤ pos 800)
        × (position_of b ≡ position_of rich))
    × (¬ ((pos 1 ≤ℤ pos 800) × (pos 800 ≤ℤ pos 1000 -ℤ pos 200))
        → acct_reserve acquired 0 (pos 800) store ≡ (invalid_qty, store))
acct_reserve_lem_example = acct_reserve_lem acquired 0 (pos 800) store refl rich-IsValid refl refl

acct_lock-crash_example :
    let (code, _, b) =
      acct_lock (owner_dead true) (crash_after 8 (Commit.cash_commit (pos 7) (pos 5)) rich) in
    (code ≡ ok)
    × (b.mutating ≡ false)
    × ((balances b ≡ balances rich)
        ⊎ (balances b
            ≡ balances (run_writes (commit_writes (Commit.cash_commit (pos 7) (pos 5))) rich)))
acct_lock-crash_example = acct_lock-crash 8 (Commit.cash_commit (pos 7) (pos 5)) rich refl

rich-InRange : InRange (pos 2) (pos 50) rich
unfolding ◌*ℤ◌
rich-InRange = record {
  qty_small = omega arith;
  cost_small = omega arith;
  product_small = omega arith;
  proceeds_small = omega arith;
  realized_low = omega arith;
  realized_high = omega arith;
}

acct_sell_fill_lem_example :
    (b : Account) × (c : ℕ) × (acct_sell_fill acquired 0 (pos 2) (pos 50) store
      ≡ (ok, set store 0 b))
    × (b.pos_qty ≡ pos 3 -ℤ pos 2)
    × (b.pos_reserved ≡ pos 2 -ℤ pos 2)
    × (b.pos_cost +ℤ pos c ≡ pos 100)
    × (c * 3 ≤ 100 * 2)
    × (100 * 2 < (c + 1) * 3)
    × (b.realized +ℤ pos c ≡ pos 0 +ℤ pos 50 *ℤ pos 2)
    × (pos 0 ≤ℤ b.pos_cost)
    × (pos 2 ≡ pos 3 → b.pos_cost ≡ pos 0)
    × (b.cash ≡ pos 1000)
    × (b.reserved ≡ pos 200)
acct_sell_fill_lem_example =
    acct_sell_fill_lem acquired 0 (pos 2) (pos 50) store refl rich-IsValid refl refl rich-InRange
      (omega arith) (omega arith) (omega arith)
