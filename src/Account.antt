-- ===== src/Account.antt =====
-- ledger/src/account.c: the accounts of the ledger in shared memory. Amounts are integers without
-- a bound: the overflow of the code's int64 arithmetic is not modelled.
--
-- The robust mutex is the operating system's: each operation takes what locking it answered. A
-- worker that dies between two stores leaves the account as the stores before them made it.
pub mod Defs
pub mod Invariant
pub mod Ledger
pub mod Crash
pub mod Holdings
mod Tests
use trading_sor_mock.Base.{
  ℕ, ◌+◌, ◌/◌, Bool, ◌&&◌, ◌||◌, Option, none, some, List, if◌then◌else◌, get_elem?, set,
}
use trading_sor_mock.Base.Int.{
  ℤ, pos, pos_part, neg_part, ◌+ℤ◌, ◌-ℤ◌, ◌*ℤ◌, ltb_ℤ, leb_ℤ, neg, int64,
}
use trading_sor_mock.Account.Defs.{
  Account, LockAnswer, acct_lock, run_writes, cash_writes, set_cash_writes, Position, pos_writes,
  invariant_ok, pos_ok,
}
use trading_sor_mock.Types.{ErrorCode, ok, null_ptr, invalid_price, invalid_qty, not_found, is_ok}

-- The records of the account region of the segment.
abbrev pub Store : Type 0
Store = List Account

-- `acct_at`, `acct_lock` and the test of `in_use`, around the body of an operation, and
-- `acct_unlock` on every way out. A body gives its code and the record as it leaves it.
unfoldable pub with_account :
    LockAnswer → ℕ → (Account → ErrorCode × Account) → Store → ErrorCode × Store
with_account answer index body store = elim (get_elem? store index) [
  | none ↦ (null_ptr, store)
  | some a ↦
      let (rc, _, a') = acct_lock answer a in
      let (code, a'') = body a' in
      if is_ok rc
      then if a'.in_use then (code, set store index a'') else (not_found, set store index a')
      else (rc, set store index a')
]

-- `apply` on the locked record
unfoldable pub apply_body : ℤ → ℤ → Account → ErrorCode × Account
unfolding run_writes cash_writes
apply_body d_cash d_reserved a =
    let new_cash = a.cash +ℤ d_cash in
    let new_reserved = a.reserved +ℤ d_reserved in
    if invariant_ok new_cash new_reserved
    then (ok, run_writes (cash_writes new_cash new_reserved) a)
    else (invalid_qty, a)

-- `apply`
unfoldable pub apply : LockAnswer → ℕ → ℤ → ℤ → ℤ → Store → ErrorCode × Store
unfolding with_account apply_body
apply answer index d_cash d_reserved amount store =
    if leb_ℤ amount (pos 0)
    then (invalid_qty, store)
    else with_account answer index (apply_body d_cash d_reserved) store

unfoldable pub acct_deposit : LockAnswer → ℕ → ℤ → Store → ErrorCode × Store
unfolding apply
acct_deposit answer index amount = apply answer index amount (pos 0) amount

unfoldable pub acct_withdraw : LockAnswer → ℕ → ℤ → Store → ErrorCode × Store
unfolding apply
acct_withdraw answer index amount = apply answer index (neg amount) (pos 0) amount

unfoldable pub acct_reserve : LockAnswer → ℕ → ℤ → Store → ErrorCode × Store
unfolding apply
acct_reserve answer index amount = apply answer index (pos 0) amount amount

unfoldable pub acct_release : LockAnswer → ℕ → ℤ → Store → ErrorCode × Store
unfolding apply
acct_release answer index amount = apply answer index (pos 0) (neg amount) amount

unfoldable pub acct_settle : LockAnswer → ℕ → ℤ → Store → ErrorCode × Store
unfolding apply
acct_settle answer index amount = apply answer index (neg amount) (neg amount) amount

-- `acct_set_cash` on the locked record
unfoldable pub set_cash_body : ℤ → Account → ErrorCode × Account
unfolding run_writes set_cash_writes
set_cash_body cash a =
    if ltb_ℤ cash a.reserved then (invalid_qty, a) else (ok, run_writes (set_cash_writes cash) a)

unfoldable pub acct_set_cash : LockAnswer → ℕ → ℤ → Store → ErrorCode × Store
unfolding with_account set_cash_body
acct_set_cash answer index cash store =
    if ltb_ℤ cash (pos 0)
    then (invalid_qty, store)
    else with_account answer index (set_cash_body cash) store

-- `pos_op_t`
pub data PosOp : Type 0 where
  pos_buy pos_reserve pos_release pos_sell pos_seed : PosOp

-- Division of int64 as in C, towards zero.
unfoldable pub quot : ℤ → ℤ → ℤ
quot a b =
    let q = (pos_part a + neg_part a) / (pos_part b + neg_part b) in
    if ltb_ℤ a (pos 0)
    then if ltb_ℤ b (pos 0) then pos q else neg (pos q)
    else if ltb_ℤ b (pos 0)
    then neg (pos q)
    else pos q

-- `cost_out` of a sale
unfoldable pub cost_out : ℤ → Account → ℤ
unfolding quot
cost_out qty a =
    if leb_ℤ qty a.pos_qty && leb_ℤ a.pos_qty qty
    then a.pos_cost
    else quot (int64 (a.pos_cost *ℤ qty)) a.pos_qty

abbrev pub position_of : Account → Position
position_of a = record {
  qty = a.pos_qty;
  cost = a.pos_cost;
  reserved = a.pos_reserved;
  realized = a.realized;
}

-- The `switch` of `pos_apply`; `none` is the early return with ERR_INVALID_QTY. The arithmetic is of
-- int64: past the range it wraps around in two's complement.
unfoldable pub new_position : PosOp → ℤ → ℤ → ℤ → Account → Option Position
unfolding cost_out
new_position pos_buy qty price seed a = some (record (position_of a) {
  qty = int64 (a.pos_qty +ℤ qty);
  cost = int64 (a.pos_cost +ℤ int64 (price *ℤ qty));
})
new_position pos_reserve qty price seed a =
    if ltb_ℤ (int64 (a.pos_qty -ℤ a.pos_reserved)) qty
    then none
    else some (record (position_of a) { reserved = int64 (a.pos_reserved +ℤ qty) })
new_position pos_release qty price seed a =
    if ltb_ℤ a.pos_reserved qty
    then none
    else some (record (position_of a) { reserved = int64 (a.pos_reserved -ℤ qty) })
new_position pos_sell qty price seed a =
    if ltb_ℤ a.pos_qty qty || ltb_ℤ a.pos_reserved qty
    then none
    else some (record {
      qty = int64 (a.pos_qty -ℤ qty);
      cost = int64 (a.pos_cost -ℤ cost_out qty a);
      reserved = int64 (a.pos_reserved -ℤ qty);
      realized = int64 (a.realized +ℤ int64 (int64 (price *ℤ qty) -ℤ cost_out qty a));
    })
new_position pos_seed qty price seed a =
    some (record { qty = qty; cost = price; reserved = pos 0; realized = seed })

-- The end of `pos_apply`, on what the `switch` gave.
unfoldable pub commit_position : Option Position → Account → ErrorCode × Account
unfolding run_writes pos_writes
commit_position none a = (invalid_qty, a)
commit_position (some p) a =
    if pos_ok p then (ok, run_writes (pos_writes p) a) else (invalid_qty, a)

-- `pos_apply` on the locked record
unfoldable pub pos_body : PosOp → ℤ → ℤ → ℤ → Account → ErrorCode × Account
unfolding new_position commit_position
pos_body op qty price seed a = commit_position (new_position op qty price seed a) a

-- The tests of `pos_apply` on its arguments.
unfoldable pub pos_args_ok : PosOp → ℤ → ℤ → Bool
pos_args_ok pos_seed qty price = leb_ℤ (pos 0) qty && leb_ℤ (pos 0) price
pos_args_ok _ qty price = ltb_ℤ (pos 0) qty

-- `pos_apply`: a missing account is reported before a bad quantity.
unfoldable pub pos_apply : LockAnswer → ℕ → PosOp → ℤ → ℤ → ℤ → Store → ErrorCode × Store
pos_apply answer index op qty price seed store = elim (get_elem? store index) [
  | none ↦ (null_ptr, store)
  | some _ ↦
      if pos_args_ok op qty price
      then with_account answer index (pos_body op qty price seed) store
      else (invalid_qty, store)
]

unfoldable pub acct_buy_fill : LockAnswer → ℕ → ℤ → ℤ → Store → ErrorCode × Store
unfolding pos_apply
acct_buy_fill answer index qty price store =
    if leb_ℤ price (pos 0)
    then (invalid_price, store)
    else pos_apply answer index pos_buy qty price (pos 0) store

unfoldable pub acct_sell_reserve : LockAnswer → ℕ → ℤ → Store → ErrorCode × Store
unfolding pos_apply
acct_sell_reserve answer index qty = pos_apply answer index pos_reserve qty (pos 0) (pos 0)

unfoldable pub acct_sell_release : LockAnswer → ℕ → ℤ → Store → ErrorCode × Store
unfolding pos_apply
acct_sell_release answer index qty = pos_apply answer index pos_release qty (pos 0) (pos 0)

unfoldable pub acct_sell_fill : LockAnswer → ℕ → ℤ → ℤ → Store → ErrorCode × Store
unfolding pos_apply
acct_sell_fill answer index qty price store =
    if leb_ℤ price (pos 0)
    then (invalid_price, store)
    else pos_apply answer index pos_sell qty price (pos 0) store

unfoldable pub acct_seed_position : LockAnswer → ℕ → ℤ → ℤ → ℤ → Store → ErrorCode × Store
unfolding pos_apply
acct_seed_position answer index qty cost realized =
    pos_apply answer index pos_seed qty cost realized
