-- ===== src/Account/Defs.antt =====
-- The record, the lock with its recovery, and the writes of a commit (ledger/src/account.c).
use trading_sor_mock.Base.{ℕ, ◌+◌, Bool, true, false, ◌&&◌, List, [], ◌∷◌, ◌++◌, if◌then◌else◌}
use trading_sor_mock.Base.Int.{ℤ, pos, leb_ℤ}
use trading_sor_mock.Types.{ErrorCode, ok, not_supported}

-- `account_t`. `account_no` holds the bytes before the terminating zero.
pub record Account : Type 0 where
  pub account_no : List ℕ
  pub in_use : Bool
  pub cash : ℤ
  pub reserved : ℤ
  pub version : ℕ
  pub pos_qty : ℤ
  pub pos_cost : ℤ
  pub pos_reserved : ℤ
  pub realized : ℤ
  pub mutating : Bool
  pub pre_cash : ℤ
  pub pre_reserved : ℤ
  pub pre_pos_qty : ℤ
  pub pre_pos_cost : ℤ
  pub pre_pos_reserved : ℤ
  pub pre_realized : ℤ

-- What `pthread_mutex_lock` answers: 0, EOWNERDEAD with the success of
-- `pthread_mutex_consistent`, or another error.
pub data LockAnswer : Type 0 where
  acquired : LockAnswer
  owner_dead : Bool → LockAnswer
  unusable : LockAnswer

-- The fields put back when a dead owner was writing.
unfoldable pub roll_back : Account → Account
roll_back a = record a {
  cash = a.pre_cash;
  reserved = a.pre_reserved;
  pos_qty = a.pre_pos_qty;
  pos_cost = a.pre_pos_cost;
  pos_reserved = a.pre_pos_reserved;
  realized = a.pre_realized;
  mutating = false;
}

-- `acct_lock` on the record found: the code, `*out_recovered`, and the record afterwards.
unfoldable pub acct_lock : LockAnswer → Account → ErrorCode × Bool × Account
acct_lock acquired a = (ok, false, a)
acct_lock (owner_dead consistent) a =
    let a' = if a.mutating then roll_back a else a in
    (if consistent then ok else not_supported, a.mutating, a')
acct_lock unusable a = (not_supported, false, a)

-- One store to the shared record.
abbrev pub Write : Type 0
Write = Account → Account

unfoldable pub run_writes : List Write → Account → Account
run_writes [] a = a
run_writes (w ∷ ws) a = run_writes ws (w a)

-- `begin_write`, one store after the other
unfoldable pub begin_write : List Write
begin_write =
    (λ a. record a { pre_cash = a.cash })
    ∷ (λ a. record a { pre_reserved = a.reserved })
    ∷ (λ a. record a { pre_pos_qty = a.pos_qty })
    ∷ (λ a. record a { pre_pos_cost = a.pos_cost })
    ∷ (λ a. record a { pre_pos_reserved = a.pos_reserved })
    ∷ (λ a. record a { pre_realized = a.realized })
    ∷ (λ a. record a { mutating = true })
    ∷ []

-- `end_write`
unfoldable pub end_write : List Write
end_write = (λ a. record a { mutating = false }) ∷ (λ a. record a { version = a.version + 1 }) ∷ []

-- The stores of `apply` between `begin_write` and `end_write`, and those of `end_write`.
unfoldable pub cash_stores : ℤ → ℤ → List Write
unfolding end_write
cash_stores cash reserved =
    (λ a. record a { cash = cash }) ∷ (λ a. record a { reserved = reserved }) ∷ end_write

unfoldable pub cash_writes : ℤ → ℤ → List Write
unfolding begin_write cash_stores
cash_writes cash reserved = begin_write ++ cash_stores cash reserved

-- The same for `acct_set_cash`.
unfoldable pub set_cash_stores : ℤ → List Write
unfolding end_write
set_cash_stores cash = (λ a. record a { cash = cash }) ∷ end_write

unfoldable pub set_cash_writes : ℤ → List Write
unfolding begin_write set_cash_stores
set_cash_writes cash = begin_write ++ set_cash_stores cash

-- The values that `pos_apply` computes.
pub record Position : Type 0 where
  pub qty : ℤ
  pub cost : ℤ
  pub reserved : ℤ
  pub realized : ℤ

-- The same for `pos_apply`.
unfoldable pub pos_stores : Position → List Write
unfolding end_write
pos_stores p =
    (λ a. record a { pos_qty = p.qty })
    ∷ (λ a. record a { pos_cost = p.cost })
    ∷ (λ a. record a { pos_reserved = p.reserved })
    ∷ (λ a. record a { realized = p.realized })
    ∷ end_write

unfoldable pub pos_writes : Position → List Write
unfolding begin_write pos_stores
pos_writes p = begin_write ++ pos_stores p

-- `invariant_ok`
abbrev pub invariant_ok : ℤ → ℤ → Bool
invariant_ok cash reserved = leb_ℤ (pos 0) cash && leb_ℤ (pos 0) reserved && leb_ℤ reserved cash

-- `pos_ok`
abbrev pub pos_ok : Position → Bool
pos_ok p =
    leb_ℤ (pos 0) p.qty
    && leb_ℤ (pos 0) p.cost
    && leb_ℤ (pos 0) p.reserved
    && leb_ℤ p.reserved p.qty
