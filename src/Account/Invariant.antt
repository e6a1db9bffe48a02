-- ===== src/Account/Invariant.antt =====
-- The invariants of an account (`invariant_ok`, `pos_ok`) under every operation of
-- ledger/src/account.c.
use trading_sor_mock.Base.{
  ℕ, ◌≡◌, inl, inr, Bool, true, false, Option, none, some, arith, if◌then◌else◌, Option-cases,
  get_elem?, set, set-get_elem?, All, All-set, All-get_elem?,
}
use trading_sor_mock.Base.Int.{ℤ, pos, ◌≤ℤ◌}
use trading_sor_mock.Account.Defs.{
  Account, LockAnswer, acquired, owner_dead, unusable, acct_lock, Position,
}
use trading_sor_mock.Account.{
  Store, with_account, apply_body, set_cash_body, PosOp, new_position, commit_position, pos_body,
}
use trading_sor_mock.Types.{ErrorCode, null_ptr, not_supported, not_found}

-- Money and holdings are consistent, and no write is under way.
pub record IsValid (a : Account) : Type 0 where
  pub reserved_nonneg : pos 0 ≤ℤ a.reserved
  pub reserved-le-cash : a.reserved ≤ℤ a.cash
  pub pos_reserved_nonneg : pos 0 ≤ℤ a.pos_reserved
  pub pos_reserved-le-qty : a.pos_reserved ≤ℤ a.pos_qty
  pub pos_cost_nonneg : pos 0 ≤ℤ a.pos_cost
  pub settled : a.mutating ≡ false

pub apply_body-IsValid :
    (d_cash d_reserved : ℤ) (a : Account) → IsValid a → IsValid (apply_body d_cash d_reserved a).1
unfolding apply_body
apply_body-IsValid d_cash d_reserved a v = ground arith

pub set_cash_body-IsValid : (cash : ℤ) (a : Account) → IsValid a → IsValid (set_cash_body cash a).1
unfolding set_cash_body
set_cash_body-IsValid cash a v = ground arith

-- `new_position` stays shut: `pos_ok` alone guards what is stored.
commit_position-IsValid :
    (p : Option Position) (a : Account) → IsValid a → IsValid (commit_position p a).1
unfolding commit_position
commit_position-IsValid none a v = v
commit_position-IsValid (some p) a v = ground arith

pub pos_body-IsValid :
    (op : PosOp) (qty price seed : ℤ) (a : Account)
    → IsValid a
    → IsValid (pos_body op qty price seed a).1
unfolding pos_body
pos_body-IsValid op qty price seed a v =
    commit_position-IsValid (new_position op qty price seed a) a v

-- Whether the lock can be had.
abbrev pub lock_works : LockAnswer → Bool
lock_works acquired = true
lock_works (owner_dead consistent) = consistent
lock_works unusable = false

-- On a settled record an operation runs its body, or is refused and changes nothing.
pub with_account_settled :
    (answer : LockAnswer) (index : ℕ) (body : Account → ErrorCode × Account) (store : Store)
    {a : Account}
    → get_elem? store index ≡ some a
    → a.mutating ≡ false
    → with_account answer index body store ≡ (
        if lock_works answer
        then if a.in_use then ((body a).0, set store index (body a).1) else (not_found, store)
        else (not_supported, store))
unfolding with_account acct_lock
with_account_settled acquired index body store {a} e h =
    rw (e, with_account) (ground (arith, set-get_elem? store index e))
with_account_settled (owner_dead true) index body store {a} e h =
    rw (e, with_account) (ground (arith, set-get_elem? store index e))
with_account_settled (owner_dead false) index body store {a} e h =
    rw (e, with_account) (ground (arith, set-get_elem? store index e))
with_account_settled unusable index body store {a} e h =
    rw (e, with_account) (ground (arith, set-get_elem? store index e))

pub with_account_missing :
    (answer : LockAnswer) (index : ℕ) (body : Account → ErrorCode × Account) (store : Store)
    → get_elem? store index ≡ none
    → with_account answer index body store ≡ (null_ptr, store)
unfolding with_account
with_account_missing answer index body store e = rw (e, with_account)

-- A body that keeps accounts valid keeps the store valid.
pub with_account-All :
    (answer : LockAnswer) (index : ℕ) (body : Account → ErrorCode × Account) (store : Store)
    → ((a : Account) → IsValid a → IsValid (body a).1)
    → All IsValid store
    → All IsValid (with_account answer index body store).1
with_account-All answer index body store keep h = elim (Option-cases (get_elem? store index)) [
  | inl e ↦ rw (with_account_missing answer index body store e) h
  | inr (a, e) ↦
      let v : IsValid a = All-get_elem? IsValid store index h e in
      rw (with_account_settled answer index body store e v.settled)
        (ground (arith, All-set IsValid store index (body a).1 h (keep a v)))
]
