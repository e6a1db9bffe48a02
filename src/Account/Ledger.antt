-- ===== src/Account/Ledger.antt =====
-- The balance and holding operations of ledger/src/account.c together: what every sequence of them
-- keeps, when each succeeds, and what a refusal leaves behind.
use trading_sor_mock.Base.{
  ℕ, ◌≡◌, refl, ◌≢◌, ◌⊎◌, inl, inr, true, false, Option, none, some, List, [], ◌∷◌, arith,
  if◌then◌else◌, Bool-cases, Option-cases, get_elem?, set, set-get_elem?, All, All-get_elem?,
}
use trading_sor_mock.Base.Int.{ℤ, pos, ◌+ℤ◌, ◌-ℤ◌, ◌≤ℤ◌, ltb_ℤ, int_laws, leb_ℤ, neg}
use trading_sor_mock.Account.Defs.{
  Account, LockAnswer, run_writes, cash_writes, Position, invariant_ok,
}
use trading_sor_mock.Account.{
  Store, with_account, apply_body, apply, acct_deposit, acct_withdraw, acct_reserve, acct_release,
  acct_settle, set_cash_body, acct_set_cash, PosOp, pos_buy, pos_reserve, pos_release, pos_sell,
  pos_seed, position_of, new_position, commit_position, pos_body, pos_args_ok, pos_apply,
  acct_buy_fill, acct_sell_reserve, acct_sell_release, acct_sell_fill, acct_seed_position,
}
use trading_sor_mock.Account.Invariant.{
  IsValid, apply_body-IsValid, set_cash_body-IsValid, pos_body-IsValid, lock_works,
  with_account_settled, with_account_missing, with_account-All,
}
use trading_sor_mock.Types.{ErrorCode, ok, null_ptr, invalid_price, invalid_qty}

-- A call of the public interface on one account.
pub data Op : Type 0 where
  deposit withdraw reserve release settle set_cash sell_reserve sell_release : ℤ → Op
  buy_fill sell_fill : (qty price : ℤ) → Op
  seed_position : (qty cost realized : ℤ) → Op

unfoldable pub run_op : LockAnswer → ℕ → Op → Store → ErrorCode × Store
run_op l i (deposit x) = acct_deposit l i x
run_op l i (withdraw x) = acct_withdraw l i x
run_op l i (reserve x) = acct_reserve l i x
run_op l i (release x) = acct_release l i x
run_op l i (settle x) = acct_settle l i x
run_op l i (set_cash x) = acct_set_cash l i x
run_op l i (sell_reserve q) = acct_sell_reserve l i q
run_op l i (sell_release q) = acct_sell_release l i q
run_op l i (buy_fill q p) = acct_buy_fill l i q p
run_op l i (sell_fill q p) = acct_sell_fill l i q p
run_op l i (seed_position q c r) = acct_seed_position l i q c r

-- Calls in the order in which the workers make them.
unfoldable pub run_ops : List (LockAnswer × ℕ × Op) → Store → Store
run_ops [] store = store
run_ops ((l, i, op) ∷ ops) store = run_ops ops (run_op l i op store).1

-- An operation keeps the accounts valid, and changes none when it is refused.
record Keeps (store : Store) (out : ErrorCode × Store) : Type 0 where
  valid : All IsValid store → All IsValid out.1
  atomic : All IsValid store → out.0 ≢ ok → out.1 ≡ store

refused : (store : Store) (code : ErrorCode) → Keeps store (code, store)
refused store code = record { valid = λ h. h; atomic = λ h n. refl }

with_account-Keeps :
    (l : LockAnswer) (i : ℕ) (body : Account → ErrorCode × Account) (store : Store)
    → ((a : Account) → IsValid a → IsValid (body a).1)
    → ((a : Account) → (body a).0 ≢ ok → (body a).1 ≡ a)
    → Keeps store (with_account l i body store)
with_account-Keeps l i body store keep same = record {
  valid = with_account-All l i body store keep;
  atomic = λ h n. go h (Option-cases (get_elem? store i)) n;
}
  where
    go :
        All IsValid store
        → (get_elem? store i ≡ none) ⊎ ((a : Account) × (get_elem? store i ≡ some a))
        → (with_account l i body store).0 ≢ ok
        → (with_account l i body store).1 ≡ store
    go h (inl e) n = rw (with_account_missing l i body store e)
    go h (inr (a, e)) n =
        let v : IsValid a = All-get_elem? IsValid store i h e in
        ground
          (arith, with_account_settled l i body store e v.settled, same a, set-get_elem? store i e)

apply_body-same :
    (d_cash d_reserved : ℤ) (a : Account)
    → (apply_body d_cash d_reserved a).0 ≢ ok
    → (apply_body d_cash d_reserved a).1 ≡ a
unfolding apply_body
apply_body-same d_cash d_reserved a n = ground arith

set_cash_body-same :
    (cash : ℤ) (a : Account) → (set_cash_body cash a).0 ≢ ok → (set_cash_body cash a).1 ≡ a
unfolding set_cash_body
set_cash_body-same cash a n = ground arith

commit_position-same :
    (p : Option Position) (a : Account) → (commit_position p a).0 ≢ ok → (commit_position p a).1 ≡ a
unfolding commit_position
commit_position-same none a n = refl
commit_position-same (some p) a n = ground arith

pos_body-same :
    (op : PosOp) (qty price seed : ℤ) (a : Account)
    → (pos_body op qty price seed a).0 ≢ ok
    → (pos_body op qty price seed a).1 ≡ a
unfolding pos_body
pos_body-same op qty price seed a = commit_position-same (new_position op qty price seed a) a

apply-Keeps :
    (l : LockAnswer) (i : ℕ) (c r x : ℤ) (store : Store) → Keeps store (apply l i c r x store)
unfolding apply
apply-Keeps l i c r x store = elim (Bool-cases (leb_ℤ x (pos 0))) [
  | inl e ↦ rw (e, apply) (refused store invalid_qty)
  | inr e ↦
      rw (e, apply)
        (with_account-Keeps l i (apply_body c r) store (apply_body-IsValid c r)
          (apply_body-same c r))
]

acct_set_cash-Keeps :
    (l : LockAnswer) (i : ℕ) (x : ℤ) (store : Store) → Keeps store (acct_set_cash l i x store)
unfolding acct_set_cash
acct_set_cash-Keeps l i x store = elim (Bool-cases (ltb_ℤ x (pos 0))) [
  | inl e ↦ rw (e, acct_set_cash) (refused store invalid_qty)
  | inr e ↦
      rw (e, acct_set_cash)
        (with_account-Keeps l i (set_cash_body x) store (set_cash_body-IsValid x)
          (set_cash_body-same x))
]

pos_apply-Keeps :
    (l : LockAnswer) (i : ℕ) (op : PosOp) (q p s : ℤ) (store : Store)
    → Keeps store (pos_apply l i op q p s store)
unfolding pos_apply
pos_apply-Keeps l i op q p s store = elim (Option-cases (get_elem? store i)) [
  | inl e ↦ rw (e, pos_apply) (refused store null_ptr)
  | inr (a, e) ↦
      rw (e, pos_apply)
        (elim (Bool-cases (pos_args_ok op q p)) [
          | inl f ↦ rw f (
              with_account-Keeps l i (pos_body op q p s) store (pos_body-IsValid op q p s)
                (pos_body-same op q p s))
          | inr f ↦ rw f (refused store invalid_qty)
        ])
]

priced-Keeps :
    (l : LockAnswer) (i : ℕ) (op : PosOp) (q p : ℤ) (store : Store)
    → Keeps store
        (if leb_ℤ p (pos 0) then (invalid_price, store) else pos_apply l i op q p (pos 0) store)
priced-Keeps l i op q p store = elim (Bool-cases (leb_ℤ p (pos 0))) [
  | inl e ↦ rw e (refused store invalid_price)
  | inr e ↦ rw e (pos_apply-Keeps l i op q p (pos 0) store)
]

run_op-Keeps :
    (l : LockAnswer) (i : ℕ) (op : Op) (store : Store) → Keeps store (run_op l i op store)
unfolding run_op acct_deposit acct_withdraw acct_reserve acct_release acct_settle acct_sell_reserve
    acct_sell_release acct_seed_position acct_buy_fill acct_sell_fill
run_op-Keeps l i (deposit x) store = apply-Keeps l i x (pos 0) x store
run_op-Keeps l i (withdraw x) store = apply-Keeps l i (neg x) (pos 0) x store
run_op-Keeps l i (reserve x) store = apply-Keeps l i (pos 0) x x store
run_op-Keeps l i (release x) store = apply-Keeps l i (pos 0) (neg x) x store
run_op-Keeps l i (settle x) store = apply-Keeps l i (neg x) (neg x) x store
run_op-Keeps l i (set_cash x) store = acct_set_cash-Keeps l i x store
run_op-Keeps l i (sell_reserve q) store = pos_apply-Keeps l i pos_reserve q (pos 0) (pos 0) store
run_op-Keeps l i (sell_release q) store = pos_apply-Keeps l i pos_release q (pos 0) (pos 0) store
run_op-Keeps l i (buy_fill q p) store = priced-Keeps l i pos_buy q p store
run_op-Keeps l i (sell_fill q p) store = priced-Keeps l i pos_sell q p store
run_op-Keeps l i (seed_position q c r) store = pos_apply-Keeps l i pos_seed q c r store

-- A refused operation, whatever the reason (amount, missing account, lock, funds), leaves every
-- account of a store of valid accounts as it was.
pub run_op-refused :
    (l : LockAnswer) (i : ℕ) (op : Op) (store : Store)
    → All IsValid store
    → (run_op l i op store).0 ≢ ok
    → (run_op l i op store).1 ≡ store
run_op-refused l i op store h n = (run_op-Keeps l i op store).atomic h n

-- Any sequence of operations by any workers, whatever each lock answers, keeps every account valid:
-- 0 ≤ reserved ≤ cash, 0 ≤ pos_reserved ≤ pos_qty, 0 ≤ pos_cost, and no write left under way.
pub run_ops-IsValid :
    (ops : List (LockAnswer × ℕ × Op)) (store : Store)
    → All IsValid store
    → All IsValid (run_ops ops store)
unfolding run_ops
run_ops-IsValid [] store h = h
run_ops-IsValid ((l, i, op) ∷ ops) store h =
    run_ops-IsValid ops (run_op l i op store).1 ((run_op-Keeps l i op store).valid h)

-- `apply` on a settled record that can be locked.
apply_lem :
    (l : LockAnswer) (i : ℕ) (d_cash d_reserved x : ℤ) (store : Store) {a : Account}
    → get_elem? store i ≡ some a
    → a.mutating ≡ false
    → a.in_use ≡ true
    → lock_works l ≡ true
    → apply l i d_cash d_reserved x store ≡ (
        if leb_ℤ x (pos 0)
        then (invalid_qty, store)
        else if invariant_ok (a.cash +ℤ d_cash) (a.reserved +ℤ d_reserved)
        then (
          ok,
          set store i (run_writes (cash_writes (a.cash +ℤ d_cash) (a.reserved +ℤ d_reserved)) a),
        )
        else (invalid_qty, store))
unfolding apply
apply_lem l i d_cash d_reserved x store {a} e settled used works =
    rw (with_account_settled l i (apply_body d_cash d_reserved) store e settled, works, used)
      (unfold apply_body in ground (arith, set-get_elem? store i e))

-- An order's margin is reserved exactly when it is positive and covered by `cash - reserved`; then
-- the free money falls by that amount and the cash stays. Otherwise ERR_INVALID_QTY changes nothing.
pub acct_reserve_lem :
    (l : LockAnswer) (i : ℕ) (x : ℤ) (store : Store) {a : Account}
    → get_elem? store i ≡ some a
    → IsValid a
    → a.in_use ≡ true
    → lock_works l ≡ true
    → ((pos 1 ≤ℤ x)
        → x ≤ℤ a.cash -ℤ a.reserved
        → (b : Account) × (acct_reserve l i x store ≡ (ok, set store i b))
          × (b.cash ≡ a.cash)
          × (b.reserved ≡ a.reserved +ℤ x)
          × (position_of b ≡ position_of a))
      × (¬ ((pos 1 ≤ℤ x) × (x ≤ℤ a.cash -ℤ a.reserved))
          → acct_reserve l i x store ≡ (invalid_qty, store))
unfolding acct_reserve run_writes cash_writes
acct_reserve_lem l i x store {a} e v used works = (
  λ p q. (
    run_writes (cash_writes (a.cash +ℤ pos 0) (a.reserved +ℤ x)) a,
    grind (int_laws, apply_lem l i (pos 0) x x store e v.settled used works),
    omega int_laws,
    refl,
    refl,
  ),
  λ n. grind (int_laws, apply_lem l i (pos 0) x x store e v.settled used works),
)
