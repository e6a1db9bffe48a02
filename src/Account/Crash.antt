-- ===== src/Account/Crash.antt =====
-- A worker may die between any two stores of a commit (ledger/src/account.c): the recovery of
-- `acct_lock` in the next worker.
use trading_sor_mock.Base.{
  ℕ, zero, suc, ◌≡◌, refl, ◌⊎◌, true, false, List, [], ◌∷◌, ◌++◌, arith, take,
}
use trading_sor_mock.Base.Int.{ℤ}
use trading_sor_mock.Account.Defs.{
  Account, owner_dead, roll_back, acct_lock, Write, run_writes, begin_write, cash_stores,
  set_cash_stores, Position, pos_stores,
}
use trading_sor_mock.Account.{position_of}
use trading_sor_mock.Types.{ok}

-- What an account holds, without the bookkeeping of the commit.
pub record Balances : Type 0 where
  pub cash : ℤ
  pub reserved : ℤ
  pub position : Position

unfoldable pub balances : Account → Balances
balances a = record { cash = a.cash; reserved = a.reserved; position = position_of a }

-- The commits that the operations make.
pub data Commit : Type 0 where
  cash_commit : (cash reserved : ℤ) → Commit
  set_cash_commit : (cash : ℤ) → Commit
  pos_commit : Position → Commit

-- The stores behind `begin_write`.
unfoldable pub stores : Commit → List Write
unfolding cash_stores set_cash_stores pos_stores
stores (cash_commit c r) = cash_stores c r
stores (set_cash_commit c) = set_cash_stores c
stores (pos_commit p) = pos_stores p

unfoldable pub commit_writes : Commit → List Write
unfolding begin_write stores
commit_writes c = begin_write ++ stores c

-- The record as the first `n` stores of the commit leave it.
unfoldable pub crash_after : ℕ → Commit → Account → Account
unfolding run_writes commit_writes
crash_after n c a = run_writes (take n (commit_writes c)) a

-- A predicate on the record before the first store, after each, and after the last.
abbrev AfterEach : (Account → Type 0) → List Write → Account → Type 0
AfterEach P [] a = P a
AfterEach P (w ∷ ws) a = P a × AfterEach P ws (w a)

AfterEach-take :
    (P : Account → Type 0) (n : ℕ) (ws : List Write) (a : Account)
    → AfterEach P ws a
    → P (run_writes (take n ws) a)
unfolding run_writes
AfterEach-take P zero [] a h = h
AfterEach-take P zero (w ∷ ws) a h = h.0
AfterEach-take P (suc n) [] a h = h
AfterEach-take P (suc n) (w ∷ ws) a h = AfterEach-take P n ws (w a) h.1

-- What recovery makes of a record is whole: it holds the balances `old` or `next`.
abbrev Recovers : (old next : Balances) → Account → Type 0
Recovers old next b =
    let (code, _, c) = acct_lock (owner_dead true) b in
    (code ≡ ok) × (c.mutating ≡ false) × ((balances c ≡ old) ⊎ (balances c ≡ next))

-- Before the mark is set the balances are the old ones.
Recovers-unmarked :
    (old next : Balances) (b : Account)
    → b.mutating ≡ false
    → balances b ≡ old
    → Recovers old next b
unfolding acct_lock
Recovers-unmarked old next b h e = ground arith

-- Under the mark the saved values are the old ones.
Recovers-marked :
    (old next : Balances) (b : Account)
    → b.mutating ≡ true
    → balances (roll_back b) ≡ old
    → Recovers old next b
unfolding acct_lock roll_back
Recovers-marked old next b h e = ground arith

Recovers-next :
    (old next : Balances) (b : Account)
    → b.mutating ≡ false
    → balances b ≡ next
    → Recovers old next b
unfolding acct_lock
Recovers-next old next b h e = ground arith

-- Until the mark is set, dying loses nothing.
AfterEach-begin_write :
    (next : Balances) (ws : List Write) (a : Account)
    → a.mutating ≡ false
    → AfterEach (Recovers (balances a) next) ws (run_writes begin_write a)
    → AfterEach (Recovers (balances a) next) (begin_write ++ ws) a
unfolding begin_write run_writes balances
AfterEach-begin_write next ws a h rest =
    let u = λ (b : Account) (m : b.mutating ≡ false) (e : balances b ≡ balances a).
      Recovers-unmarked (balances a) next b m e in
    (
      u _ h refl,
      (u _ h refl, (u _ h refl, (u _ h refl, (u _ h refl, (u _ h refl, (u _ h refl, rest)))))),
    )

-- Once it is set, recovery puts the saved values back, until the commit is over.
stores-AfterEach :
    (c : Commit) (a : Account)
    → AfterEach
        (Recovers (balances a) (balances (run_writes (commit_writes c) a)))
        (stores c)
        (run_writes begin_write a)
unfolding commit_writes run_writes roll_back balances stores
stores-AfterEach (cash_commit x r) a = (
  Recovers-marked _ _ _ refl refl,
  (
    Recovers-marked _ _ _ refl refl,
    (
      Recovers-marked _ _ _ refl refl,
      (Recovers-next _ _ _ refl refl, Recovers-next _ _ _ refl refl),
    ),
  ),
)
stores-AfterEach (set_cash_commit x) a = (
  Recovers-marked _ _ _ refl refl,
  (Recovers-marked _ _ _ refl refl, (Recovers-next _ _ _ refl refl, Recovers-next _ _ _ refl refl)),
)
stores-AfterEach (pos_commit p) a = (
  Recovers-marked _ _ _ refl refl,
  (
    Recovers-marked _ _ _ refl refl,
    (
      Recovers-marked _ _ _ refl refl,
      (
        Recovers-marked _ _ _ refl refl,
        (
          Recovers-marked _ _ _ refl refl,
          (Recovers-next _ _ _ refl refl, Recovers-next _ _ _ refl refl),
        ),
      ),
    ),
  ),
)

-- A worker that dies after any number of stores of a commit leaves an account that the next
-- `acct_lock` makes whole: the lock succeeds, no write is under way, and the balances are all as
-- before the commit or all as after it.
pub acct_lock-crash :
    (n : ℕ) (c : Commit) (a : Account)
    → a.mutating ≡ false
    → let (code, _, b) = acct_lock (owner_dead true) (crash_after n c a) in
      (code ≡ ok)
      × (b.mutating ≡ false)
      × ((balances b ≡ balances a) ⊎ (balances b ≡ balances (run_writes (commit_writes c) a)))
unfolding crash_after commit_writes
acct_lock-crash n c a h =
    let final = balances (run_writes (commit_writes c) a) in
    AfterEach-take (Recovers (balances a) final) n (commit_writes c) a
      (AfterEach-begin_write final (stores c) a h (stores-AfterEach c a))
