-- ===== src/Account/Holdings.antt =====
-- Selling out of a holding (`POS_SELL` of ledger/src/account.c): the cost leaves with the shares.
use trading_sor_mock.Base.{
  ℕ, ◌+◌, ◌-◌, ◌*◌, ◌/◌, ◌^◌, ◌≤◌, ◌<◌, ◌≡◌, refl, sym, ap, ◌∙◌, inl, inr, true, false, ◌&&◌, some,
  arith, subst, Bool-cases, get_elem?, set,
}
use trading_sor_mock.Base.Int.{
  ℤ, pos, negsuc, pos_part, neg_part, ◌+ℤ◌, ◌-ℤ◌, ◌*ℤ◌, ◌≤ℤ◌, ltb_ℤ, eq_of_parts, int_laws, leb_ℤ,
  int64, int64-id,
}
use trading_sor_mock.Types.{ok}
use trading_sor_mock.Account.Defs.{Account, LockAnswer, run_writes, Position, pos_writes, pos_ok}
use trading_sor_mock.Account.{
  Store, pos_sell, quot, cost_out, new_position, commit_position, pos_body, pos_args_ok, pos_apply,
  acct_sell_fill,
}
use trading_sor_mock.Account.Invariant.{IsValid, lock_works, with_account_settled}
use native.Mathlib.Nat.{div-le_of_le-mul}

nonneg_pos : (x : ℤ) → pos 0 ≤ℤ x → x ≡ pos (pos_part x)
nonneg_pos (pos n) h = refl
nonneg_pos (negsuc n) h = absurd (omega arith)

nonneg-neg_part : (x : ℤ) → pos 0 ≤ℤ x → neg_part x ≡ 0
nonneg-neg_part (pos n) h = refl
nonneg-neg_part (negsuc n) h = absurd (omega arith)

-- The proportional part of a cost, rounded down.
share-le : (c k n : ℕ) → k ≤ n → c * k / n ≤ c
share-le c k n h = div-le_of_le-mul n (grind arith)

share_bounds : (c k n : ℕ) → 0 < n → (c * k / n * n ≤ c * k) × (c * k < (c * k / n + 1) * n)
share_bounds c k n h = grind arith

share_all : (c n : ℕ) → 0 < n → c * n / n ≡ c
share_all c n h = grind arith

*ℤ-pos : (c k : ℕ) → pos c *ℤ pos k ≡ pos (c * k)
unfolding ◌*ℤ◌
*ℤ-pos c k = ground arith

quot-pos : (m n : ℕ) → quot (pos m) (pos n) ≡ pos (m / n)
unfolding quot
quot-pos m n = ground arith

-- The amounts of a sale stay within 2 ^ 62, so that no int64 is passed.
pub record InRange (q p : ℤ) (a : Account) : Type 0 where
  pub qty_small : a.pos_qty ≤ℤ pos (2 ^ 62)
  pub cost_small : a.pos_cost ≤ℤ pos (2 ^ 62)
  pub product_small : a.pos_cost *ℤ q ≤ℤ pos (2 ^ 62)
  pub proceeds_small : p *ℤ q ≤ℤ pos (2 ^ 62)
  pub realized_low : negsuc (2 ^ 62 - 1) ≤ℤ a.realized
  pub realized_high : a.realized ≤ℤ pos (2 ^ 62 - 1)

-- The cost that goes with `q` of the shares.
abbrev pub cost_share : ℤ → Account → ℕ
cost_share q a = pos_part a.pos_cost * pos_part q / pos_part a.pos_qty

same_ℤ : (a b : ℤ) → (leb_ℤ a b && leb_ℤ b a) ≡ true → a ≡ b
same_ℤ a b e = eq_of_parts a b (ground (arith, e))

product_lem : (x y : ℤ) → pos 0 ≤ℤ x → pos 0 ≤ℤ y → x *ℤ y ≡ pos (pos_part x * pos_part y)
product_lem x y hx hy =
    ap (λ (z : ℤ). z *ℤ y) (nonneg_pos x hx)
    ∙ ap (λ (z : ℤ). pos (pos_part x) *ℤ z) (nonneg_pos y hy)
    ∙ *ℤ-pos (pos_part x) (pos_part y)

cost_out_lem :
    (q p : ℤ) (a : Account)
    → IsValid a
    → InRange q p a
    → pos 1 ≤ℤ q
    → q ≤ℤ a.pos_qty
    → cost_out q a ≡ pos (cost_share q a)
unfolding cost_out
cost_out_lem q p a v r h1 h2 =
    let product = product_lem a.pos_cost q v.pos_cost_nonneg (omega arith) in
    let kept : int64 (a.pos_cost *ℤ q) ≡ a.pos_cost *ℤ q =
      int64-id (a.pos_cost *ℤ q)
        (subst (λ (z : ℤ). negsuc (2 ^ 63 - 1) ≤ℤ z) (sym product) (omega arith))
        (omega (arith, r.product_small)) in
    elim (Bool-cases (leb_ℤ q a.pos_qty && leb_ℤ a.pos_qty q)) [
      | inl e ↦ rw e (
          nonneg_pos a.pos_cost v.pos_cost_nonneg
          ∙ ap pos (
              sym (share_all (pos_part a.pos_cost) (pos_part a.pos_qty) (omega arith))
              ∙ ap (λ (z : ℤ). pos_part a.pos_cost * pos_part z / pos_part a.pos_qty)
                  (sym (same_ℤ q a.pos_qty e))))
      | inr e ↦ rw e (
          ap (λ (z : ℤ). quot z a.pos_qty) (kept ∙ product)
          ∙ ap (λ (z : ℤ). quot (pos (pos_part a.pos_cost * pos_part q)) z)
              (nonneg_pos a.pos_qty (omega arith))
          ∙ quot-pos (pos_part a.pos_cost * pos_part q) (pos_part a.pos_qty))
    ]

-- The holding after a sale.
abbrev sold : ℤ → ℤ → Account → Position
sold q p a = record {
  qty = a.pos_qty -ℤ q;
  cost = a.pos_cost -ℤ pos (cost_share q a);
  reserved = a.pos_reserved -ℤ q;
  realized = a.realized +ℤ (p *ℤ q -ℤ pos (cost_share q a));
}

parts_le : (x y : ℤ) → pos 0 ≤ℤ x → x ≤ℤ y → pos_part x ≤ pos_part y
parts_le x y h k = ground arith

parts_up : (c : ℕ) (x : ℤ) → pos 0 ≤ℤ x → c ≤ pos_part x → pos c ≤ℤ x
parts_up c x h k = ground arith

cost_share-le :
    (q : ℤ) (a : Account)
    → IsValid a
    → pos 1 ≤ℤ q
    → q ≤ℤ a.pos_reserved
    → pos (cost_share q a) ≤ℤ a.pos_cost
cost_share-le q a v h1 h2 = parts_up (cost_share q a) a.pos_cost v.pos_cost_nonneg (
    share-le (pos_part a.pos_cost) (pos_part q) (pos_part a.pos_qty)
      (parts_le q a.pos_qty (omega arith) (omega (arith, v.pos_reserved-le-qty))))

-- Within the range, no int64 of a sale wraps around.
new_position_sell :
    (q p : ℤ) (a : Account)
    → IsValid a
    → InRange q p a
    → pos 1 ≤ℤ p
    → pos 1 ≤ℤ q
    → q ≤ℤ a.pos_reserved
    → new_position pos_sell q p (pos 0) a ≡ some (sold q p a)
unfolding new_position
new_position_sell q p a v r hp hq hr =
    let c = cost_share q a in
    let le = cost_share-le q a v hq hr in
    let out = cost_out_lem q p a v r hq (omega (arith, v.pos_reserved-le-qty)) in
    let proceeds = product_lem p q (omega arith) (omega arith) in
    let gained : int64 (p *ℤ q) ≡ p *ℤ q =
      int64-id (p *ℤ q) (subst (λ (z : ℤ). negsuc (2 ^ 63 - 1) ≤ℤ z) (sym proceeds) (omega arith))
        (omega (arith, r.proceeds_small)) in
    let nonneg : pos 0 ≤ℤ p *ℤ q = subst (λ (z : ℤ). pos 0 ≤ℤ z) (sym proceeds) (omega arith) in
    let profit : int64 (p *ℤ q -ℤ pos c) ≡ p *ℤ q -ℤ pos c =
      int64-id (p *ℤ q -ℤ pos c) (omega (int_laws, nonneg, le, r.cost_small))
        (omega (int_laws, r.proceeds_small)) in
    let total : int64 (a.realized +ℤ (p *ℤ q -ℤ pos c)) ≡ a.realized +ℤ (p *ℤ q -ℤ pos c) =
      int64-id (a.realized +ℤ (p *ℤ q -ℤ pos c))
        (omega (int_laws, nonneg, le, r.cost_small, r.realized_low))
        (omega (int_laws, r.proceeds_small, r.realized_high)) in
    let left : int64 (a.pos_qty -ℤ q) ≡ a.pos_qty -ℤ q =
      int64-id (a.pos_qty -ℤ q) (omega (int_laws, v.pos_reserved-le-qty))
        (omega (int_laws, r.qty_small)) in
    let free : int64 (a.pos_reserved -ℤ q) ≡ a.pos_reserved -ℤ q =
      int64-id (a.pos_reserved -ℤ q) (omega int_laws)
        (omega (int_laws, r.qty_small, v.pos_reserved-le-qty)) in
    let rest : int64 (a.pos_cost -ℤ pos c) ≡ a.pos_cost -ℤ pos c =
      int64-id (a.pos_cost -ℤ pos c) (omega (int_laws, le)) (omega (int_laws, r.cost_small)) in
    rw
      (
        enough a.pos_qty q (omega (arith, v.pos_reserved-le-qty)),
        enough a.pos_reserved q hr,
        out,
        gained,
        profit,
        total,
        left,
        free,
        rest,
      )
      refl
  where
    enough : (x y : ℤ) → y ≤ℤ x → ltb_ℤ x y ≡ false
    enough x y h = ground arith

sold_ok :
    (q p : ℤ) (a : Account)
    → IsValid a
    → pos 1 ≤ℤ q
    → q ≤ℤ a.pos_reserved
    → pos_ok (sold q p a) ≡ true
sold_ok q p a v hq hr =
    checks (sold q p a) (omega (int_laws, v.pos_reserved-le-qty))
      (omega (int_laws, cost_share-le q a v hq hr)) (omega int_laws)
      (omega (int_laws, v.pos_reserved-le-qty))
  where
    checks :
        (b : Position)
        → pos 0 ≤ℤ b.qty
        → pos 0 ≤ℤ b.cost
        → pos 0 ≤ℤ b.reserved
        → b.reserved ≤ℤ b.qty
        → pos_ok b ≡ true
    checks b h1 h2 h3 h4 = ground arith

pos_body_sell :
    (q p : ℤ) (a : Account)
    → IsValid a
    → InRange q p a
    → pos 1 ≤ℤ p
    → pos 1 ≤ℤ q
    → q ≤ℤ a.pos_reserved
    → pos_body pos_sell q p (pos 0) a ≡ (ok, run_writes (pos_writes (sold q p a)) a)
unfolding pos_body commit_position
pos_body_sell q p a v r hp hq hr =
    rw (new_position_sell q p a v r hp hq hr, sold_ok q p a v hq hr) refl

-- What leaves the cost is the proportional part, rounded down.
sold_share : (q p : ℤ) (a : Account) → (sold q p a).cost +ℤ pos (cost_share q a) ≡ a.pos_cost
sold_share q p a = omega int_laws

leb_ℤ_pos : (x : ℤ) → pos 1 ≤ℤ x → leb_ℤ x (pos 0) ≡ false
leb_ℤ_pos x h = ground arith

ltb_ℤ_pos : (x : ℤ) → pos 1 ≤ℤ x → ltb_ℤ (pos 0) x ≡ true
ltb_ℤ_pos x h = ground arith

-- All the cost leaves with all the shares.
all_sold :
    (q p : ℤ) (a : Account)
    → IsValid a
    → 0 < pos_part a.pos_qty
    → q ≡ a.pos_qty
    → (sold q p a).cost ≡ pos 0
all_sold q p a v n_pos all =
    let whole : cost_share q a ≡ pos_part a.pos_cost =
      ap (λ (z : ℤ). pos_part a.pos_cost * pos_part z / pos_part a.pos_qty) all
      ∙ share_all (pos_part a.pos_cost) (pos_part a.pos_qty) n_pos in
    omega (int_laws, whole, nonneg-neg_part a.pos_cost v.pos_cost_nonneg)

-- A sale out of reserved shares at a positive price, with amounts within 2 ^ 62, succeeds. The
-- holding and the reservation fall by the shares sold. What leaves the cost is in proportion to the
-- shares sold, rounded down to a won; the realised profit rises by the proceeds less exactly that;
-- the cost left is not negative, and zero when all is sold. Cash and its reservation stay.
pub acct_sell_fill_lem :
    (l : LockAnswer) (i : ℕ) (q p : ℤ) (store : Store) {a : Account}
    → get_elem? store i ≡ some a
    → IsValid a
    → a.in_use ≡ true
    → lock_works l ≡ true
    → InRange q p a
    → pos 1 ≤ℤ p
    → pos 1 ≤ℤ q
    → q ≤ℤ a.pos_reserved
    → (b : Account) × (c : ℕ) × (acct_sell_fill l i q p store ≡ (ok, set store i b))
      × (b.pos_qty ≡ a.pos_qty -ℤ q)
      × (b.pos_reserved ≡ a.pos_reserved -ℤ q)
      × (b.pos_cost +ℤ pos c ≡ a.pos_cost)
      × (c * pos_part a.pos_qty ≤ pos_part a.pos_cost * pos_part q)
      × (pos_part a.pos_cost * pos_part q < (c + 1) * pos_part a.pos_qty)
      × (b.realized +ℤ pos c ≡ a.realized +ℤ p *ℤ q)
      × (pos 0 ≤ℤ b.pos_cost)
      × (q ≡ a.pos_qty → b.pos_cost ≡ pos 0)
      × (b.cash ≡ a.cash)
      × (b.reserved ≡ a.reserved)
unfolding acct_sell_fill pos_apply pos_args_ok run_writes pos_writes
acct_sell_fill_lem l i q p store {a} e v used works r hp hq hr =
    let n_pos : 0 < pos_part a.pos_qty = omega (arith, v.pos_reserved-le-qty) in
    let (lo, hi) = share_bounds (pos_part a.pos_cost) (pos_part q) (pos_part a.pos_qty) n_pos in
    (
      run_writes (pos_writes (sold q p a)) a,
      cost_share q a,
      rw (leb_ℤ_pos p hp, acct_sell_fill, e, pos_apply, ltb_ℤ_pos q hq, pos_args_ok)
          (rw
            (
              with_account_settled l i (pos_body pos_sell q p (pos 0)) store e v.settled,
              pos_body_sell q p a v r hp hq hr,
            )
            (ground arith)),
      refl,
      refl,
      sold_share q p a,
      lo,
      hi,
      omega int_laws,
      omega (int_laws, cost_share-le q a v hq hr),
      λ all. all_sold q p a v n_pos all,
      refl,
      refl,
    )
