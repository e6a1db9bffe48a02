-- ===== src/Plan/Shares.antt =====
-- The split adds up (sor/src/strategy_split.c).
use trading_sor_mock.Base.{
  ℕ, zero, suc, ◌+◌, ◌-◌, ◌*◌, ◌/◌, ◌%◌, ◌≤◌, ◌<◌, ◌≡◌, refl, ◌≢◌, inl, inr, true, false, List, [],
  ◌∷◌, ◌++◌, arith, ◌==◌, if◌then◌else◌, lt→leb_false, le→ltb_false, ==_iff, ==_refl, ==_false,
  Bool-cases, compare_cases, length,
}
use trading_sor_mock.Types.{OrderType, Market, krx, nxt, ok, Order, done}
use trading_sor_mock.Book.Segments.{mul_mono}
use trading_sor_mock.Plan.{
  PlanLeg, ExecPlan, plan_legs_max, empty_plan, plan_add_leg, check_legs, plan_validate,
}
use trading_sor_mock.Plan.Split.{SplitShare, prefers, share_of, hand_out, add_legs, split_both}
use native.Mathlib.Nat.{mod-add-div'}

-- Two quotients by a number, with their remainders, miss the quotient of the sum by at most one.
quotients :
    (q x y r1 r2 t : ℕ)
    → r1 < t
    → r2 < t
    → (x + y) * t + (r1 + r2) ≡ q * t
    → (x + y ≤ q) × (q ≤ x + y + 1)
quotients q x y r1 r2 t h1 h2 e = (
  elim (compare_cases q (x + y)) [
    | inl l ↦ absurd (omega (arith, e, h1, mul_mono (suc q) (x + y) t l))
    | inr g ↦ g
  ],
  elim (compare_cases (x + y + 1) q) [
    | inl l ↦ absurd (omega (arith, e, h1, h2, mul_mono (x + y + 2) q t (omega (arith, l))))
    | inr g ↦ g
  ],
)

-- What rounding down leaves is none or one.
leftover_small :
    (qty a b : ℕ)
    → 0 < a + b
    → (qty * a / (a + b) + qty * b / (a + b) ≤ qty)
      × (qty ≤ qty * a / (a + b) + qty * b / (a + b) + 1)
leftover_small qty a b h =
    let t = a + b in
    quotients qty (qty * a / t) (qty * b / t) (qty * a % t) (qty * b % t) t (rest_lt (qty * a) t h)
      (rest_lt (qty * b) t h) (omega (arith, mod-add-div' (qty * a) t, mod-add-div' (qty * b) t))
  where
    rest_lt : (x t : ℕ) → 0 < t → x % t < t
    rest_lt x t h = omega arith

-- Handing out at most one more share.
hand_out_lem :
    (leftover : ℕ) (k n : SplitShare)
    → leftover ≤ 1
    → k.got_extra ≡ false
    → n.got_extra ≡ false
    → let (k', n') = hand_out leftover k n in
      (k'.base + n'.base ≡ k.base + n.base + leftover)
      × (k.base ≤ k'.base)
      × (k'.base ≤ k.base + 1)
      × (n.base ≤ n'.base)
      × (n'.base ≤ n.base + 1)
unfolding hand_out prefers
hand_out_lem zero k n h ek en = (omega arith, omega arith, omega arith, omega arith, omega arith)
hand_out_lem (suc zero) k n h ek en = elim (Bool-cases (prefers n k)) [
  | inl e ↦ rw (ek, en, e) (omega arith, omega arith, omega arith, omega arith, omega arith)
  | inr e ↦ rw (ek, en, e) (omega arith, omega arith, omega arith, omega arith, omega arith)
]
hand_out_lem (suc (suc leftover)) k n h ek en = absurd (omega (arith, h))

-- A leg of a share; none for nothing.
abbrev pub leg_of : Order → Market → ℕ → List PlanLeg
leg_of req m qty =
    if qty == 0
    then []
    else record { market = m; qty = qty; limit_price = req.price; type = req.type } ∷ []

validate_ok :
    (legs : List PlanLeg) (sum : ℕ) (req : Order)
    → length legs ≢ 0
    → length legs ≤ plan_legs_max
    → check_legs legs (λ _. false) 0 ≡ done sum
    → sum ≡ req.qty
    → plan_validate (record { legs = legs; planned_qty = sum; reason = ok }) req ≡ ok
unfolding plan_validate
validate_ok legs sum req ne small e same =
    rw (==_false (length legs) 0 ne, le→ltb_false plan_legs_max (length legs) small, e)
      (rw (==_refl sum, same, ==_refl req.qty) refl)

add_legs_steps :
    (req : Order) (x y : ℕ) (p1 p2 : ExecPlan)
    → plan_add_leg (empty_plan ok) krx x req.price req.type ≡ (ok, p1)
    → plan_add_leg p1 nxt y req.price req.type ≡ (ok, p2)
    → plan_validate p2 req ≡ ok
    → add_legs req x y ≡ (ok, p2)
unfolding add_legs
add_legs_steps req x y p1 p2 e1 e2 e3 = rw (e1, e2, e3) refl

add_leg_none :
    (plan : ExecPlan) (m : Market) (q price : ℕ) (type : OrderType)
    → (q == 0) ≡ true
    → plan_add_leg plan m q price type ≡ (ok, plan)
unfolding plan_add_leg
add_leg_none plan m q price type e = rw e refl

add_leg_some :
    (plan : ExecPlan) (m : Market) (q price : ℕ) (type : OrderType)
    → (q == 0) ≡ false
    → length plan.legs < plan_legs_max
    → plan_add_leg plan m q price type ≡ (
      ok,
      record plan {
        legs = plan.legs ++ (record { market = m; qty = q; limit_price = price; type = type } ∷ []);
        planned_qty = plan.planned_qty + q;
      },
    )
unfolding plan_add_leg
add_leg_some plan m q price type e small =
    rw (e, lt→leb_false plan_legs_max (length plan.legs) small) refl

check_one :
    (req : Order) (m : Market) (q : ℕ)
    → (q == 0) ≡ false
    → check_legs
        (record { market = m; qty = q; limit_price = req.price; type = req.type } ∷ [])
        (λ _. false)
        0
      ≡ done (0 + q)
unfolding check_legs
check_one req m q e = rw e refl

check_two :
    (req : Order) (x y : ℕ)
    → (x == 0) ≡ false
    → (y == 0) ≡ false
    → check_legs
        (record { market = krx; qty = x; limit_price = req.price; type = req.type }
          ∷ record { market = nxt; qty = y; limit_price = req.price; type = req.type }
          ∷ [])
        (λ _. false)
        0
      ≡ done (0 + x + y)
unfolding check_legs
check_two req x y ex ey = rw (ex, ey) refl

-- Shares that add up to the order pass `plan_validate`.
add_legs_lem :
    (req : Order) (x y : ℕ)
    → 0 < req.qty
    → x + y ≡ req.qty
    → (plan : ExecPlan) × (add_legs req x y ≡ (ok, plan))
      × (plan.legs ≡ leg_of req krx x ++ leg_of req nxt y)
      × (plan.planned_qty ≡ req.qty)
add_legs_lem req x y hq e = elim (Bool-cases (x == 0)) [
  | inl ex ↦ elim (Bool-cases (y == 0)) [
    | inl ey ↦ absurd (omega (arith, hq, e, (==_iff x 0).0 ex, (==_iff y 0).0 ey))
    | inr ey ↦
        let total : 0 + y ≡ req.qty = omega (arith, e, (==_iff x 0).0 ex) in
        (
          _,
          add_legs_steps req x y _ _ (add_leg_none _ krx x req.price req.type ex)
              (add_leg_some (empty_plan ok) nxt y req.price req.type ey (omega arith))
              (validate_ok _ _ req (λ z. omega (arith, z)) (omega arith) (check_one req nxt y ey)
                total),
          rw (ex, ey) refl,
          total,
        )
  ]
  | inr ex ↦
      let add_krx = add_leg_some (empty_plan ok) krx x req.price req.type ex (omega arith) in
      elim (Bool-cases (y == 0)) [
        | inl ey ↦
            let total : 0 + x ≡ req.qty = omega (arith, e, (==_iff y 0).0 ey) in
            (
              _,
              add_legs_steps req x y _ _ add_krx (add_leg_none _ nxt y req.price req.type ey) (
                  validate_ok _ _ req (λ z. omega (arith, z)) (omega arith) (check_one req krx x ex)
                    total),
              rw (ex, ey) refl,
              total,
            )
        | inr ey ↦
            let total : 0 + x + y ≡ req.qty = omega (arith, e) in
            (
              _,
              add_legs_steps req x y _ _ add_krx
                  (add_leg_some _ nxt y req.price req.type ey (omega arith))
                  (validate_ok _ _ req (λ z. omega (arith, z)) (omega arith)
                    (check_two req x y ex ey) total),
              rw (ex, ey) refl,
              total,
            )
      ]
]

-- With both markets open and something to fill on them, the split of an order succeeds: its legs,
-- at most one for each market and none for nothing, add up to the order exactly, and each is the
-- market's proportional part of the order, rounded down or one share more.
pub split_both_lem :
    (req : Order) (fill_krx fill_nxt : ℕ)
    → 0 < req.qty
    → 0 < fill_krx + fill_nxt
    → (x : ℕ) × (y : ℕ) × (plan : ExecPlan) × (split_both req fill_krx fill_nxt ≡ (ok, plan))
      × (plan.legs ≡ leg_of req krx x ++ leg_of req nxt y)
      × (plan.planned_qty ≡ req.qty)
      × (x + y ≡ req.qty)
      × (req.qty * fill_krx / (fill_krx + fill_nxt) ≤ x)
      × (x ≤ req.qty * fill_krx / (fill_krx + fill_nxt) + 1)
      × (req.qty * fill_nxt / (fill_krx + fill_nxt) ≤ y)
      × (y ≤ req.qty * fill_nxt / (fill_krx + fill_nxt) + 1)
unfolding split_both share_of
split_both_lem req a b hq ht =
    let k = share_of req.qty a (a + b) in
    let n = share_of req.qty b (a + b) in
    let (enough, nearly) = leftover_small req.qty a b ht in
    let leftover = req.qty - (k.base + n.base) in
    let (sum, k_lo, k_hi, n_lo, n_hi) =
      hand_out_lem leftover k n (omega (arith, nearly)) refl refl in
    let shares = hand_out leftover k n in
    let total : shares.0.base + shares.1.base ≡ req.qty = omega (arith, sum, enough) in
    let (plan, made, legs, planned) = add_legs_lem req shares.0.base shares.1.base hq total in
    (shares.0.base, shares.1.base, plan, made, legs, planned, total, k_lo, k_hi, n_lo, n_hi)
