-- ===== src/OrderMap/Events.antt =====
-- Whatever is registered and reported, the orders of the map stay balanced
-- (sor/src/order_map.c).
use trading_sor_mock.Base.{
  ℕ, ◌≤◌, ◌<◌, ◌≡◌, ◌∙◌, ◌≢◌, inl, inr, true, false, ◌||◌, List, [], ◌∷◌, arith, ltb, leb, ◌==◌,
  is_some, ==_iff, Bool-cases, length, All,
}
use trading_sor_mock.Types.{ErrorCode, qty_max, Order, is_ok, fail, Result-cases}
use trading_sor_mock.Index.{order_id_invalid}
use trading_sor_mock.Plan.{PlanLeg, ExecPlan, plan_legs_max, check_legs, plan_validate}
use trading_sor_mock.OrderMap.{logical_id_max, OrderMap, find_order, set_order, omap_register}
use trading_sor_mock.OrderMap.Legs.{
  accept_leg, fill_leg, cancel_leg, omap_on_accept, omap_on_fill, omap_on_cancel,
}
use trading_sor_mock.OrderMap.Balance.{
  MapBalanced, accept_leg-KeepsLeg, fill_leg-KeepsLeg, cancel_leg-KeepsLeg, on_leg-MapBalanced,
  plan_qty, check_legs_lem, legs_of_lem, check_legs_fail,
}

-- A valid plan with legs sends the order's quantity.
plan_validate_lem :
    (plan : ExecPlan) (req : Order)
    → is_ok (plan_validate plan req) ≡ true
    → (length plan.legs == 0) ≡ false
    → (plan_qty plan.legs ≡ req.qty) × All (λ (leg : PlanLeg). 0 < leg.qty) plan.legs
unfolding plan_validate
plan_validate_lem plan req good some_legs =
    elim (Bool-cases (ltb plan_legs_max (length plan.legs))) [
      | inl many ↦ absurd (not_ok (rw (some_legs, many, plan_validate) at good))
      | inr few ↦ elim (Result-cases (check_legs plan.legs (λ _. false) 0)) [
        | inr (rc, e) ↦ absurd (bad_legs rc e (rw (some_legs, few, e, plan_validate) at good))
        | inl (sum, e) ↦
            let (total, all_pos) = check_legs_lem plan.legs (λ _. false) 0 sum e in
            elim (Bool-cases (sum == plan.planned_qty)) [
              | inr f ↦ absurd (not_ok (rw (some_legs, few, e, f, plan_validate) at good))
              | inl f ↦ elim (Bool-cases (sum == req.qty)) [
                | inr g ↦ absurd (not_ok (rw (some_legs, few, e, f, g, plan_validate) at good))
                | inl g ↦ (omega (arith, total, (==_iff sum req.qty).0 g), all_pos)
              ]
            ]
      ]
    ]
  where
    not_ok : false ≢ true
    not_ok e = cc e

    bad_legs : (rc : ErrorCode) → check_legs plan.legs (λ _. false) 0 ≡ fail rc → is_ok rc ≢ true
    bad_legs rc e good = cc (check_legs_fail plan.legs (λ _. false) 0 rc e, good)

-- Registering an order keeps the map balanced.
omap_register-MapBalanced :
    (map : OrderMap) (req : Order) (plan : ExecPlan)
    → req.qty ≤ qty_max
    → MapBalanced map
    → MapBalanced (omap_register map req plan).1
unfolding omap_register set_order
omap_register-MapBalanced map req plan small h k =
    elim (Bool-cases (req.id == order_id_invalid || ltb logical_id_max req.id)) [
      | inl e ↦ rw (e) (h k)
      | inr e ↦ elim (Bool-cases (is_ok (plan_validate plan req))) [
        | inr f ↦ rw (e, f) (h k)
        | inl f ↦ elim (Bool-cases (length plan.legs == 0)) [
          | inl g ↦ rw (e, f, g) (h k)
          | inr g ↦ elim (Bool-cases (is_some (find_order map req.id))) [
            | inl i ↦ rw (e, f, g, i) (h k)
            | inr i ↦ elim (Bool-cases (leb map.capacity map.count)) [
              | inl j ↦ rw (e, f, g, i, j) (h k)
              | inr j ↦
                  let (sent, all_pos) = plan_validate_lem plan req f g in
                  let (good, same) = legs_of_lem req.id plan.legs all_pos (omega (arith, sent)) in
                  elim (Bool-cases (k == map.count)) [
                    | inl at ↦
                        rw (e, f, g, i, j, at) record { legs_ok = good; all_sent = same ∙ sent }
                    | inr at ↦ rw (e, f, g, i, j, at) (h k)
                  ]
            ]
          ]
        ]
      ]
    ]

-- The calls that change the map.
pub data MapCall : Type 0 where
  register : Order → ExecPlan → MapCall
  on_accept : (phys_id : ℕ) → MapCall
  on_fill : (phys_id qty price : ℕ) → MapCall
  on_cancel : (phys_id qty : ℕ) → MapCall

abbrev pub map_call : OrderMap → MapCall → OrderMap
map_call map (register req plan) = (omap_register map req plan).1
map_call map (on_accept phys_id) = (omap_on_accept map phys_id).1
map_call map (on_fill phys_id qty price) = (omap_on_fill map phys_id qty price).1
map_call map (on_cancel phys_id qty) = (omap_on_cancel map phys_id qty).1

abbrev pub map_calls : OrderMap → List MapCall → OrderMap
map_calls map [] = map
map_calls map (c ∷ cs) = map_calls (map_call map c) cs

fill-MapBalanced :
    (map : OrderMap) (phys_id qty price : ℕ)
    → qty ≤ qty_max
    → MapBalanced map
    → MapBalanced (omap_on_fill map phys_id qty price).1
unfolding omap_on_fill
fill-MapBalanced map phys_id qty price small h k = elim (Bool-cases (qty == 0 || price == 0)) [
  | inl e ↦ rw (e) (h k)
  | inr e ↦ rw (e) (
      on_leg-MapBalanced map phys_id (fill_leg qty price)
        (fill_leg-KeepsLeg qty price (ground arith) small) h k)
]

cancel-MapBalanced :
    (map : OrderMap) (phys_id qty : ℕ)
    → qty ≤ qty_max
    → MapBalanced map
    → MapBalanced (omap_on_cancel map phys_id qty).1
unfolding omap_on_cancel
cancel-MapBalanced map phys_id qty small h k = elim (Bool-cases (qty == 0)) [
  | inl e ↦ rw (e) (h k)
  | inr e ↦ rw (e) (
      on_leg-MapBalanced map phys_id (cancel_leg qty) (cancel_leg-KeepsLeg qty (ground arith) small)
        h k)
]

accept-MapBalanced :
    (map : OrderMap) (phys_id : ℕ) → MapBalanced map → MapBalanced (omap_on_accept map phys_id).1
unfolding omap_on_accept
accept-MapBalanced map phys_id h = on_leg-MapBalanced map phys_id accept_leg accept_leg-KeepsLeg h

-- The quantity that a call names.
abbrev pub call_qty : MapCall → ℕ
call_qty (register req plan) = req.qty
call_qty (on_accept phys_id) = 0
call_qty (on_fill phys_id qty price) = qty
call_qty (on_cancel phys_id qty) = qty

map_call-MapBalanced :
    (map : OrderMap) (c : MapCall)
    → call_qty c ≤ qty_max
    → MapBalanced map
    → MapBalanced (map_call map c)
map_call-MapBalanced map (register req plan) le h = omap_register-MapBalanced map req plan le h
map_call-MapBalanced map (on_accept phys_id) le h = accept-MapBalanced map phys_id h
map_call-MapBalanced map (on_fill phys_id qty price) le h =
    fill-MapBalanced map phys_id qty price le h
map_call-MapBalanced map (on_cancel phys_id qty) le h = cancel-MapBalanced map phys_id qty le h

-- Whatever orders are registered and whatever the markets report of them, in any order, with
-- quantities of at most QTY_MAX: the legs of each logical order were sent for exactly its quantity; on
-- no leg is more filled and canceled than was sent, and neither is negative; and a leg is live exactly
-- while something of it is open.
pub map_calls-MapBalanced :
    (map : OrderMap) (calls : List MapCall)
    → All (λ (c : MapCall). call_qty c ≤ qty_max) calls
    → MapBalanced map
    → MapBalanced (map_calls map calls)
map_calls-MapBalanced map [] _ h = h
map_calls-MapBalanced map (c ∷ cs) (le, les) h =
    map_calls-MapBalanced (map_call map c) cs les (map_call-MapBalanced map c le h)
