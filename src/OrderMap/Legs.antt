-- ===== src/OrderMap/Legs.antt =====
-- sor/src/order_map.c: what the markets report of a leg, and the sums over the legs of an order.
use trading_sor_mock.Base.{
  ℕ, suc, ◌*◌, true, false, ◌||◌, Option, none, some, List, [], ◌∷◌, ◌==◌, if◌then◌else◌, get_elem?,
  set,
}
use trading_sor_mock.Base.Int.{ℤ, pos, ◌+ℤ◌, ◌-ℤ◌, ltb_ℤ, eqb_ℤ, int32, int64}
use trading_sor_mock.Types.{ErrorCode, ok, invalid_qty, not_found}
use trading_sor_mock.Index.{order_id_invalid}
use trading_sor_mock.OrderMap.{phys_id_logical, PhysLeg, OrderMap, find_order, set_order, omap_get}

-- Where `find_leg` finds the leg of a physical id: the order and the leg's number in it.
unfoldable pub leg_index : List PhysLeg → ℕ → Option ℕ
leg_index [] phys_id = none
leg_index (leg ∷ legs) phys_id =
    let rest = leg_index legs phys_id in
    if leg.phys_id == phys_id then some 0 else elim rest [ none ↦ none | some i ↦ some (suc i) ]

unfoldable pub find_leg : OrderMap → ℕ → Option (ℕ × ℕ)
find_leg map phys_id =
    let logical_id = phys_id_logical phys_id in
    if logical_id == order_id_invalid then none else elim (find_order map logical_id) [
      | none ↦ none
      | some k ↦ elim (leg_index (map.orders k).legs phys_id) [ none ↦ none | some i ↦ some (k, i) ]
    ]

-- The leg at a place that `find_leg` gave.
abbrev pub leg_at : OrderMap → ℕ × ℕ → Option PhysLeg
leg_at map at = get_elem? (map.orders at.0).legs at.1

-- A write through the pointer that `find_leg` gave.
unfoldable pub set_leg : OrderMap → ℕ × ℕ → PhysLeg → OrderMap
set_leg map at leg =
    set_order map at.0 (record (map.orders at.0) { legs = set (map.orders at.0).legs at.1 leg })

-- `leg->filled_qty + leg->canceled_qty`. The sums of the file are of int32, and those of amounts of
-- int64: past the range they wrap around in two's complement.
abbrev pub used_qty : PhysLeg → ℤ
used_qty leg = int32 (leg.filled_qty +ℤ leg.canceled_qty)

-- `if (leg->filled_qty + leg->canceled_qty == leg->sent_qty) leg->live = false;`
abbrev pub close_leg : PhysLeg → PhysLeg
close_leg leg = if eqb_ℤ (used_qty leg) (pos leg.sent_qty) then record leg { live = false } else leg

-- A leg found, or ERR_NOT_FOUND.
abbrev pub on_leg : OrderMap → ℕ → (PhysLeg → ErrorCode × PhysLeg) → ErrorCode × OrderMap
on_leg map phys_id f = elim (find_leg map phys_id) [
  | none ↦ (not_found, map)
  | some at ↦ elim (leg_at map at) [
    | none ↦ (not_found, map)
    | some leg ↦ let (rc, leg') = f leg in (rc, set_leg map at leg')
  ]
]

abbrev pub accept_leg : PhysLeg → ErrorCode × PhysLeg
accept_leg leg = (ok, record leg { accepted = true })

abbrev pub fill_leg : (qty price : ℕ) → PhysLeg → ErrorCode × PhysLeg
fill_leg qty price leg =
    if ltb_ℤ (pos leg.sent_qty) (int32 (used_qty leg +ℤ pos qty)) then (invalid_qty, leg) else (
      ok,
      close_leg (record leg {
        filled_qty = int32 (leg.filled_qty +ℤ pos qty);
        notional = int64 (leg.notional +ℤ pos (price * qty));
      }),
    )

abbrev pub cancel_leg : (qty : ℕ) → PhysLeg → ErrorCode × PhysLeg
cancel_leg qty leg =
    if ltb_ℤ (pos leg.sent_qty) (int32 (used_qty leg +ℤ pos qty))
    then (invalid_qty, leg)
    else (ok, close_leg (record leg { canceled_qty = int32 (leg.canceled_qty +ℤ pos qty) }))

unfoldable pub omap_on_accept : OrderMap → (phys_id : ℕ) → ErrorCode × OrderMap
omap_on_accept map phys_id = on_leg map phys_id accept_leg

unfoldable pub omap_on_fill : OrderMap → (phys_id qty price : ℕ) → ErrorCode × OrderMap
omap_on_fill map phys_id qty price =
    if qty == 0 || price == 0 then (invalid_qty, map) else on_leg map phys_id (fill_leg qty price)

unfoldable pub omap_on_cancel : OrderMap → (phys_id qty : ℕ) → ErrorCode × OrderMap
omap_on_cancel map phys_id qty =
    if qty == 0 then (invalid_qty, map) else on_leg map phys_id (cancel_leg qty)

-- The loops of the sums.
abbrev pub legs_filled : List PhysLeg → (sum : ℤ) → ℤ
legs_filled [] sum = sum
legs_filled (leg ∷ legs) sum = legs_filled legs (int32 (sum +ℤ leg.filled_qty))

abbrev pub legs_canceled : List PhysLeg → (sum : ℤ) → ℤ
legs_canceled [] sum = sum
legs_canceled (leg ∷ legs) sum = legs_canceled legs (int32 (sum +ℤ leg.canceled_qty))

abbrev pub legs_notional : List PhysLeg → (sum : ℤ) → ℤ
legs_notional [] sum = sum
legs_notional (leg ∷ legs) sum = legs_notional legs (int64 (sum +ℤ leg.notional))

unfoldable pub omap_filled_qty : OrderMap → ℕ → ℤ
omap_filled_qty map id = elim (omap_get map id) [
  | none ↦ pos 0
  | some lo ↦ legs_filled lo.legs (pos 0)
]

unfoldable pub omap_notional : OrderMap → ℕ → ℤ
omap_notional map id = elim (omap_get map id) [
  | none ↦ pos 0
  | some lo ↦ legs_notional lo.legs (pos 0)
]

unfoldable pub omap_canceled_qty : OrderMap → ℕ → ℤ
omap_canceled_qty map id = elim (omap_get map id) [
  | none ↦ pos 0
  | some lo ↦ legs_canceled lo.legs (pos 0)
]

unfoldable pub omap_remaining : OrderMap → ℕ → ℤ
omap_remaining map id = elim (omap_get map id) [
  | none ↦ pos 0
  | some lo ↦ int32 (int32 (pos lo.order_qty -ℤ omap_filled_qty map id) -ℤ omap_canceled_qty map id)
]

unfoldable pub omap_count : OrderMap → ℕ
omap_count map = map.count
