-- ===== src/OrderMap.antt =====
-- sor/src/order_map.c: the logical orders of the router, the legs that it sent to the markets, and
-- what became of them. Pointers are not NULL; the hash of an id is that of core/src/order_index.c,
-- which the file repeats. A market is one of the two of `market_t`.
pub mod Legs
pub mod Balance
pub mod Events
pub mod Tests
use trading_sor_mock.Base.{
  ℕ, zero, suc, ◌+◌, ◌-◌, ◌*◌, ◌/◌, ◌%◌, ◌^◌, Bool, true, false, ◌||◌, not, Option, none, some,
  List, [], ◌∷◌, ltb, leb, ◌==◌, if◌then◌else◌, is_some, length,
}
use trading_sor_mock.Base.Int.{ℤ, pos}
use trading_sor_mock.Types.{
  Side, buy, Market, krx, nxt, ErrorCode, ok, invalid_arg, duplicate, pool_exhausted, Order, is_ok,
}
use trading_sor_mock.Index.{order_id_invalid, hash_id, buckets_for}
use trading_sor_mock.Plan.{PlanLeg, ExecPlan, plan_validate}

abbrev pub phys_id_slots : ℕ
phys_id_slots = 16

abbrev pub logical_id_max : ℕ
logical_id_max = (2 ^ 64 - 1) / phys_id_slots

abbrev pub market_number : Market → ℕ
market_number krx = 0
market_number nxt = 1

abbrev pub market_at : ℕ → Option Market
market_at zero = some krx
market_at (suc zero) = some nxt
market_at (suc (suc n)) = none

unfoldable pub phys_id_make : (logical_id : ℕ) → Market → ℕ
phys_id_make logical_id market =
    if logical_id == order_id_invalid || ltb logical_id_max logical_id
    then order_id_invalid
    else logical_id * phys_id_slots + market_number market + 1

-- `none` is false.
unfoldable pub phys_id_market : (phys_id : ℕ) → Option Market
phys_id_market phys_id =
    let place = phys_id % phys_id_slots in
    if phys_id == order_id_invalid
    then none
    else if place == 0 || ltb 2 place
    then none
    else if phys_id / phys_id_slots == 0
    then none
    else market_at (place - 1)

unfoldable pub phys_id_logical : (phys_id : ℕ) → ℕ
phys_id_logical phys_id = elim (phys_id_market phys_id) [
  | none ↦ order_id_invalid
  | some _ ↦ phys_id / phys_id_slots
]

-- `phys_leg_t`
pub record PhysLeg : Type 0 where
  pub phys_id : ℕ
  pub market : Market
  pub sent_qty : ℕ
  pub filled_qty : ℤ
  pub notional : ℤ
  pub canceled_qty : ℤ
  pub live : Bool
  pub accepted : Bool

-- `logical_order_t`; `leg_count` is the length of `legs`.
pub record LogicalOrder : Type 0 where
  pub logical_id : ℕ
  pub side : Side
  pub limit_price : ℕ
  pub order_qty : ℕ
  pub legs : List PhysLeg

-- `order_map_t`; a place of the table is `none` where the code has -1.
pub record OrderMap : Type 0 where
  pub orders : ℕ → LogicalOrder
  pub slot : ℕ → Option ℕ
  pub mask : ℕ
  pub capacity : ℕ
  pub count : ℕ

-- An order of a fresh array (`calloc`).
abbrev pub no_order : LogicalOrder
no_order = record { logical_id = 0; side = buy; limit_price = 0; order_qty = 0; legs = [] }

-- `omap_create`; memory is taken to suffice.
unfoldable pub omap_create : (capacity : ℕ) → Option OrderMap
omap_create capacity = if capacity == 0 then none else elim (buckets_for 32 (capacity * 2) 1) [
  | none ↦ none
  | some buckets ↦ some (record {
    orders = λ _. no_order;
    slot = λ _. none;
    mask = buckets - 1;
    capacity = capacity;
    count = 0;
  })
]

abbrev pub first_place : OrderMap → ℕ → ℕ
first_place map id = hash_id id % (map.mask + 1)

-- `(i + 1) & map->mask`
abbrev pub place_after : OrderMap → ℕ → ℕ
place_after map i = (i + 1) % (map.mask + 1)

-- The loop of `find_slot`.
unfoldable pub find_order_from : (fuel : ℕ) → OrderMap → (id i : ℕ) → Option ℕ
find_order_from zero map id i = none
find_order_from (suc fuel) map id i =
    let rest = find_order_from fuel map id (place_after map i) in
    elim (map.slot i) [
      | none ↦ none
      | some k ↦ if (map.orders k).logical_id == id then some k else rest
    ]

-- `find_slot` of order_map.c
unfoldable pub find_order : OrderMap → ℕ → Option ℕ
find_order map id = find_order_from (map.mask + 1) map id (first_place map id)

-- The loop of `omap_register` that looks for a free place.
unfoldable pub free_place : (fuel : ℕ) → OrderMap → (i : ℕ) → ℕ
free_place zero map i = i
free_place (suc fuel) map i =
    let rest = free_place fuel map (place_after map i) in if is_some (map.slot i) then rest else i

abbrev pub leg_of : ℕ → PlanLeg → PhysLeg
leg_of id leg = record {
  phys_id = phys_id_make id leg.market;
  market = leg.market;
  sent_qty = leg.qty;
  filled_qty = pos 0;
  notional = pos 0;
  canceled_qty = pos 0;
  live = true;
  accepted = false;
}

abbrev pub legs_of : ℕ → List PlanLeg → List PhysLeg
legs_of id [] = []
legs_of id (leg ∷ legs) = leg_of id leg ∷ legs_of id legs

-- A write to an order of the map.
unfoldable pub set_order : OrderMap → ℕ → LogicalOrder → OrderMap
set_order map k lo = record map { orders = λ j. if j == k then lo else map.orders j }

-- `omap_register`; the ids that it writes to `out_phys` are those of the legs.
unfoldable pub omap_register : OrderMap → Order → ExecPlan → ErrorCode × OrderMap
omap_register map req plan =
    let rc = plan_validate plan req in
    let added = set_order map map.count (record {
      logical_id = req.id;
      side = req.side;
      limit_price = req.price;
      order_qty = req.qty;
      legs = legs_of req.id plan.legs;
    }) in
    let place = free_place (map.mask + 1) map (first_place map req.id) in
    if req.id == order_id_invalid || ltb logical_id_max req.id
    then (invalid_arg, map)
    else if not (is_ok rc)
    then (rc, map)
    else if length plan.legs == 0
    then (invalid_arg, map)
    else if is_some (find_order map req.id)
    then (duplicate, map)
    else if leb map.capacity map.count
    then (pool_exhausted, map)
    else (
      ok,
      record added {
        slot = λ j. if j == place then some map.count else map.slot j;
        count = map.count + 1;
      },
    )

unfoldable pub omap_get : OrderMap → ℕ → Option LogicalOrder
omap_get map logical_id =
    if logical_id == order_id_invalid
    then none
    else elim (find_order map logical_id) [ none ↦ none | some k ↦ some (map.orders k) ]
