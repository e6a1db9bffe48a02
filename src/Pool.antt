-- ===== src/Pool.antt =====
-- core/src/order_pool.c: the preallocated slots of the orders, and the list of the free ones. A
-- pointer to an order is the number of its slot; a pool pointer is not NULL.
pub mod FreeList
use trading_sor_mock.Base.{
  ℕ, ◌+◌, Bool, true, false, ◌||◌, not, Option, none, some, ltb, leb, ◌==◌, if◌then◌else◌,
}
use trading_sor_mock.Base.Int.{negsuc}
use trading_sor_mock.Types.{buy, limit, market, krx, Order}
use trading_sor_mock.Level.{Slots, store}

-- An entry of `next`: a slot, SLOT_NIL or SLOT_IN_USE.
pub data SlotLink : Type 0 where
  slot_nil slot_in_use : SlotLink
  slot_at : ℕ → SlotLink

-- `order_pool_t`
pub record OrderPool : Type 0 where
  pub slots : Slots
  pub next : ℕ → SlotLink
  pub free_head : SlotLink
  pub capacity : ℕ

-- A slot as `order_pool_acquire` clears it.
abbrev pub cleared_order : Order
cleared_order = record {
  id = 0;
  client_order_id = 0;
  ts = negsuc 0;
  price = 0;
  qty = 0;
  filled_qty = 0;
  side = buy;
  type = limit;
  market = krx;
}

-- `order_pool_create`; memory is taken to suffice.
unfoldable pub order_pool_create : ℕ → Option OrderPool
order_pool_create capacity =
    if capacity == 0
    then none
    else some (record {
      slots = λ _. cleared_order;
      next = λ i. if ltb (i + 1) capacity then slot_at (i + 1) else slot_nil;
      free_head = slot_at 0;
      capacity = capacity;
    })

unfoldable pub set_next : OrderPool → ℕ → SlotLink → OrderPool
set_next pool i link = record pool { next = λ j. if j == i then link else pool.next j }

-- `order_pool_acquire`; the head of the free list is a slot or SLOT_NIL.
unfoldable pub order_pool_acquire : OrderPool → Option ℕ × OrderPool
order_pool_acquire pool = elim pool.free_head [
  | slot_nil ↦ (none, pool)
  | slot_in_use ↦ (none, pool)
  | slot_at i ↦ (
    some i,
    record (set_next pool i slot_in_use) {
      free_head = pool.next i;
      slots = store pool.slots i cleared_order;
    },
  )
]

abbrev pub is_in_use : SlotLink → Bool
is_in_use slot_in_use = true
is_in_use slot_nil = false
is_in_use (slot_at _) = false

unfoldable pub order_pool_release : OrderPool → ℕ → OrderPool
order_pool_release pool i =
    if leb pool.capacity i || not (is_in_use (pool.next i))
    then pool
    else record (set_next pool i pool.free_head) { free_head = slot_at i }
