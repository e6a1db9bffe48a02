-- ===== src/Index.antt =====
-- core/src/order_index.c: the hash table from the ids of the live orders to their slots, with linear
-- probing. The table has `mask + 1` places, a power of two, so that `x & mask` is `x % (mask + 1)`.
-- A loop that probes runs on fuel for one round through the table; the code keeps half of it empty.
use trading_sor_mock.Base.{
  ℕ, zero, suc, ◌+◌, ◌-◌, ◌*◌, ◌/◌, ◌%◌, ◌^◌, Bool, ◌&&◌, ◌||◌, Option, none, some, ltb, leb, ◌==◌,
  if◌then◌else◌,
}
use trading_sor_mock.Types.{
  ErrorCode, ok, invalid_arg, not_found, duplicate, pool_exhausted, int32_max,
}

-- `index_slot_t`; a key of 0 is an empty place.
pub record IndexSlot : Type 0 where
  pub key : ℕ
  pub val : Option ℕ

-- `order_index_t`
pub record OrderIndex : Type 0 where
  pub slots : ℕ → IndexSlot
  pub mask : ℕ
  pub capacity : ℕ
  pub count : ℕ

abbrev pub order_id_invalid : ℕ
order_id_invalid = 0

-- `a ^ b` on the low `bits` bits.
unfoldable pub xor_bits : (bits a b : ℕ) → ℕ
xor_bits zero a b = 0
xor_bits (suc bits) a b = (a % 2 + b % 2) % 2 + 2 * xor_bits bits (a / 2) (b / 2)

-- `hash_id`, on 64 bits
unfoldable pub hash_id : ℕ → ℕ
unfolding xor_bits
hash_id id =
    let x1 = xor_bits 64 id (id / 2 ^ 30) in
    let x2 = x1 * 0xbf58476d1ce4e5b9 % 2 ^ 64 in
    let x3 = xor_bits 64 x2 (x2 / 2 ^ 27) in
    let x4 = x3 * 0x94d049bb133111eb % 2 ^ 64 in xor_bits 64 x4 (x4 / 2 ^ 31)

unfoldable pub slot_of : OrderIndex → ℕ → ℕ
slot_of idx id = hash_id id % (idx.mask + 1)

-- `(i + 1) & idx->mask`
abbrev pub next_place : OrderIndex → ℕ → ℕ
next_place idx i = (i + 1) % (idx.mask + 1)

-- The loop of `find_slot`; `none` is -1.
unfoldable pub find_from : (fuel : ℕ) → OrderIndex → (id i : ℕ) → Option ℕ
find_from zero idx id i = none
find_from (suc fuel) idx id i =
    let rest = find_from fuel idx id (next_place idx i) in
    if (idx.slots i).key == order_id_invalid
    then none
    else if (idx.slots i).key == id
    then some i
    else rest

unfoldable pub find_slot : OrderIndex → ℕ → Option ℕ
find_slot idx id = find_from (idx.mask + 1) idx id (slot_of idx id)

-- The loop of `index_create`: the least power of two, from `buckets` on, that is at least `want`.
unfoldable pub buckets_for : (fuel want buckets : ℕ) → Option ℕ
buckets_for zero want buckets = none
buckets_for (suc fuel) want buckets =
    let rest = buckets_for fuel want (buckets * 2) in
    if ltb buckets want then if ltb (int32_max / 4) buckets then none else rest else some buckets

abbrev pub empty_place : IndexSlot
empty_place = record { key = order_id_invalid; val = none }

-- `index_create`; memory is taken to suffice.
unfoldable pub index_create : ℕ → Option OrderIndex
index_create capacity = if capacity == 0 then none else elim (buckets_for 32 (capacity * 2) 1) [
  | none ↦ none
  | some buckets ↦
      some (record { slots = λ _. empty_place; mask = buckets - 1; capacity = capacity; count = 0 })
]

-- A write to a place of the table.
unfoldable pub set_place : OrderIndex → ℕ → IndexSlot → OrderIndex
set_place idx i s = record idx { slots = λ j. if j == i then s else idx.slots j }

-- The loop of `index_put`.
unfoldable pub put_from : (fuel : ℕ) → OrderIndex → (id order i : ℕ) → ErrorCode × OrderIndex
put_from zero idx id order i = (pool_exhausted, idx)
put_from (suc fuel) idx id order i =
    let rest = put_from fuel idx id order (next_place idx i) in
    let put = set_place idx i (record { key = id; val = some order }) in
    if (idx.slots i).key == order_id_invalid
    then (ok, record put { count = idx.count + 1 })
    else if (idx.slots i).key == id
    then (duplicate, idx)
    else rest

unfoldable pub index_put : OrderIndex → (id order : ℕ) → ErrorCode × OrderIndex
index_put idx id order =
    if id == order_id_invalid
    then (invalid_arg, idx)
    else if leb idx.capacity idx.count
    then (pool_exhausted, idx)
    else put_from (idx.mask + 1) idx id order (slot_of idx id)

unfoldable pub index_get : OrderIndex → ℕ → Option ℕ
index_get idx id =
    if id == order_id_invalid
    then none
    else elim (find_slot idx id) [ none ↦ none | some i ↦ (idx.slots i).val ]

-- Whether the entry at `probe`, whose home is `home`, may stay there with an empty place at `hole`.
unfoldable pub settled : (hole probe home : ℕ) → Bool
settled hole probe home =
    if leb hole probe then ltb hole home && leb home probe else ltb hole home || leb home probe

-- The loops of `index_remove`, from an empty place at `hole`.
unfoldable pub shift_back : (fuel : ℕ) → OrderIndex → (hole probe : ℕ) → OrderIndex
shift_back zero idx hole probe = idx
shift_back (suc fuel) idx hole probe =
    let probe' = next_place idx probe in
    let moved = set_place (set_place idx hole (idx.slots probe')) probe' empty_place in
    let stay = shift_back fuel idx hole probe' in
    let move = shift_back fuel moved probe' probe' in
    if (idx.slots probe').key == order_id_invalid
    then record idx { count = idx.count - 1 }
    else if settled hole probe' (slot_of idx (idx.slots probe').key)
    then stay
    else move

unfoldable pub index_remove : OrderIndex → ℕ → ErrorCode × OrderIndex
index_remove idx id =
    if id == order_id_invalid then (invalid_arg, idx) else elim (find_slot idx id) [
      | none ↦ (not_found, idx)
      | some hole ↦ (ok, shift_back (idx.mask + 1) (set_place idx hole empty_place) hole hole)
    ]
